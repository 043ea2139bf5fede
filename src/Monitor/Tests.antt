-- ===== src/Monitor/Tests.antt =====
-- Runs of a monitor for two readers or one writer, with first-come wait queues.
use mathlib.Core.List.{map}
use multithreading_bible.Common.{
  ℕ, ◌≡◌, ◌≢◌, ◌≤◌, ◌<◌, ◌⊎◌, refl, true, false, List, [], ◌∷◌, ◌++◌, arith, ◌==◌, if◌then◌else◌,
}
use multithreading_bible.Common.Sums.{put}
use multithreading_bible.Sync.{
  quiet, signal, each, leaves, unlocks, Thread, Pc, idle, woken, World, silent, returns, resumes,
  passes, Step, Reach, here, next,
}
use multithreading_bible.Sync.Change.{holds, waits}
use multithreading_bible.WaitQueue.{Glthread, WaitQueue}
use multithreading_bible.Monitor.{
  reader, writer, any, available, busy_by_reader, Monitor, Cv, thread_cv, Point, asking, waiting,
  init_monitor, after_release, monitor_is_resource_available, monitor_sanity_check, request,
  release, enter, resume, Held, api,
}
use multithreading_bible.Monitor.Sections.{IsValid, is_reading, is_writing}
use multithreading_bible.Monitor.Limits.{fresh, limits_kept}
use multithreading_bible.Monitor.Release.{
  Blocks, deleted_unused, released_early, reader_release_wakes, strict_alternates, strict_stalls,
}

abbrev without : List ℕ → ℕ → List ℕ
without [] t = []
without (u ∷ l) t = if u == t then l else u ∷ without l t

-- A thread list in which a comparison that always answers 1 queues at the end.
abbrev lists : Glthread
lists = record { priority_insert = λ l t. l ++ (t ∷ []); remove = without }

abbrev queue : ℕ → List ℕ → WaitQueue
queue n l = record {
  priority_flag = true;
  thread_wait_count = n;
  appln_mutex = false;
  priority_wait_queue = l;
  auto_unlock_appln_mutex = false;
}

abbrev new : Monitor
new = record {
  writer_thread_wait_q = queue 0 [];
  reader_thread_wait_q = queue 0 [];
  active_threads_in_cs = [];
  resource_status = available;
  n_readers_max_limit = 2;
  n_writers_max_limit = 1;
  n_curr_readers = 0;
  n_curr_writers = 0;
  switch_from_readers_to_writers = 0;
  switch_from_writers_to_readers = 0;
  strict_alternation = false;
  who_accessed_cs_last = any;
  shutdown = false;
  is_deleted = false;
}

abbrev reading : Monitor
reading = record new {
  reader_thread_wait_q = record (queue 0 []) { appln_mutex = true };
  active_threads_in_cs = 0 ∷ [];
  resource_status = busy_by_reader;
  n_curr_readers = 1;
  switch_from_writers_to_readers = 1;
  who_accessed_cs_last = reader;
}

abbrev deleted : Monitor
deleted = record reading {
  active_threads_in_cs = [];
  resource_status = available;
  n_curr_readers = 0;
  is_deleted = true;
}

abbrev at : Pc Cv Point → ℕ → Thread Cv Point Held
at p r = record { pc = p; held = record { reads = r; writes = 0 } }

abbrev threads1 : ℕ → Thread Cv Point Held
threads1 = put (λ _. at idle 0) 0 (at (woken (asking reader)) 0)

abbrev threads2 : ℕ → Thread Cv Point Held
threads2 = put threads1 0 (at idle 1)

abbrev world1 : World Cv Point Monitor Held
world1 = record { state = new; threads = threads1 }

abbrev world2 : World Cv Point Monitor Held
world2 = record { state = reading; threads = threads2 }

abbrev world3 : World Cv Point Monitor Held
world3 = record { state = deleted; threads = put threads2 0 (at idle 0) }

reach2 : Reach (api lists) 3 (fresh 2 1) world2
unfolding init_monitor enter resume
reach2 =
    next {y = world1}
      (next here
        (passes 0 (request reader) (asking reader) (omega arith) refl refl refl (λ j. refl)))
      (resumes 0 (asking reader) quiet (omega arith) refl refl (silent refl (λ j. refl)))

last_release : Step (api lists) 3 world2 world3
unfolding enter
last_release =
    returns 0 (release reader) quiet (omega arith) refl refl refl (silent refl (λ j. refl))

limits_kept_example :
    (holds 3 (λ h. h.reads) world2 ≤ 2)
    × (holds 3 (λ h. h.writes) world2 ≤ 1)
    × ((holds 3 (λ h. h.reads) world2 ≡ 0) ⊎ (holds 3 (λ h. h.writes) world2 ≡ 0))
    × (1 ≡ holds 3 (λ h. h.reads) world2)
    × (0 ≡ holds 3 (λ h. h.writes) world2)
    × (monitor_sanity_check reading ≡ true)
limits_kept_example = limits_kept lists (omega arith) (omega arith) (omega arith) reach2

deleted_unused_example :
    (holds 3 (λ h. h.reads) world3 ≡ 0)
    × (holds 3 (λ h. h.writes) world3 ≡ 0)
    × (waits 3 is_reading world3 ≡ 0)
    × (waits 3 is_writing world3 ≡ 0)
deleted_unused_example =
    deleted_unused lists (omega arith) (omega arith) (omega arith) reach2 refl last_release refl

-- Before the monitor that is marked as deleted is freed, another thread asks for access and gets it.
deleted_granted :
    (m : Monitor) × (enter lists deleted 1 (request reader) ≡ unlocks (asking reader) deleted)
    × (resume lists deleted 1 (asking reader) ≡ leaves m quiet)
    × (m.is_deleted ≡ true)
    × (m.n_curr_readers ≡ 1)
unfolding enter resume
deleted_granted = (_, refl, refl, refl, refl)

released_early_example :
    (enter lists reading 0 (release reader) ≡ leaves (after_release lists reading 0 reader) quiet)
    × ((after_release lists reading 0 reader).is_deleted ≡ true)
    × ((after_release lists reading 0 reader).shutdown ≡ false)
unfolding enter
released_early_example = released_early lists reading 0 reader refl refl refl refl (λ e. cc) refl

-- Two writers wait for the reader.
abbrev contended : Monitor
contended = record reading { writer_thread_wait_q = queue 2 (2 ∷ 1 ∷ []) }

contended-release :
    ((contended.n_curr_readers ≡ 1)
      → (contended.reader_thread_wait_q.thread_wait_count ≡ 0)
      → 0 < contended.writer_thread_wait_q.thread_wait_count
      → enter lists contended 0 (release reader)
        ≡ leaves
            (after_release lists contended 0 reader)
            (each (map thread_cv contended.writer_thread_wait_q.priority_wait_queue)))
    × ((b : ℕ) (l : List ℕ)
        → 0 < contended.reader_thread_wait_q.thread_wait_count
        → contended.reader_thread_wait_q.priority_wait_queue ≡ b ∷ l
        → enter lists contended 0 (release reader)
          ≡ leaves (after_release lists contended 0 reader) (signal (thread_cv b)))
contended-release = reader_release_wakes lists contended 0 refl (omega arith) refl refl

-- One reader inside and one waiting, under strict alternation.
abbrev strict : Monitor
strict = record reading {
  n_readers_max_limit = 1;
  strict_alternation = true;
  reader_thread_wait_q = queue 1 (1 ∷ []);
}

strict-IsValid : IsValid 1 1 strict
strict-IsValid = omega arith

-- A writer that was last lets a reader in.
abbrev turn : Monitor
turn = record new {
  n_readers_max_limit = 1;
  strict_alternation = true;
  who_accessed_cs_last = writer;
}

turn-IsValid : IsValid 1 1 turn
turn-IsValid = omega arith

strict_alternates_test :
    (turn.who_accessed_cs_last ≢ reader) × (strict.who_accessed_cs_last ≡ reader)
unfolding resume
strict_alternates_test =
    strict_alternates lists turn 0 (asking reader) {e = quiet} turn-IsValid refl (λ e. cc) refl

strict_stalls_example :
    (enter lists strict 0 (release reader)
      ≡ leaves (after_release lists strict 0 reader) (signal (thread_cv 1)))
    × ((u : ℕ) → Blocks (resume lists (after_release lists strict 0 reader) u (waiting reader)))
    × (monitor_is_resource_available (after_release lists strict 0 reader) writer ≡ true)
strict_stalls_example =
    strict_stalls lists strict 0 1 [] strict-IsValid refl refl refl refl refl refl (omega arith)
