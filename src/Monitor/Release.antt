-- ===== src/Monitor/Release.antt =====
-- When the monitor is deleted, whom a release wakes, and strict alternation.
use mathlib.Core.List.{map}
use multithreading_bible.Common.{
  ℕ, ◌^◌, ◌<◌, ◌≡◌, ◌≢◌, refl, true, false, List, ◌∷◌, arith, sym, ap, ◌∙◌,
}
use multithreading_bible.Sync.{
  Wake, quiet, signal, each, Outcome, leaves, sleeps, unlocks, aborts, keeps_mutex, World, returns,
  blocks, resumes, reblocks, passes, spurious, Step, Reach,
}
use multithreading_bible.Sync.Change.{waits, holds}
use multithreading_bible.WaitQueue.{Glthread}
use multithreading_bible.Monitor.{
  ThreadOp, reader, writer, any, busy_by_reader, Monitor, Cv, thread_cv, Point, asking, waiting,
  accessors, after_release, monitor_is_resource_available, Call, request, release, shut_down, enter,
  resume, Held, api,
}
use multithreading_bible.Monitor.Sections.{IsValid, is_reading, is_writing}
use multithreading_bible.Monitor.Limits.{Reach-Inv, Step-Inv, fresh}

abbrev pub op_of : Point → ThreadOp
op_of (asking op) = op
op_of (waiting op) = op

-- The section ends in a wait.
abbrev pub Blocks : Outcome Cv Point Monitor → Type 0
Blocks (sleeps c k m) = Unit
Blocks (leaves m w) = ⊥
Blocks (unlocks k m) = ⊥
Blocks aborts = ⊥
Blocks (keeps_mutex m) = ⊥

-- Nobody is inside, and nobody waits.
abbrev Unused : Monitor → Type 0
Unused m =
    (m.n_curr_readers ≡ 0)
    × (m.n_curr_writers ≡ 0)
    × (m.reader_thread_wait_q.thread_wait_count ≡ 0)
    × (m.writer_thread_wait_q.thread_wait_count ≡ 0)

module _ (gl : Glthread) (t : ℕ) (m : Monitor) {m' : Monitor} (there : m.is_deleted ≡ false)
    (deleted : m'.is_deleted ≡ true) where
  enter_Unused :
      {r w : ℕ} {e : Wake Cv} (o : Call) → IsValid r w m → enter gl m t o ≡ leaves m' e → Unused m'
  unfolding enter
  enter_Unused (request op) v s = absurd (ground arith)
  enter_Unused (release reader) v s = ground arith
  enter_Unused (release writer) v s = ground arith
  enter_Unused (release any) v s = absurd (ground arith)
  enter_Unused shut_down v s = absurd (ground arith)

  enter_passes_deleted : {k : Point} (o : Call) → enter gl m t o ≡ unlocks k m' → ⊥
  unfolding enter
  enter_passes_deleted (request op) s = ground arith
  enter_passes_deleted (release op) s = ground arith
  enter_passes_deleted shut_down s = ground arith

  enter_blocks_deleted : {c : Cv} {k : Point} (o : Call) → enter gl m t o ≡ sleeps c k m' → ⊥
  unfolding enter
  enter_blocks_deleted (request op) s = ground arith
  enter_blocks_deleted (release op) s = ground arith
  enter_blocks_deleted shut_down s = ground arith

  resume_deleted : {e : Wake Cv} (k : Point) → resume gl m t k ≡ leaves m' e → ⊥
  unfolding resume
  resume_deleted (asking reader) s = ground arith
  resume_deleted (asking writer) s = ground arith
  resume_deleted (asking any) s = ground arith
  resume_deleted (waiting reader) s = ground arith
  resume_deleted (waiting writer) s = ground arith
  resume_deleted (waiting any) s = ground arith

  resume_blocks_deleted : {c : Cv} {k' : Point} (k : Point) → resume gl m t k ≡ sleeps c k' m' → ⊥
  unfolding resume
  resume_blocks_deleted (asking reader) s = ground arith
  resume_blocks_deleted (asking writer) s = ground arith
  resume_blocks_deleted (asking any) s = ground arith
  resume_blocks_deleted (waiting reader) s = ground arith
  resume_blocks_deleted (waiting writer) s = ground arith
  resume_blocks_deleted (waiting any) s = ground arith

Step-Unused :
    (gl : Glthread) {n r w : ℕ} {x y : World Cv Point Monitor Held}
    → IsValid r w x.state
    → x.state.is_deleted ≡ false
    → Step (api gl) n x y
    → y.state.is_deleted ≡ true
    → Unused y.state
Step-Unused gl v there (returns i o e lt q ok s wakes) d = enter_Unused gl i _ there d o v s
Step-Unused gl v there (blocks i o c k lt q ok s th) d =
    absurd (enter_blocks_deleted gl i _ there d o s)
Step-Unused gl v there (resumes i k e lt q s wakes) d = absurd (resume_deleted gl i _ there d k s)
Step-Unused gl v there (reblocks i k c k' lt q s th) d =
    absurd (resume_blocks_deleted gl i _ there d k s)
Step-Unused gl v there (passes i o k lt q ok s th) d =
    absurd (enter_passes_deleted gl i _ there d o s)
Step-Unused gl v there (spurious i c k lt q s th) d =
    absurd (cc (sym there ∙ ap (λ m. m.is_deleted) (sym s) ∙ d))

-- In every run, the section that marks a monitor as deleted leaves no thread with access to it and
-- none blocked in its wait queues. The monitor is freed after that section, and this does not say
-- that no thread comes in between.
pub deleted_unused :
    (gl : Glthread) {n r w : ℕ} {x y : World Cv Point Monitor Held}
    → n < 2 ^ 32
    → r < 2 ^ 16
    → w < 2 ^ 16
    → Reach (api gl) n (fresh r w) x
    → x.state.is_deleted ≡ false
    → Step (api gl) n x y
    → y.state.is_deleted ≡ true
    → (holds n (λ h. h.reads) y ≡ 0)
      × (holds n (λ h. h.writes) y ≡ 0)
      × (waits n is_reading y ≡ 0)
      × (waits n is_writing y ≡ 0)
deleted_unused gl few hr hw p there st d =
    let before = Reach-Inv gl few hr hw p in
    let inv = Step-Inv gl st before in
    let none_left = Step-Unused gl before.valid there st d in
    omega (arith, inv.readers, inv.writers, inv.reading, inv.writing, none_left)

-- The last reader or writer to leave, with nobody waiting, has the monitor deleted although nobody
-- has asked for a shutdown: `monitor_check_and_delete_monitor` does not look at `shutdown`.
pub released_early :
    (gl : Glthread) (m : Monitor) (t : ℕ) (op : ThreadOp)
    → m.is_deleted ≡ false
    → m.shutdown ≡ false
    → m.reader_thread_wait_q.thread_wait_count ≡ 0
    → m.writer_thread_wait_q.thread_wait_count ≡ 0
    → op ≢ any
    → accessors op m ≡ 1
    → (enter gl m t (release op) ≡ leaves (after_release gl m t op) quiet)
      × ((after_release gl m t op).is_deleted ≡ true)
      × ((after_release gl m t op).shutdown ≡ false)
unfolding enter
released_early gl m t reader there running nr nw ne last = ground arith
released_early gl m t writer there running nr nw ne last = ground arith
released_early gl m t any there running nr nw ne last = absurd (ne refl)

-- The last reader to leave, with no reader waiting, wakes every writer of the wait queue; with
-- readers waiting, any reader to leave wakes the first of them and nobody else.
pub reader_release_wakes :
    (gl : Glthread) (m : Monitor) (t : ℕ)
    → m.is_deleted ≡ false
    → 0 < m.n_curr_readers
    → m.writer_thread_wait_q.priority_flag ≡ true
    → m.reader_thread_wait_q.priority_flag ≡ true
    → (m.n_curr_readers ≡ 1
        → m.reader_thread_wait_q.thread_wait_count ≡ 0
        → 0 < m.writer_thread_wait_q.thread_wait_count
        → enter gl m t (release reader)
          ≡ leaves
              (after_release gl m t reader)
              (each (map thread_cv m.writer_thread_wait_q.priority_wait_queue)))
      × ((b : ℕ) (l : List ℕ)
          → 0 < m.reader_thread_wait_q.thread_wait_count
          → m.reader_thread_wait_q.priority_wait_queue ≡ b ∷ l
          → enter gl m t (release reader)
            ≡ leaves (after_release gl m t reader) (signal (thread_cv b)))
unfolding enter
reader_release_wakes gl m t there inside pw pr =
    (λ last nr nw. ground arith, λ b l nr e. ground arith)

-- Under strict alternation, with limits 1, a thread gets access only after one of the other kind, or
-- as the first, and is then the last to have had it.
pub strict_alternates :
    (gl : Glthread) (m : Monitor) (t : ℕ) (k : Point) {m' : Monitor} {e : Wake Cv}
    → IsValid 1 1 m
    → m.strict_alternation ≡ true
    → op_of k ≢ any
    → resume gl m t k ≡ leaves m' e
    → (m.who_accessed_cs_last ≢ op_of k) × (m'.who_accessed_cs_last ≡ op_of k)
unfolding resume
strict_alternates gl m t (asking reader) v strict ne s = ground arith
strict_alternates gl m t (asking writer) v strict ne s = ground arith
strict_alternates gl m t (asking any) v strict ne s = absurd (ne refl)
strict_alternates gl m t (waiting reader) v strict ne s = ground arith
strict_alternates gl m t (waiting writer) v strict ne s = ground arith
strict_alternates gl m t (waiting any) v strict ne s = absurd (ne refl)

-- Under strict alternation a reader that leaves while another reader waits wakes that reader alone,
-- and every reader that tests again then blocks again: the writers, who could go on, are not woken.
pub strict_stalls :
    (gl : Glthread) (m : Monitor) (t b : ℕ) (l : List ℕ)
    → IsValid 1 1 m
    → m.is_deleted ≡ false
    → m.strict_alternation ≡ true
    → m.resource_status ≡ busy_by_reader
    → m.who_accessed_cs_last ≡ reader
    → m.reader_thread_wait_q.priority_flag ≡ true
    → m.reader_thread_wait_q.priority_wait_queue ≡ b ∷ l
    → 0 < m.reader_thread_wait_q.thread_wait_count
    → let m' = after_release gl m t reader in
      (enter gl m t (release reader) ≡ leaves m' (signal (thread_cv b)))
      × ((u : ℕ) → Blocks (resume gl m' u (waiting reader)))
      × (monitor_is_resource_available m' writer ≡ true)
unfolding enter resume monitor_is_resource_available
strict_stalls gl m t b l v there strict busy who flag queue nr =
    (ground arith, λ u. ground arith, ground arith)
