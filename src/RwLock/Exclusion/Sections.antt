-- ===== src/RwLock/Exclusion/Sections.antt =====
-- What one section does to the read-write lock and to what its caller holds.
use multithreading_bible.Common.{
  ℕ, ◌+◌, ◌%◌, ◌^◌, ◌≤◌, ◌<◌, ◌≡◌, ◌≢◌, refl, true, false, not, ◌&&◌, ◌||◌, arith, ◌==◌,
  if◌then◌else◌, is_self, is_set,
}
use multithreading_bible.Sync.{Wake, unlocks, leaves, sleeps, Proceeds}
use multithreading_bible.RwLock.{
  RwLock, Cv, Point, reading, writing, rw_lock_rd_lock, rw_lock_wr_lock, rw_lock_unlock, Call,
  rd_lock, wr_lock, unlock, enter, resume, Held, may, credit, granted,
}

pub record IsValid (m : RwLock) : Type 0 where
  pub exclusive : (m.is_locked_by_reader && m.is_locked_by_writer) ≡ false
  pub free : (m.n_locks == 0) ≡ not (m.is_locked_by_reader || m.is_locked_by_writer)
  pub owner : is_set m.writer_thread ≡ m.is_locked_by_writer
  pub narrow : (m.n_reader_waiting < 2 ^ 16) × (m.n_writer_waiting < 2 ^ 16)

-- The read locks taken, and the write locks of thread `t`, by the lock's own state.
abbrev pub readers_of : RwLock → ℕ
readers_of m = if m.is_locked_by_reader then m.n_locks else 0

abbrev pub writes_of : RwLock → ℕ → ℕ
writes_of m t = if is_self m.writer_thread t then m.n_locks else 0

abbrev pub is_reading : Point → ℕ
is_reading reading = 1
is_reading writing = 0

abbrev pub is_writing : Point → ℕ
is_writing reading = 0
is_writing writing = 1

abbrev pub IsSmall : ℕ → Held → Type 0
IsSmall depth h = (h.reads ≤ depth) × (h.writes ≤ depth)

-- A section of thread `t`, which held `h` and now holds `h'`, and counted among the waiting as `u`
-- before and as `v` after.
pub is_reading-le : (k : Point) → is_reading k ≤ 1
is_reading-le reading = omega arith
is_reading-le writing = omega arith

pub is_writing-le : (k : Point) → is_writing k ≤ 1
is_writing-le reading = omega arith
is_writing-le writing = omega arith

pub record Did (depth t : ℕ) (h h' : Held) (u v : (Point → ℕ) → ℕ) (m m' : RwLock) : Type 0 where
  pub valid : IsValid m'
  pub small : IsSmall depth h'
  pub written : h'.writes ≡ writes_of m' t
  pub others : (j : ℕ) → j ≢ t → writes_of m' j ≡ writes_of m j
  pub read : readers_of m' + h.reads ≡ readers_of m + h'.reads
  pub no_reads : v is_reading ≡ 1 → h'.reads ≡ 0
  pub no_writes : v is_writing ≡ 1 → h'.writes ≡ 0
  pub readers_wait :
      (m'.n_reader_waiting + u is_reading) % 2 ^ 16 ≡ (m.n_reader_waiting + v is_reading) % 2 ^ 16
  pub writers_wait :
      (m'.n_writer_waiting + u is_writing) % 2 ^ 16 ≡ (m.n_writer_waiting + v is_writing) % 2 ^ 16

-- Before a section of thread `t`, which holds `h`.
pub record Pre (depth t : ℕ) (h : Held) (m : RwLock) : Type 0 where
  pub valid : IsValid m
  pub small : IsSmall depth h
  pub room : readers_of m < 2 ^ 16
  pub room1 : h.reads < depth → readers_of m + 1 < 2 ^ 16
  pub shallow : depth < 2 ^ 16
  pub written : h.writes ≡ writes_of m t
  pub read : h.reads ≤ readers_of m

module _ {depth t : ℕ} {h : Held} {m m' : RwLock} (pre : Pre depth t h m) where
  pub rd_lock-Did :
      {w : Wake Cv}
      → may depth rd_lock h ≡ true
      → rw_lock_rd_lock m ≡ leaves m' w
      → Did depth t h (credit rd_lock h) (λ _. 0) (λ _. 0) m m'
  unfolding rw_lock_rd_lock
  rd_lock-Did ok e = ground arith

  pub rd_lock_blocks :
      {c : Cv} (k : Point)
      → rw_lock_rd_lock m ≡ sleeps c k m'
      → Did depth t h h (λ _. 0) (λ v. v k) m m'
  unfolding rw_lock_rd_lock
  rd_lock_blocks k e = ground arith

  pub wr_lock-Did :
      {w : Wake Cv}
      → may depth wr_lock h ≡ true
      → rw_lock_wr_lock m t ≡ leaves m' w
      → Did depth t h (credit wr_lock h) (λ _. 0) (λ _. 0) m m'
  unfolding rw_lock_wr_lock
  wr_lock-Did ok e = ground arith

  pub wr_lock_blocks :
      {c : Cv} (k : Point)
      → rw_lock_wr_lock m t ≡ sleeps c k m'
      → Did depth t h h (λ _. 0) (λ v. v k) m m'
  unfolding rw_lock_wr_lock
  wr_lock_blocks k e = ground arith

  pub unlock-Did :
      {w : Wake Cv}
      → may depth unlock h ≡ true
      → rw_lock_unlock m t ≡ leaves m' w
      → Did depth t h (credit unlock h) (λ _. 0) (λ _. 0) m m'
  unfolding rw_lock_unlock
  unlock-Did ok e = ground arith

  pub relock_reading :
      {w : Wake Cv}
      → 0 < depth
      → h.reads ≡ 0
      → resume m t reading ≡ leaves m' w
      → Did depth t h (granted reading h) (λ v. v reading) (λ _. 0) m m'
  unfolding resume
  relock_reading pos z e = ground arith

  pub relock_writing :
      {w : Wake Cv}
      → 0 < depth
      → h.writes ≡ 0
      → resume m t writing ≡ leaves m' w
      → Did depth t h (granted writing h) (λ v. v writing) (λ _. 0) m m'
  unfolding resume
  relock_writing pos z e = ground arith

  pub reblock_reading :
      {c : Cv} (k : Point)
      → h.reads ≡ 0
      → resume m t reading ≡ sleeps c k m'
      → Did depth t h h (λ v. v reading) (λ v. v k) m m'
  unfolding resume
  reblock_reading k z e = ground arith

  pub reblock_writing :
      {c : Cv} (k : Point)
      → h.writes ≡ 0
      → resume m t writing ≡ sleeps c k m'
      → Did depth t h h (λ v. v writing) (λ v. v k) m m'
  unfolding resume
  reblock_writing k z e = ground arith

pub no_section :
    {depth t : ℕ} {h : Held} {m : RwLock} (k : Point)
    → Pre depth t h m
    → (is_reading k ≡ 1 → h.reads ≡ 0)
    → (is_writing k ≡ 1 → h.writes ≡ 0)
    → Did depth t h h (λ v. v k) (λ v. v k) m m
no_section k pre nr nw = record {
  valid = pre.valid;
  small = pre.small;
  written = pre.written;
  others = λ j ne. refl;
  read = refl;
  no_reads = nr;
  no_writes = nw;
  readers_wait = refl;
  writers_wait = refl;
}

pub enter-Proceeds :
    {depth t : ℕ} {h : Held} {m : RwLock} (c : Call)
    → Pre depth t h m
    → may depth c h ≡ true
    → Proceeds (enter m t c)
unfolding enter rw_lock_rd_lock rw_lock_wr_lock rw_lock_unlock
enter-Proceeds rd_lock pre ok = ground arith
enter-Proceeds wr_lock pre ok = ground arith
enter-Proceeds unlock pre ok = ground arith

pub resume-Proceeds :
    {depth t : ℕ} {h : Held} {m : RwLock} (k : Point) → Pre depth t h m → Proceeds (resume m t k)
unfolding resume
resume-Proceeds reading pre = ground arith
resume-Proceeds writing pre = ground arith

pub unlock_returns :
    (m : RwLock) {m' : RwLock} {c : Cv} {k : Point} (t : ℕ) → rw_lock_unlock m t ≡ sleeps c k m' → ⊥
unfolding rw_lock_unlock
unlock_returns m t e = ground arith

-- No section unlocks the mutex to go on.
pub enter_returns :
    (c : Call) (t : ℕ) (m : RwLock) {m' : RwLock} {k : Point} → enter m t c ≡ unlocks k m' → ⊥
unfolding enter rw_lock_rd_lock rw_lock_wr_lock rw_lock_unlock
enter_returns rd_lock t m e = ground arith
enter_returns wr_lock t m e = ground arith
enter_returns unlock t m e = ground arith
