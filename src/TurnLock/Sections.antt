-- ===== src/TurnLock/Sections.antt =====
-- What one section does to the read-write lock with turns and to what its caller holds.
use multithreading_bible.Common.{
  ℕ, ◌+◌, ◌-◌, ◌%◌, ◌^◌, ◌≤◌, ◌<◌, ◌≡◌, ◌⊎◌, true, false, not, ◌&&◌, ◌||◌, arith, ◌==◌,
  if◌then◌else◌, sym, subst,
}
use multithreading_bible.Sync.{Wake, leaves, sleeps, unlocks}
use multithreading_bible.RwLock.{
  Point, reading, writing, Held, Call, rd_lock, wr_lock, unlock, credit, granted,
}
use multithreading_bible.RwLock.Exclusion.Sections.{is_reading, is_writing}
use multithreading_bible.TurnLock.{
  TurnLock, Cv, rw_lock_rd_lock, rw_lock_wr_lock, rw_lock_unlock, enter, resume, may,
}

-- The locks taken, by the lock's own state.
abbrev pub readers_of : TurnLock → ℕ
readers_of m = if m.is_locked_by_reader then m.n_locks else 0

abbrev pub writers_of : TurnLock → ℕ
writers_of m = if m.is_locked_by_writer then m.n_locks else 0

pub record IsValid (r w : ℕ) (m : TurnLock) : Type 0 where
  pub max_readers : m.n_max_readers ≡ r
  pub max_writers : m.n_max_writers ≡ w
  pub exclusive : (m.is_locked_by_reader && m.is_locked_by_writer) ≡ false
  pub free : (m.n_locks == 0) ≡ not (m.is_locked_by_reader || m.is_locked_by_writer)
  pub limits : (readers_of m ≤ r) × (writers_of m ≤ w)
  -- Where a kind is kept out, no thread of it is inside, and one of the other kind is inside or
  -- waiting.
  pub readers_out :
      m.dont_allow_readers ≡ true
      → (m.is_locked_by_reader ≡ false)
        × ((m.is_locked_by_writer ≡ true) ⊎ (0 < m.n_writer_waiting))
  pub writers_out :
      m.dont_allow_writers ≡ true
      → (m.is_locked_by_writer ≡ false)
        × ((m.is_locked_by_reader ≡ true) ⊎ (0 < m.n_reader_waiting))
  pub one_turn : (m.dont_allow_readers && m.dont_allow_writers) ≡ false
  pub narrow : (m.n_reader_waiting < 2 ^ 16) × (m.n_writer_waiting < 2 ^ 16)

-- A section of a thread that held `h` and now holds `h'`, and counted among the waiting as `u`
-- before and as `v` after.
pub record Did (r w : ℕ) (h h' : Held) (u v : (Point → ℕ) → ℕ) (m m' : TurnLock) : Type 0 where
  pub valid : IsValid r w m'
  pub read : readers_of m' + h.reads ≡ readers_of m + h'.reads
  pub written : writers_of m' + h.writes ≡ writers_of m + h'.writes
  pub readers_wait :
      (m'.n_reader_waiting + u is_reading) % 2 ^ 16 ≡ (m.n_reader_waiting + v is_reading) % 2 ^ 16
  pub writers_wait :
      (m'.n_writer_waiting + u is_writing) % 2 ^ 16 ≡ (m.n_writer_waiting + v is_writing) % 2 ^ 16

-- Before a section of a thread that holds `h`.
pub record Pre (r w : ℕ) (h : Held) (m : TurnLock) : Type 0 where
  pub narrow_limits : (r < 2 ^ 16) × (w < 2 ^ 16)
  pub valid : IsValid r w m
  pub read : h.reads ≤ readers_of m
  pub written : h.writes ≤ writers_of m

-- The lock after `rw_lock_unlock`, whomever it wakes.
abbrev less : TurnLock → TurnLock
less m =
    if m.n_locks == 1
    then record m {
      n_locks = 0;
      is_locked_by_reader = false;
      is_locked_by_writer = false;
      dont_allow_readers =
          if m.is_locked_by_writer
          then false
          else if m.n_writer_waiting == 0
          then m.dont_allow_readers
          else true;
      dont_allow_writers =
          if not m.is_locked_by_writer
          then false
          else if m.n_reader_waiting == 0
          then m.dont_allow_writers
          else true;
    }
    else record m { n_locks = m.n_locks - 1 }

unlock_state :
    {r w : ℕ} {m m' : TurnLock} {v : Wake Cv}
    → IsValid r w m
    → rw_lock_unlock m ≡ leaves m' v
    → m' ≡ less m
unfolding rw_lock_unlock
unlock_state valid e = ground arith

module _ {r w : ℕ} (t : ℕ) {h : Held} {m m' : TurnLock} (pre : Pre r w h m) where
  pub enter-Did :
      {v : Wake Cv} (c : Call)
      → may c h ≡ true
      → enter m t c ≡ leaves m' v
      → Did r w h (credit c h) (λ _. 0) (λ _. 0) m m'
  unfolding enter rw_lock_rd_lock rw_lock_wr_lock rw_lock_unlock
  enter-Did rd_lock ok e = ground arith
  enter-Did wr_lock ok e = ground arith
  enter-Did unlock ok e =
      subst (Did r w h (credit unlock h) _ _ m) (sym (unlock_state pre.valid e)) (ground arith)

  pub enter_blocks-Did :
      {c : Cv} {k : Point} (o : Call)
      → m.n_reader_waiting + is_reading k < 2 ^ 16
      → m.n_writer_waiting + is_writing k < 2 ^ 16
      → enter m t o ≡ sleeps c k m'
      → Did r w h h (λ _. 0) (λ v. v k) m m'
  unfolding enter rw_lock_rd_lock rw_lock_wr_lock rw_lock_unlock
  enter_blocks-Did rd_lock a b e = ground arith
  enter_blocks-Did wr_lock a b e = ground arith
  enter_blocks-Did unlock a b e = ground arith

  pub resume-Did :
      {w' : Wake Cv} (k : Point)
      → is_reading k ≤ m.n_reader_waiting
      → is_writing k ≤ m.n_writer_waiting
      → resume m t k ≡ leaves m' w'
      → Did r w h (granted k h) (λ v. v k) (λ _. 0) m m'
  unfolding resume rw_lock_rd_lock rw_lock_wr_lock
  resume-Did reading a b e = ground arith
  resume-Did writing a b e = ground arith

  pub resume_blocks-Did :
      {c : Cv} {k' : Point} (k : Point)
      → is_reading k ≤ m.n_reader_waiting
      → is_writing k ≤ m.n_writer_waiting
      → resume m t k ≡ sleeps c k' m'
      → Did r w h h (λ v. v k) (λ v. v k') m m'
  unfolding resume rw_lock_rd_lock rw_lock_wr_lock
  resume_blocks-Did reading a b e = ground arith
  resume_blocks-Did writing a b e = ground arith

pub enter_returns :
    (c : Call) (t : ℕ) (m : TurnLock) {m' : TurnLock} {k : Point} → enter m t c ≡ unlocks k m' → ⊥
unfolding enter rw_lock_rd_lock rw_lock_wr_lock rw_lock_unlock
enter_returns rd_lock t m e = ground arith
enter_returns wr_lock t m e = ground arith
enter_returns unlock t m e = ground arith
