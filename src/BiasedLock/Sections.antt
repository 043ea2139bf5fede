-- ===== src/BiasedLock/Sections.antt =====
-- What one section does to the biased read-write lock and to what its caller holds.
use multithreading_bible.Common.{
  ℕ, ◌+◌, ◌-◌, ◌%◌, ◌^◌, ◌≤◌, ◌<◌, ◌≡◌, true, false, not, ◌&&◌, ◌||◌, arith, ◌==◌, if◌then◌else◌,
  sym, subst,
}
use multithreading_bible.Sync.{Wake, leaves, sleeps, unlocks}
use multithreading_bible.RwLock.{Held, Call, rd_lock, wr_lock, unlock, credit}
use multithreading_bible.BiasedLock.{
  BiasedLock, Cv, Point, reading, writing, writing_biased, rw_lock_rd_lock, rw_lock_wr_lock,
  rw_lock_unlock, enter, resume, may, granted, signal_all,
}

abbrev pub is_reading : Point → ℕ
is_reading reading = 1
is_reading writing = 0
is_reading writing_biased = 0

abbrev pub is_writing : Point → ℕ
is_writing reading = 0
is_writing writing = 1
is_writing writing_biased = 1

pub is_reading-le : (k : Point) → is_reading k ≤ 1
is_reading-le reading = omega arith
is_reading-le writing = omega arith
is_reading-le writing_biased = omega arith

pub is_writing-le : (k : Point) → is_writing k ≤ 1
is_writing-le reading = omega arith
is_writing-le writing = omega arith
is_writing-le writing_biased = omega arith

-- The locks taken, by the lock's own state.
abbrev pub readers_of : BiasedLock → ℕ
readers_of m = if m.is_locked_by_reader then m.n_locks else 0

abbrev pub writers_of : BiasedLock → ℕ
writers_of m = if m.is_locked_by_writer then m.n_locks else 0

pub record IsValid (r w b : ℕ) (m : BiasedLock) : Type 0 where
  pub max_readers : m.n_max_readers ≡ r
  pub max_writers : m.n_max_writers ≡ w
  pub bias : m.biasedness ≡ b
  pub exclusive : (m.is_locked_by_reader && m.is_locked_by_writer) ≡ false
  pub free : (m.n_locks == 0) ≡ not (m.is_locked_by_reader || m.is_locked_by_writer)
  pub limits : (readers_of m ≤ r) × (writers_of m ≤ w)
  pub narrow : (m.n_reader_waiting < 2 ^ 16) × (m.n_writer_waiting < 2 ^ 16)

-- A section of a thread that held `h` and now holds `h'`, and counted among the waiting as `u`
-- before and as `v` after.
pub record Did (r w b : ℕ) (h h' : Held) (u v : (Point → ℕ) → ℕ) (m m' : BiasedLock) : Type 0 where
  pub valid : IsValid r w b m'
  pub read : readers_of m' + h.reads ≡ readers_of m + h'.reads
  pub written : writers_of m' + h.writes ≡ writers_of m + h'.writes
  pub readers_wait :
      (m'.n_reader_waiting + u is_reading) % 2 ^ 16 ≡ (m.n_reader_waiting + v is_reading) % 2 ^ 16
  pub writers_wait :
      (m'.n_writer_waiting + u is_writing) % 2 ^ 16 ≡ (m.n_writer_waiting + v is_writing) % 2 ^ 16

-- Before a section of a thread that holds `h`.
pub record Pre (r w b : ℕ) (h : Held) (m : BiasedLock) : Type 0 where
  pub narrow_limits : (r < 2 ^ 16) × (w < 2 ^ 16)
  pub valid : IsValid r w b m
  pub read : h.reads ≤ readers_of m
  pub written : h.writes ≤ writers_of m

-- The lock after `rw_lock_unlock`, whomever it wakes.
abbrev less : BiasedLock → BiasedLock
less m =
    if m.n_locks == 1
    then record m {
      n_locks = 0;
      is_locked_by_reader = false;
      is_locked_by_writer = false;
      who_used_cs = if m.is_locked_by_writer then false else true;
    }
    else record m { n_locks = m.n_locks - 1 }

unlock_state :
    {r w b : ℕ} {m m' : BiasedLock} {v : Wake Cv}
    → IsValid r w b m
    → rw_lock_unlock m ≡ leaves m' v
    → m' ≡ less m
unfolding rw_lock_unlock signal_all
unlock_state valid e = ground arith

module _ {r w b : ℕ} (t : ℕ) {h : Held} {m m' : BiasedLock} (pre : Pre r w b h m) where
  pub enter-Did :
      {v : Wake Cv} (c : Call)
      → may c h ≡ true
      → enter m t c ≡ leaves m' v
      → Did r w b h (credit c h) (λ _. 0) (λ _. 0) m m'
  unfolding enter rw_lock_rd_lock rw_lock_wr_lock rw_lock_unlock signal_all
  enter-Did rd_lock ok e = ground arith
  enter-Did wr_lock ok e = ground arith
  enter-Did unlock ok e =
      subst (Did r w b h (credit unlock h) _ _ m) (sym (unlock_state pre.valid e)) (ground arith)

  pub enter_blocks-Did :
      {c : Cv} {k : Point} (o : Call)
      → enter m t o ≡ sleeps c k m'
      → Did r w b h h (λ _. 0) (λ v. v k) m m'
  unfolding enter rw_lock_rd_lock rw_lock_wr_lock rw_lock_unlock signal_all
  enter_blocks-Did rd_lock e = ground arith
  enter_blocks-Did wr_lock e = ground arith
  enter_blocks-Did unlock e = ground arith

  pub resume-Did :
      {w' : Wake Cv} (k : Point)
      → resume m t k ≡ leaves m' w'
      → Did r w b h (granted k h) (λ v. v k) (λ _. 0) m m'
  unfolding resume rw_lock_rd_lock rw_lock_wr_lock
  resume-Did reading e = ground arith
  resume-Did writing e = ground arith
  resume-Did writing_biased e = absurd (cc)

  pub resume_blocks-Did :
      {c : Cv} {k' : Point} (k : Point)
      → resume m t k ≡ sleeps c k' m'
      → Did r w b h h (λ v. v k) (λ v. v k') m m'
  unfolding resume rw_lock_rd_lock rw_lock_wr_lock
  resume_blocks-Did reading e = ground arith
  resume_blocks-Did writing e = ground arith
  resume_blocks-Did writing_biased e = absurd (cc)

pub enter_returns :
    (c : Call) (t : ℕ) (m : BiasedLock) {m' : BiasedLock} {k : Point}
    → enter m t c ≡ unlocks k m'
    → ⊥
unfolding enter rw_lock_rd_lock rw_lock_wr_lock rw_lock_unlock signal_all
enter_returns rd_lock t m e = ground arith
enter_returns wr_lock t m e = ground arith
enter_returns unlock t m e = ground arith
