-- ===== src/TurnLock/Alternation.antt =====
-- The turn of the lock: it goes to the kind that is let in.
use multithreading_bible.Common.{ℕ, ◌≡◌, ◌⊎◌, inl, true, false, arith, sym, subst}
use multithreading_bible.Sync.{Wake, leaves, sleeps, World, Step}
use multithreading_bible.Sync.Change.{
  Change, returned, blocked, resumed, reblocked, passed, roused, Step-Change,
}
use multithreading_bible.RwLock.{Point, reading, writing, Held, Call, rd_lock, wr_lock, unlock}
use multithreading_bible.TurnLock.{
  TurnLock, Cv, rw_lock_rd_lock, rw_lock_wr_lock, rw_lock_unlock, enter, resume, api,
}
use multithreading_bible.TurnLock.Sections.{enter_returns}

-- The lock is free, and it is the turn of the readers, or of the writers.
abbrev pub IsReadersTurn : TurnLock → Type 0
IsReadersTurn m = (m.n_locks ≡ 0) × (m.is_locked_by_writer ≡ false) × (m.dont_allow_writers ≡ true)

abbrev pub IsWritersTurn : TurnLock → Type 0
IsWritersTurn m = (m.n_locks ≡ 0) × (m.is_locked_by_reader ≡ false) × (m.dont_allow_readers ≡ true)

-- What a step makes of the lock in the readers' turn: the turn is kept, or a reader gets the lock.
abbrev pub AfterReadersTurn : TurnLock → Type 0
AfterReadersTurn m =
    IsReadersTurn m ⊎ (m.is_locked_by_reader ≡ true) × (m.is_locked_by_writer ≡ false)

abbrev pub AfterWritersTurn : TurnLock → Type 0
AfterWritersTurn m =
    IsWritersTurn m ⊎ (m.is_locked_by_writer ≡ true) × (m.is_locked_by_reader ≡ false)

module _ (m : TurnLock) {m' : TurnLock} (t : ℕ) where
  enter_turn :
      {v : Wake Cv} (c : Call)
      → enter m t c ≡ leaves m' v
      → (IsReadersTurn m → AfterReadersTurn m') × (IsWritersTurn m → AfterWritersTurn m')
  unfolding enter rw_lock_rd_lock rw_lock_wr_lock rw_lock_unlock
  enter_turn rd_lock e = (λ p. ground arith, λ p. ground arith)
  enter_turn wr_lock e = (λ p. ground arith, λ p. ground arith)
  enter_turn unlock e = (λ p. ground arith, λ p. ground arith)

  enter_blocks_turn :
      {c : Cv} {k : Point} (o : Call)
      → enter m t o ≡ sleeps c k m'
      → (IsReadersTurn m → AfterReadersTurn m') × (IsWritersTurn m → AfterWritersTurn m')
  unfolding enter rw_lock_rd_lock rw_lock_wr_lock rw_lock_unlock
  enter_blocks_turn rd_lock e = (λ p. ground arith, λ p. ground arith)
  enter_blocks_turn wr_lock e = (λ p. ground arith, λ p. ground arith)
  enter_blocks_turn unlock e = (λ p. ground arith, λ p. ground arith)

  resume_turn :
      {v : Wake Cv} (k : Point)
      → resume m t k ≡ leaves m' v
      → (IsReadersTurn m → AfterReadersTurn m') × (IsWritersTurn m → AfterWritersTurn m')
  unfolding resume
  resume_turn reading e = (λ p. ground arith, λ p. ground arith)
  resume_turn writing e = (λ p. ground arith, λ p. ground arith)

  resume_blocks_turn :
      {c : Cv} {k' : Point} (k : Point)
      → resume m t k ≡ sleeps c k' m'
      → (IsReadersTurn m → AfterReadersTurn m') × (IsWritersTurn m → AfterWritersTurn m')
  unfolding resume
  resume_blocks_turn reading e = (λ p. ground arith, λ p. ground arith)
  resume_blocks_turn writing e = (λ p. ground arith, λ p. ground arith)

turn_kept_either :
    {n : ℕ} (x y : World Cv Point TurnLock Held)
    → Change api n x y
    → (IsReadersTurn x.state → AfterReadersTurn y.state)
      × (IsWritersTurn x.state → AfterWritersTurn y.state)
turn_kept_either x y (returned i c _ ok e after) = enter_turn x.state i c e
turn_kept_either x y (blocked i c _ k ok e after) = enter_blocks_turn x.state i c e
turn_kept_either x y (resumed i k _ e after) = resume_turn x.state i k e
turn_kept_either x y (reblocked i k _ k' e after) = resume_blocks_turn x.state i k e
turn_kept_either x y (passed i c k ok e after) = absurd (enter_returns c i x.state e)
turn_kept_either x y (roused i k e after) =
    (λ p. inl (subst IsReadersTurn (sym e) p), λ p. inl (subst IsWritersTurn (sym e) p))

-- While the lock is free and writers are kept out, every step of any thread keeps it so, or gives
-- the lock to a reader: no writer overtakes the readers that wait.
pub readers_turn_kept :
    {n : ℕ} {x y : World Cv Point TurnLock Held}
    → Step api n x y
    → IsReadersTurn x.state
    → AfterReadersTurn y.state
readers_turn_kept {n} {x} {y} st p = (turn_kept_either x y (Step-Change api n st)).0 p

-- While the lock is free and readers are kept out, every step of any thread keeps it so, or gives
-- the lock to a writer: no reader overtakes the writers that wait.
pub writers_turn_kept :
    {n : ℕ} {x y : World Cv Point TurnLock Held}
    → Step api n x y
    → IsWritersTurn x.state
    → AfterWritersTurn y.state
writers_turn_kept {n} {x} {y} st p = (turn_kept_either x y (Step-Change api n st)).1 p
