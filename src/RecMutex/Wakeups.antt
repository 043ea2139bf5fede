-- ===== src/RecMutex/Wakeups.antt =====
-- No wakeup of the recursive mutex is lost.
use multithreading_bible.Common.{ℕ, ◌^◌, ◌<◌, ◌≡◌, ◌⊎◌, inl, inr, refl, arith}
use multithreading_bible.Sync.{
  Wake, signal, leaves, sleeps, asleep, World, Step, returns, blocks, resumes, reblocks, passes,
  spurious, Reach, here, next, start,
}
use multithreading_bible.Sync.Change.{waits_pos}
use multithreading_bible.Sync.Wakeups.{Awake, Awake-put, signal-Wakes}
use multithreading_bible.RecMutex.{
  RecMutex, Cv, cv, Point, relock, rec_mutex_init, rec_mutex_lock, rec_mutex_relock,
  rec_mutex_unlock, lock, unlock, enter, resume, api,
}
use multithreading_bible.RecMutex.Exclusion.{
  IsValid, depth_of, unlock_returns, enter_returns, Inv, Step-Inv, Reach-Inv,
}

module _ {depth : ℕ} {m m' : RecMutex} (t : ℕ) (shallow : depth < 2 ^ 16) (v : IsValid depth m)
    (free : m'.n ≡ 0) where
  lock_busy :
      {w : Wake Cv} (h : ℕ) → h ≡ depth_of m t → h < depth → rec_mutex_lock m t ≡ leaves m' w → ⊥
  unfolding rec_mutex_lock
  lock_busy h own lt e = ground arith

  lock_blocks_busy : {c : Cv} {k : Point} → rec_mutex_lock m t ≡ sleeps c k m' → ⊥
  unfolding rec_mutex_lock
  lock_blocks_busy e = ground arith

  unlock_signals :
      {w : Wake Cv} → rec_mutex_unlock m t ≡ leaves m' w → (w ≡ signal cv) ⊎ (m'.n_waited ≡ 0)
  unfolding rec_mutex_unlock
  unlock_signals e = ground arith

  relock_busy : {w : Wake Cv} → rec_mutex_relock m t ≡ leaves m' w → ⊥
  unfolding rec_mutex_relock
  relock_busy e = ground arith

  relock_blocks_busy : {c : Cv} {k : Point} → rec_mutex_relock m t ≡ sleeps c k m' → ⊥
  unfolding rec_mutex_relock
  relock_blocks_busy e = ground arith

Step-Awake :
    {n depth : ℕ} {x y : World Cv Point RecMutex ℕ}
    → Inv n depth x
    → Inv n depth y
    → Step (api depth) n x y
    → y.state.n ≡ 0
    → (j : ℕ) (k : Point) → j < n
    → (y.threads j).pc ≡ asleep cv k
    → Awake n y.threads
unfolding enter resume
Step-Awake a b (returns i lock w lt p may e wakes) free j k below q =
    absurd (lock_busy i a.shallow a.valid free _ (a.owned i) (ground arith) e)
Step-Awake {n} {y = y} a b (returns i unlock w lt p may e wakes) free j k below q =
    elim (unlock_signals i a.shallow a.valid free e) [
      | inl s ↦ signal-Wakes cv j k below wakes s q
      | inr z ↦ absurd (omega (arith, b.counted, waits_pos n (λ _. 1) y j cv k below q))
    ]
Step-Awake a b (blocks i lock c k' lt p may e th) free j k below q =
    absurd (lock_blocks_busy i a.shallow a.valid free e)
Step-Awake {depth = depth} a b (blocks i unlock c k' lt p may e th) free j k below q =
    absurd (unlock_returns depth i _ a.shallow a.valid (a.owned i) e)
Step-Awake a b (resumes i relock w lt p e wakes) free j k below q =
    absurd (relock_busy i a.shallow a.valid free e)
Step-Awake a b (reblocks i relock c k' lt p e th) free j k below q =
    absurd (relock_blocks_busy i a.shallow a.valid free e)
Step-Awake {x = x} a b (passes i c k' lt p may e th) free j k below q =
    absurd (enter_returns c i x.state e)
Step-Awake {x = x} a b (spurious i c k' lt p e th) free j k below q =
    Awake-put x.threads _ i k' lt refl th

-- Whenever the mutex is free and a thread waits for it, some thread has been woken and is about to
-- take it: no wakeup is lost.
pub no_lost_wakeup :
    {n depth : ℕ} {x : World Cv Point RecMutex ℕ}
    → n < 2 ^ 16
    → 0 < depth
    → depth < 2 ^ 16
    → Reach (api depth) n (start rec_mutex_init 0) x
    → x.state.n ≡ 0
    → (j : ℕ) (k : Point) → j < n
    → (x.threads j).pc ≡ asleep cv k
    → Awake n x.threads
no_lost_wakeup few nested shallow here free j k below q = cc
no_lost_wakeup few nested shallow (next r st) free j k below q =
    let inv = Reach-Inv few nested shallow r in Step-Awake inv (Step-Inv st inv) st free j k below q
