-- ===== src/RecMutex/Overflow.antt =====
-- The `uint16_t` depth of the recursive mutex is not guarded.
use multithreading_bible.Common.{ℕ, ◌^◌, ◌≡◌, ◌-◌, some, arith}
use multithreading_bible.Sync.{quiet, leaves, aborts}
use multithreading_bible.RecMutex.{RecMutex, rec_mutex_lock, rec_mutex_unlock}

-- The 65536th nested lock by the owner wraps the depth to 0 while the owner stays recorded; from
-- there every call of `rec_mutex_lock` and of `rec_mutex_unlock`, by any thread, fails an `assert`.
pub lock_overflow :
    (m : RecMutex) (t : ℕ)
    → m.n ≡ 2 ^ 16 - 1
    → m.locking_thread ≡ some t
    → let m' = record m { n = 0 } in
      (rec_mutex_lock m t ≡ leaves m' quiet)
      × ((u : ℕ) → (rec_mutex_lock m' u ≡ aborts) × (rec_mutex_unlock m' u ≡ aborts))
unfolding rec_mutex_lock rec_mutex_unlock
lock_overflow m t full own = (ground arith, λ u. (ground arith, ground arith))
