-- ===== src/RecMutex/Exclusion.antt =====
-- Mutual exclusion of the recursive mutex, under every interleaving and spurious wakeups.
use multithreading_bible.Common.{
  ℕ, ◌+◌, ◌-◌, ◌%◌, ◌^◌, ◌≤◌, ◌<◌, ◌≡◌, ◌≢◌, ◌∙◌, refl, true, not, arith, ◌==◌, if◌then◌else◌,
  is_self, is_set, ℕ_discrete, sym, subst,
}
use multithreading_bible.Sync.{
  Wake, unlocks, leaves, sleeps, World, Step, Reach, here, next, start, Proceeds,
}
use multithreading_bible.Sync.Change.{
  Change, returned, blocked, resumed, reblocked, passed, roused, After, waits, waits-le,
  waits-start, weight, Step-Change,
}
use multithreading_bible.RecMutex.{
  RecMutex, Cv, Point, relock, rec_mutex_init, rec_mutex_lock, rec_mutex_relock, rec_mutex_unlock,
  Call, lock, unlock, enter, resume, may, api,
}

pub record IsValid (depth : ℕ) (m : RecMutex) : Type 0 where
  pub paired : is_set m.locking_thread ≡ not (m.n == 0)
  pub deep : m.n ≤ depth
  pub narrow : m.n_waited < 2 ^ 16

-- How many locks thread `t` has, by the mutex.
abbrev pub depth_of : RecMutex → ℕ → ℕ
depth_of m t = if is_self m.locking_thread t then m.n else 0

-- The mutex counts the locks of its owner and the threads that wait.
pub record Inv (n depth : ℕ) (x : World Cv Point RecMutex ℕ) : Type 0 where
  pub few : n < 2 ^ 16
  pub shallow : depth < 2 ^ 16
  pub nested : 0 < depth
  pub valid : IsValid depth x.state
  pub owned : (j : ℕ) → (x.threads j).held ≡ depth_of x.state j
  pub empty_handed : (j : ℕ) → weight (λ _. 1) (x.threads j).pc ≡ 1 → (x.threads j).held ≡ 0
  pub counted : x.state.n_waited ≡ waits n (λ _. 1) x

-- What a section did to the mutex, called by `t`, which held `h` before and holds `h'` after; `t`
-- counted `u` among the waiting before, and `v` after.
record Did (depth t h' u v : ℕ) (m m' : RecMutex) : Type 0 where
  valid : IsValid depth m'
  owner : h' ≡ depth_of m' t
  others : (j : ℕ) → j ≢ t → depth_of m' j ≡ depth_of m j
  empty : v ≡ 1 → h' ≡ 0
  waited : (m'.n_waited + u) % 2 ^ 16 ≡ (m.n_waited + v) % 2 ^ 16

module _ (depth t h : ℕ) {m m' : RecMutex} (shallow : depth < 2 ^ 16) (v : IsValid depth m)
    (own : h ≡ depth_of m t) where
  lock-Did :
      {w : Wake Cv} → h < depth → rec_mutex_lock m t ≡ leaves m' w → Did depth t (h + 1) 0 0 m m'
  unfolding rec_mutex_lock
  lock-Did lt e = ground arith

  lock_blocks :
      {c : Cv} {k : Point} → h < depth → rec_mutex_lock m t ≡ sleeps c k m' → Did depth t h 0 1 m m'
  unfolding rec_mutex_lock
  lock_blocks lt e = ground arith

  unlock-Did :
      {w : Wake Cv} → 0 < h → rec_mutex_unlock m t ≡ leaves m' w → Did depth t (h - 1) 0 0 m m'
  unfolding rec_mutex_unlock
  unlock-Did lt e = ground arith

  pub unlock_returns : {c : Cv} {k : Point} → rec_mutex_unlock m t ≡ sleeps c k m' → ⊥
  unfolding rec_mutex_unlock
  unlock_returns e = ground arith

  relock-Did :
      {w : Wake Cv} → 0 < depth → rec_mutex_relock m t ≡ leaves m' w → Did depth t (h + 1) 1 0 m m'
  unfolding rec_mutex_relock
  relock-Did lt e = ground arith

  relock_blocks :
      {c : Cv} {k : Point} → rec_mutex_relock m t ≡ sleeps c k m' → Did depth t h 1 1 m m'
  unfolding rec_mutex_relock
  relock_blocks e = ground arith

-- No section unlocks the mutex to go on.
pub enter_returns :
    (c : Call) (t : ℕ) (m : RecMutex) {m' : RecMutex} {k : Point} → enter m t c ≡ unlocks k m' → ⊥
unfolding enter rec_mutex_lock rec_mutex_unlock
enter_returns lock t m e = ground arith
enter_returns unlock t m e = ground arith

no_section :
    (depth t h : ℕ) {m : RecMutex}
    → IsValid depth m
    → h ≡ depth_of m t
    → h ≡ 0
    → Did depth t h 1 1 m m
no_section depth t h v own e = record {
  valid = v;
  owner = own;
  others = λ j ne. refl;
  empty = λ q. e;
  waited = refl;
}

module _ {n depth : ℕ} {x y : World Cv Point RecMutex ℕ} (inv : Inv n depth x) where
  -- A section with its effect on the threads keeps the invariant.
  Did-Inv :
      {i h : ℕ} {u v : (Point → ℕ) → ℕ}
      → u (λ _. 1) ≤ 1
      → Did depth i h (u (λ _. 1)) (v (λ _. 1)) x.state y.state
      → After n x y i h u v
      → Inv n depth y
  Did-Inv {i} small did after = record {
    few = inv.few;
    shallow = inv.shallow;
    nested = inv.nested;
    valid = did.valid;
    owned = λ j. elim (ℕ_discrete j i) [
      | yes e ↦ rw e (after.held_self ∙ did.owner)
      | no ne ↦ after.held_ne j ne ∙ inv.owned j ∙ sym (did.others j ne)
    ];
    empty_handed = λ j. elim (ℕ_discrete j i) [
      | yes e ↦ rw e (λ w. after.held_self ∙ did.empty (sym (after.weight_self (λ _. 1)) ∙ w))
      | no ne ↦
          λ w. after.held_ne j ne ∙ inv.empty_handed j (sym (after.weight_ne (λ _. 1) j ne) ∙ w)
    ];
    counted = omega (
      arith,
      inv.counted,
      after.waits_change (λ _. 1),
      waits-le n (λ _. 1) y (λ _. omega arith),
      waits-le n (λ _. 1) x (λ _. omega arith),
      did.waited,
      did.valid.narrow,
    );
  }

  Change-Inv : Change (api depth) n x y → Inv n depth y
  unfolding enter resume
  Change-Inv (returned i lock w may e after) =
      Did-Inv (omega arith)
        (lock-Did depth i _ inv.shallow inv.valid (inv.owned i) (ground arith) e) after
  Change-Inv (returned i unlock w may e after) =
      Did-Inv (omega arith)
        (unlock-Did depth i _ inv.shallow inv.valid (inv.owned i) (ground arith) e) after
  Change-Inv (blocked i lock c relock may e after) =
      Did-Inv (omega arith)
        (lock_blocks depth i _ inv.shallow inv.valid (inv.owned i) (ground arith) e) after
  Change-Inv (blocked i unlock c relock may e after) =
      absurd (unlock_returns depth i _ inv.shallow inv.valid (inv.owned i) e)
  Change-Inv (resumed i relock w e after) =
      Did-Inv (omega arith) (relock-Did depth i _ inv.shallow inv.valid (inv.owned i) inv.nested e)
        after
  Change-Inv (reblocked i relock c relock e after) =
      Did-Inv (omega arith) (relock_blocks depth i _ inv.shallow inv.valid (inv.owned i) e) after
  Change-Inv (passed i c k may e after) = absurd (enter_returns c i x.state e)
  Change-Inv (roused i relock e after) =
      Did-Inv (omega arith)
        (subst (Did depth i _ 1 1 x.state) (sym e) (
          no_section depth i _ inv.valid (inv.owned i)
            (inv.empty_handed i (after.weight_before (λ _. 1)))))
        after

-- Every step of up to 65535 threads that nest their locks at most `depth` deep, spurious wakeups
-- among them, keeps the invariant.
pub Step-Inv :
    {n depth : ℕ} {x y : World Cv Point RecMutex ℕ}
    → Step (api depth) n x y
    → Inv n depth x
    → Inv n depth y
Step-Inv {n} {depth} st inv = Change-Inv inv (Step-Change (api depth) n st)

init-Inv :
    (n depth : ℕ) → n < 2 ^ 16 → 0 < depth → depth < 2 ^ 16 → Inv n depth (start rec_mutex_init 0)
unfolding rec_mutex_init
init-Inv n depth few nested shallow = record {
  few = few;
  shallow = shallow;
  nested = nested;
  valid = record { paired = refl; deep = omega arith; narrow = omega arith };
  owned = λ j. refl;
  empty_handed = λ j e. refl;
  counted = sym (waits-start _ n (λ _. 1) _ _);
}

pub Reach-Inv :
    {n depth : ℕ} {x : World Cv Point RecMutex ℕ}
    → n < 2 ^ 16
    → 0 < depth
    → depth < 2 ^ 16
    → Reach (api depth) n (start rec_mutex_init 0) x
    → Inv n depth x
Reach-Inv {n} {depth} few nested shallow here = init-Inv n depth few nested shallow
Reach-Inv few nested shallow (next r st) = Step-Inv st (Reach-Inv few nested shallow r)

-- At most one thread has the mutex: of two threads one holds no lock, however the calls of
-- `rec_mutex_lock` and `rec_mutex_unlock` of up to 65535 threads interleave.
pub mutual_exclusion :
    {n depth : ℕ} {x : World Cv Point RecMutex ℕ} (i j : ℕ)
    → n < 2 ^ 16
    → 0 < depth
    → depth < 2 ^ 16
    → Reach (api depth) n (start rec_mutex_init 0) x
    → i ≢ j
    → 0 < (x.threads i).held
    → (x.threads j).held ≡ 0
mutual_exclusion i j few nested shallow r ne pos =
    let inv = Reach-Inv few nested shallow r in ground (arith, inv.owned i, inv.owned j)

enter-Proceeds :
    {depth : ℕ} {m : RecMutex} (c : Call) (t h : ℕ)
    → IsValid depth m
    → h ≡ depth_of m t
    → may depth c h ≡ true
    → Proceeds (enter m t c)
unfolding enter rec_mutex_lock rec_mutex_unlock
enter-Proceeds lock t h v own ok = ground arith
enter-Proceeds unlock t h v own ok = ground arith

resume-Proceeds :
    {depth : ℕ} {m : RecMutex} (t h : ℕ)
    → IsValid depth m
    → h ≡ depth_of m t
    → h ≡ 0
    → Proceeds (resume m t relock)
unfolding resume rec_mutex_relock
resume-Proceeds t h v own e = ground arith

-- No `assert` of `rec_mutex_lock` and `rec_mutex_unlock` fails, and no call returns with the inner
-- mutex locked, for clients that unlock only what they have locked: neither on a call nor when a
-- waiting thread goes on.
pub mutex_asserts_hold :
    {n depth : ℕ} {x : World Cv Point RecMutex ℕ} (i : ℕ)
    → n < 2 ^ 16
    → 0 < depth
    → depth < 2 ^ 16
    → Reach (api depth) n (start rec_mutex_init 0) x
    → ((c : Call) → (api depth).may c (x.threads i).held ≡ true → Proceeds (enter x.state i c))
      × (weight (λ _. 1) (x.threads i).pc ≡ 1 → Proceeds (resume x.state i relock))
mutex_asserts_hold {x = x} i few nested shallow r =
    let inv = Reach-Inv few nested shallow r in
    (
      λ c ok. enter-Proceeds c i _ inv.valid (inv.owned i) ok,
      λ w. resume-Proceeds i _ inv.valid (inv.owned i) (inv.empty_handed i w),
    )
