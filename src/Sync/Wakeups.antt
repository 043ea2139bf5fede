-- ===== src/Sync/Wakeups.antt =====
-- What a signal does for the threads that still wait after it.
use multithreading_bible.Common.{ℕ, ◌<◌, ◌≡◌, ◌≢◌, ap, refl, ◌∙◌, sym, subst, ℕ_discrete}
use multithreading_bible.Common.Sums.{put}
use multithreading_bible.Sync.{
  several, RousedAny, among, apart, Wake, signal, broadcast, asleep, woken, Thread, Roused, waiting,
  elsewhere, Wakes, silent, lost, one, all,
}
use multithreading_bible.Sync.Change.{put_self, put_ne}

-- Some thread has been woken, and is about to go on.
abbrev pub Awake : {C K H : Type 0} → ℕ → (ℕ → Thread C K H) → Type 0
Awake {C} {K} n f = (i : ℕ) × (k : K) × (i < n) × ((f i).pc ≡ woken k)

pub Awake-put :
    {C K H : Type 0} {n : ℕ} (f : ℕ → Thread C K H) {g : ℕ → Thread C K H} (t : Thread C K H)
    (i : ℕ) (k : K)
    → i < n
    → t.pc ≡ woken k
    → ((j : ℕ) → g j ≡ put f i t j)
    → Awake n g
Awake-put f t i k lt e same = (i, k, lt, ap (λ t. t.pc) (same i ∙ put_self f i t) ∙ e)

-- After a signal, where a thread still waits on the condition variable, another has been woken.
pub signal-Wakes :
    {C K H : Type 0} {n : ℕ} {f g : ℕ → Thread C K H} {w : Wake C} (c : C) (j : ℕ) (k : K)
    → j < n
    → Wakes n f g w
    → w ≡ signal c
    → (g j).pc ≡ asleep c k
    → Awake n g
signal-Wakes c j k lt (silent e same) s p = absurd (cc)
signal-Wakes c j k lt (lost c' e nobody same) s p = absurd (nobody j k lt (cc (same j)))
signal-Wakes {f = f} c j k lt (one c' i k' e below p' same) s p =
    Awake-put f (record { pc = woken k'; held = (f i).held }) i k' below refl same
signal-Wakes c j k lt (all c' e roused) s p = absurd (cc)
signal-Wakes c j k lt (several cs e roused) s p = absurd (cc)

-- After a broadcast nobody waits on the condition variable.
pub broadcast-Wakes :
    {C K H : Type 0} {n : ℕ} {f g : ℕ → Thread C K H} {w : Wake C} (c : C) (j : ℕ) (k : K)
    → Wakes n f g w
    → w ≡ broadcast c
    → (g j).pc ≢ asleep c k
broadcast-Wakes c j k (silent e same) s p = cc
broadcast-Wakes c j k (lost c' e nobody same) s p = cc
broadcast-Wakes c j k (several cs e roused) s p = cc
broadcast-Wakes c j k (one c' i k' e below p' same) s p = cc
broadcast-Wakes {f = f} {g = g} c j k (all c' e roused) s p = still (roused j)
  where
    still : Roused c' (f j) (g j) → ⊥
    still (waiting k' q r) = cc
    still (elsewhere ne r) = ne k (cc)

-- A thread that waits after a change of thread `i` to `t`, which does not wait on `c`, waited before.
pub put_asleep :
    {C K H : Type 0} (f : ℕ → Thread C K H) {g : ℕ → Thread C K H} (t : Thread C K H) (i j : ℕ)
    {c : C} {k : K}
    → t.pc ≢ asleep c k
    → ((m : ℕ) → g m ≡ put f i t m)
    → (g j).pc ≡ asleep c k
    → (f j).pc ≡ asleep c k
put_asleep f {g} t i j {c} {k} ne same e = elim (ℕ_discrete j i) [
  | yes q ↦ absurd (
      ne (
        ap (λ u. u.pc) (sym (put_self f i t))
        ∙ ap (λ u. u.pc) (sym (same i))
        ∙ subst (λ m. (g m).pc ≡ asleep c k) q e))
  | no q ↦ ap (λ u. u.pc) (sym (put_ne f i t j q)) ∙ ap (λ u. u.pc) (sym (same j)) ∙ e
]

-- A thread that waits after a wakeup waited before it.
pub Wakes-asleep :
    {C K H : Type 0} {n : ℕ} {f g : ℕ → Thread C K H} {w : Wake C} (j : ℕ) {c : C} {k : K}
    → Wakes n f g w
    → (g j).pc ≡ asleep c k
    → (f j).pc ≡ asleep c k
Wakes-asleep j (silent e same) q = ap (λ u. u.pc) (sym (same j)) ∙ q
Wakes-asleep j (lost c' e nobody same) q = ap (λ u. u.pc) (sym (same j)) ∙ q
Wakes-asleep {f = f} j (one c' i k' e below p same) q =
    put_asleep f (record { pc = woken k'; held = (f i).held }) i j (λ r. cc) same q
Wakes-asleep {f = f} {g = g} j {c} {k} (all c' e roused) q = before (roused j)
  where
    before : Roused c' (f j) (g j) → (f j).pc ≡ asleep c k
    before (waiting k' p r) = absurd (cc)
    before (elsewhere ne r) = ap (λ u. u.pc) (sym r) ∙ q
Wakes-asleep {f = f} {g = g} j {c} {k} (several cs e roused) q = before (roused j)
  where
    before : RousedAny cs (f j) (g j) → (f j).pc ≡ asleep c k
    before (among c' k' m p r) = absurd (cc)
    before (apart ne r) = ap (λ u. u.pc) (sym r) ∙ q
