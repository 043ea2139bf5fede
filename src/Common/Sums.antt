-- ===== src/Common/Sums.antt =====
-- Sums over the threads below a bound, and families indexed by thread.
use Prim.Native.Nat.{ℕ, zero, suc, ◌+◌, ◌*◌, ◌≤◌, ◌<◌}
use mathlib.Core.Path.{◌≡◌, refl, ap}
use mathlib.Core.Logic.{◌≢◌}
use native.Mathlib.Decide.{ℕ_discrete, dec_lt}
use native.Mathlib.Omega.{arith}
use multithreading_bible.Common.Tests.{◌==◌, if◌then◌else◌}

unfoldable pub sum_below : ℕ → (ℕ → ℕ) → ℕ
sum_below zero f = 0
sum_below (suc n) f = f n + sum_below n f

-- The family `f` with `a` at `i`.
abbrev pub put {ℓ} : {A : Type ℓ} → (ℕ → A) → ℕ → A → ℕ → A
put f i a j = if j == i then a else f j

pub sum_below-congr :
    (n : ℕ) (f g : ℕ → ℕ) → ((j : ℕ) → j < n → f j ≡ g j) → sum_below n f ≡ sum_below n g
unfolding sum_below
sum_below-congr zero f g h = refl
sum_below-congr (suc n) f g h =
    omega (arith, h n (omega arith), sum_below-congr n f g (λ j p. h j (omega arith)))

-- Two families that differ at one index below the bound.
pub sum_below-change :
    (n i : ℕ) (f g : ℕ → ℕ)
    → i < n
    → ((j : ℕ) → j ≢ i → g j ≡ f j)
    → sum_below n g + f i ≡ sum_below n f + g i
unfolding sum_below
sum_below-change zero i f g h same = elim h [ ]
sum_below-change (suc n) i f g h same = elim (ℕ_discrete n i) [
  | yes e ↦ rw e (omega (arith, sum_below-congr i g f (λ j p. same j (omega arith))))
  | no ne ↦ omega (arith, same n ne, sum_below-change n i f g (omega arith) same)
]

pub sum_below-le-mul : (n d : ℕ) (f : ℕ → ℕ) → ((j : ℕ) → j < n → f j ≤ d) → sum_below n f ≤ n * d
unfolding sum_below
sum_below-le-mul zero d f h = omega arith
sum_below-le-mul (suc n) d f h =
    omega (arith, h n (omega arith), sum_below-le-mul n d f (λ j p. h j (omega arith)))

-- Strictly below, where one term is.
pub sum_below-lt-mul :
    (n d i : ℕ) (f : ℕ → ℕ) → ((j : ℕ) → j < n → f j ≤ d) → i < n → f i < d → sum_below n f < n * d
unfolding sum_below
sum_below-lt-mul zero d i f h lt p = elim lt [ ]
sum_below-lt-mul (suc n) d i f h lt p = elim (ℕ_discrete n i) [
  | yes e ↦ omega (arith, ap f e, sum_below-le-mul n d f (λ j q. h j (omega arith)))
  | no ne ↦ omega (
    arith,
    h n (omega arith),
    sum_below-lt-mul n d i f (λ j q. h j (omega arith)) (omega arith) p,
  )
]

pub le-sum_below : (n i : ℕ) (f : ℕ → ℕ) → i < n → f i ≤ sum_below n f
unfolding sum_below
le-sum_below zero i f h = elim h [ ]
le-sum_below (suc n) i f h = elim (ℕ_discrete n i) [
  | yes e ↦ rw e (omega arith)
  | no ne ↦ omega (arith, le-sum_below n i f (omega arith))
]

pub sum_below_zero : (n : ℕ) (f : ℕ → ℕ) → ((j : ℕ) → j < n → f j ≡ 0) → sum_below n f ≡ 0
unfolding sum_below
sum_below_zero zero f h = refl
sum_below_zero (suc n) f h =
    omega (arith, h n (omega arith), sum_below_zero n f (λ j p. h j (omega arith)))

-- A positive sum has a positive term.
pub sum_below_witness : (n : ℕ) (f : ℕ → ℕ) → 0 < sum_below n f → (j : ℕ) × (j < n) × (0 < f j)
unfolding sum_below
sum_below_witness zero f h = absurd (omega arith)
sum_below_witness (suc n) f h = elim (dec_lt 0 (f n)) [
  | yes p ↦ (n, omega arith, p)
  | no q ↦ let (j, lt, pos) = sum_below_witness n f (omega arith) in (j, omega arith, pos)
]
