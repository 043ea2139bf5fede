-- ===== src/Sync/Change.antt =====
-- A step changes one thread; the others at most go from blocked to woken. The lemmas give what a
-- component's invariant reads of the threads: what each holds, and weighted counts of the waiting.
use multithreading_bible.Common.{
  List, ℕ, ◌+◌, ◌*◌, ◌≤◌, ◌<◌, ◌≡◌, ◌≢◌, true, ==_iff, arith, refl, ap, ◌∙◌, sym, ℕ_discrete, subst,
}
use multithreading_bible.Common.Sums.{
  put, sum_below, sum_below-change, sum_below-le-mul, sum_below-lt-mul, sum_below_zero,
  le-sum_below,
}
use multithreading_bible.Sync.{
  passes, several, RousedAny, among, apart, unlocks, Wake, leaves, sleeps, Pc, idle, asleep, woken,
  Thread, Api, World, Roused, waiting, elsewhere, Wakes, silent, lost, one, all, Step, returns,
  blocks, resumes, reblocks, spurious, start,
}

-- The weight of a waiting thread, by the point at which it goes on.
abbrev pub weight : {C K : Type 0} → (K → ℕ) → Pc C K → ℕ
weight v idle = 0
weight v (asleep c k) = v k
weight v (woken k) = v k

-- The threads wait as before and hold the same.
pub record Kept {C K H : Type 0} (t t' : Thread C K H) : Type 0 where
  pub same_held : t'.held ≡ t.held
  pub same_weight : (v : K → ℕ) → weight v t'.pc ≡ weight v t.pc

Kept-of_eq : {C K H : Type 0} {t t' : Thread C K H} → t' ≡ t → Kept t t'
Kept-of_eq e = record {
  same_held = ap (λ t. t.held) e;
  same_weight = λ v. ap (λ t. weight v t.pc) e;
}

Kept-woken :
    {C K H : Type 0} (c : C) (k : K) {t t' : Thread C K H}
    → t.pc ≡ asleep c k
    → t' ≡ record { pc = woken k; held = t.held }
    → Kept t t'
Kept-woken c k p e = record {
  same_held = ap (λ t. t.held) e;
  same_weight = λ v. ap (λ t. weight v t.pc) e ∙ sym (ap (weight v) p);
}

Roused-Kept : {C K H : Type 0} {c : C} {t t' : Thread C K H} → Roused c t t' → Kept t t'
Roused-Kept {c = c} (waiting k p e) = Kept-woken c k p e
Roused-Kept (elsewhere n e) = Kept-of_eq e

RousedAny-Kept :
    {C K H : Type 0} {cs : List C} {t t' : Thread C K H} → RousedAny cs t t' → Kept t t'
RousedAny-Kept (among c k m p e) = Kept-woken c k p e
RousedAny-Kept (apart n e) = Kept-of_eq e

pub put_self : {A : Type 0} (f : ℕ → A) (i : ℕ) (a : A) → put f i a i ≡ a
put_self f i a = rw ((==_iff i i).1 refl)

pub put_at : {A : Type 0} (f : ℕ → A) (i : ℕ) (a : A) (j : ℕ) → j ≡ i → put f i a j ≡ a
put_at f i a j e = ground arith

pub put_ne : {A : Type 0} (f : ℕ → A) (i : ℕ) (a : A) (j : ℕ) → j ≢ i → put f i a j ≡ f j
put_ne f i a j ne = ground arith

pub Wakes-Kept :
    {C K H : Type 0} {n : ℕ} {f g : ℕ → Thread C K H} {w : Wake C}
    → Wakes n f g w
    → (j : ℕ) → Kept (f j) (g j)
Wakes-Kept (silent e same) j = Kept-of_eq (same j)
Wakes-Kept (lost c e nobody same) j = Kept-of_eq (same j)
Wakes-Kept {f = f} {g = g} (one c i k e lt p same) j = elim (ℕ_discrete j i) [
  | yes q ↦ subst (λ m. Kept (f m) (g m)) (sym q) (Kept-woken c k p (same i ∙ put_self f i _))
  | no ne ↦ Kept-of_eq (same j ∙ put_ne f i _ j ne)
]
Wakes-Kept (all c e roused) j = Roused-Kept (roused j)
Wakes-Kept (several cs e roused) j = RousedAny-Kept (roused j)

pub waits : {C K S H : Type 0} → ℕ → (K → ℕ) → World C K S H → ℕ
waits n v x = sum_below n (λ j. weight v (x.threads j).pc)

pub holds : {C K S H : Type 0} → ℕ → (H → ℕ) → World C K S H → ℕ
holds n m x = sum_below n (λ j. m (x.threads j).held)

pub waits-le :
    {C K S H : Type 0} (n : ℕ) (v : K → ℕ) (x : World C K S H)
    → ((k : K) → v k ≤ 1)
    → waits n v x ≤ n
unfolding waits
waits-le {C} {K} n v x small =
    omega (arith, sum_below-le-mul n 1 _ (λ j _. weight-le (x.threads j).pc))
  where
    weight-le : (p : Pc C K) → weight v p ≤ 1
    weight-le idle = omega arith
    weight-le (asleep c k) = small k
    weight-le (woken k) = small k

-- A thread that waits counts.
pub waits_pos :
    {C K S H : Type 0} (n : ℕ) (v : K → ℕ) (x : World C K S H) (j : ℕ) (c : C) (k : K)
    → j < n
    → (x.threads j).pc ≡ asleep c k
    → v k ≤ waits n v x
unfolding waits
waits_pos n v x j c k lt e =
    omega (arith, ap (weight v) e, le-sum_below n j (λ i. weight v (x.threads i).pc) lt)

-- The weight of the waiting threads of the start, which has none.
pub waits-start :
    {K S H : Type 0} (C : Type 0) (n : ℕ) (v : K → ℕ) (s : S) (h : H)
    → waits n v (start {C = C} s h) ≡ 0
unfolding waits
waits-start C n v s h = sum_below_zero n _ (λ j _. refl)

pub holds-le :
    {C K S H : Type 0} (n d : ℕ) (m : H → ℕ) (x : World C K S H)
    → ((j : ℕ) → m (x.threads j).held ≤ d)
    → holds n m x ≤ n * d
unfolding holds
holds-le n d m x small = sum_below-le-mul n d _ (λ j _. small j)

pub holds-lt :
    {C K S H : Type 0} (n d i : ℕ) (m : H → ℕ) (x : World C K S H)
    → ((j : ℕ) → m (x.threads j).held ≤ d)
    → i < n
    → m (x.threads i).held < d
    → holds n m x < n * d
unfolding holds
holds-lt n d i m x small lt p = sum_below-lt-mul n d i _ (λ j _. small j) lt p

pub le-holds :
    {C K S H : Type 0} (n : ℕ) (m : H → ℕ) (x : World C K S H) (j : ℕ)
    → j < n
    → m (x.threads j).held ≤ holds n m x
unfolding holds
le-holds n m x j lt = le-sum_below n j (λ i. m (x.threads i).held) lt

pub holds-start :
    {S H : Type 0} (C K : Type 0) (n : ℕ) (m : H → ℕ) (s : S) (h : H)
    → m h ≡ 0
    → holds n m (start {C = C} {K = K} s h) ≡ 0
unfolding holds
holds-start C K n m s h e = sum_below_zero n _ (λ j _. e)

-- Nobody waits, or nobody holds anything.
pub waits_zero :
    {C K S H : Type 0} (n : ℕ) (v : K → ℕ) (x : World C K S H)
    → ((j : ℕ) → j < n → (x.threads j).pc ≡ idle)
    → waits n v x ≡ 0
unfolding waits
waits_zero n v x out = sum_below_zero n _ (λ j lt. ap (weight v) (out j lt))

pub holds_zero :
    {C K S H : Type 0} (n : ℕ) (m : H → ℕ) (x : World C K S H)
    → ((j : ℕ) → j < n → m (x.threads j).held ≡ 0)
    → holds n m x ≡ 0
unfolding holds
holds_zero n m x out = sum_below_zero n _ out

-- Thread `i` went from weight `u` to weight `v`, and now holds `h`; the others hold what they held.
pub record After {C K S H : Type 0} (n : ℕ) (x y : World C K S H) (i : ℕ) (h : H)
    (u v : (K → ℕ) → ℕ) : Type 0 where
  pub below : i < n
  pub held_self : (y.threads i).held ≡ h
  pub held_ne : (j : ℕ) → j ≢ i → (y.threads j).held ≡ (x.threads j).held
  pub weight_before : (w : K → ℕ) → weight w (x.threads i).pc ≡ u w
  pub weight_self : (w : K → ℕ) → weight w (y.threads i).pc ≡ v w
  pub weight_ne :
      (w : K → ℕ) (j : ℕ) → j ≢ i → weight w (y.threads j).pc ≡ weight w (x.threads j).pc
  pub waits_change : (w : K → ℕ) → waits n w y + u w ≡ waits n w x + v w
  pub holds_change : (m : H → ℕ) → holds n m y + m (x.threads i).held ≡ holds n m x + m h

-- Thread `i` counted among the waiting.
pub After-waits-le :
    {C K S H : Type 0} {n : ℕ} {x y : World C K S H} {i : ℕ} {h : H} {u v : (K → ℕ) → ℕ}
    → After n x y i h u v
    → (w : K → ℕ) → u w ≤ waits n w x
unfolding waits
After-waits-le {n = n} {x = x} {i = i} after w =
    omega
      (arith, after.weight_before w, le-sum_below n i (λ j. weight w (x.threads j).pc) after.below)

After-of_Kept :
    {C K S H : Type 0} {n : ℕ} {x y : World C K S H} {i : ℕ} {q : Pc C K} (t : Thread C K H)
    → i < n
    → (x.threads i).pc ≡ q
    → ((j : ℕ) → Kept (put x.threads i t j) (y.threads j))
    → After n x y i t.held (λ w. weight w q) (λ w. weight w t.pc)
unfolding waits holds
After-of_Kept {K = K} {n = n} {x = x} {y = y} {i = i} t lt at kept = record {
  below = lt;
  held_self = held_self;
  held_ne = held_ne;
  weight_before = λ w. ap (weight w) at;
  weight_self = weight_self;
  weight_ne = weight_ne;
  waits_change = λ w. omega (
    arith,
    sum_below-change n i (λ j. weight w (x.threads j).pc) (λ j. weight w (y.threads j).pc) lt
        (weight_ne w),
    weight_self w,
    ap (weight w) at,
  );
  holds_change = λ m. omega (
    arith,
    sum_below-change n i (λ j. m (x.threads j).held) (λ j. m (y.threads j).held) lt
        (λ j ne. ap m (held_ne j ne)),
    ap m held_self,
  );
}
  where
    held_self : (y.threads i).held ≡ t.held
    held_self = (kept i).same_held ∙ ap (λ t. t.held) (put_self x.threads i t)

    held_ne : (j : ℕ) → j ≢ i → (y.threads j).held ≡ (x.threads j).held
    held_ne j ne = (kept j).same_held ∙ ap (λ t. t.held) (put_ne x.threads i t j ne)

    weight_self : (w : K → ℕ) → weight w (y.threads i).pc ≡ weight w t.pc
    weight_self w = (kept i).same_weight w ∙ ap (λ t. weight w t.pc) (put_self x.threads i t)

    weight_ne : (w : K → ℕ) (j : ℕ) → j ≢ i → weight w (y.threads j).pc ≡ weight w (x.threads j).pc
    weight_ne w j ne = (kept j).same_weight w ∙ ap (λ t. weight w t.pc) (put_ne x.threads i t j ne)

module _ {C K S Op H : Type 0} (api : Api C K S Op H) (n : ℕ) where
  -- What a step did, by the section that ran.
  pub data Change (x y : World C K S H) : Type 0 where
    returned :
        (i : ℕ) (op : Op) (w : Wake C)
        → api.may op (x.threads i).held ≡ true
        → api.enter x.state i op ≡ leaves y.state w
        → After n x y i (api.credit op (x.threads i).held) (λ _. 0) (λ _. 0)
        → Change x y
    blocked :
        (i : ℕ) (op : Op) (c : C) (k : K)
        → api.may op (x.threads i).held ≡ true
        → api.enter x.state i op ≡ sleeps c k y.state
        → After n x y i (x.threads i).held (λ _. 0) (λ v. v k)
        → Change x y
    resumed :
        (i : ℕ) (k : K) (w : Wake C)
        → api.resume x.state i k ≡ leaves y.state w
        → After n x y i (api.granted k (x.threads i).held) (λ v. v k) (λ _. 0)
        → Change x y
    reblocked :
        (i : ℕ) (k : K) (c : C) (k' : K)
        → api.resume x.state i k ≡ sleeps c k' y.state
        → After n x y i (x.threads i).held (λ v. v k) (λ v. v k')
        → Change x y
    passed :
        (i : ℕ) (op : Op) (k : K)
        → api.may op (x.threads i).held ≡ true
        → api.enter x.state i op ≡ unlocks k y.state
        → After n x y i (x.threads i).held (λ _. 0) (λ v. v k)
        → Change x y
    roused :
        (i : ℕ) (k : K)
        → y.state ≡ x.state
        → After n x y i (x.threads i).held (λ v. v k) (λ v. v k)
        → Change x y

  pub Step-Change : {x y : World C K S H} → Step api n x y → Change x y
  Step-Change {x} {y} (returns i op w lt p may e wakes) =
      returned i op w may e (After-of_Kept _ lt p (Wakes-Kept wakes))
  Step-Change {x} {y} (blocks i op c k lt p may e th) =
      blocked i op c k may e (After-of_Kept _ lt p (λ j. Kept-of_eq (th j)))
  Step-Change {x} {y} (resumes i k w lt p e wakes) =
      resumed i k w e (After-of_Kept _ lt p (Wakes-Kept wakes))
  Step-Change {x} {y} (reblocks i k c k' lt p e th) =
      reblocked i k c k' e (After-of_Kept _ lt p (λ j. Kept-of_eq (th j)))
  Step-Change {x} {y} (passes i op k lt p may e th) =
      passed i op k may e (After-of_Kept _ lt p (λ j. Kept-of_eq (th j)))
  Step-Change {x} {y} (spurious i c k lt p e th) =
      roused i k e (After-of_Kept _ lt p (λ j. Kept-of_eq (th j)))
