-- ===== src/Philosophers/Progress.antt =====
-- Philosophers who share a spoon eat in turn, and block each other in one way only.
use multithreading_bible.Common.{
  ℕ, zero, suc, ◌≡◌, ◌≢◌, ◌<◌, ◌≤◌, ◌⊎◌, Bool, inl, inr, true, false, ◌&&◌, is_set, arith, refl, ap,
  ◌∙◌, ℕ_discrete,
}
use multithreading_bible.Philosophers.{
  n_philosopher, is_held_by, Place, tries, waits, reaches, gives_back, eats, releases,
  releases_both, releases_right, Table, Move, blocks, aborts, moves, phil_get_right_spoon,
  give_left_back, philosopher_fn, Step, acts, spurious, Reach, start,
}
use multithreading_bible.Philosophers.Spoons.{right_user, right_user_lt, has_left, has_right, Inv}
use multithreading_bible.Philosophers.Steps.{Reach-Inv}
use multithreading_bible.Philosophers.Edits.{Good-left, Good-right}
use multithreading_bible.Philosophers.Blocking.{never_aborts, Blocked, all_give}

abbrev pub eating : Place → Bool
eating tries = false
eating (waits b) = false
eating reaches = false
eating gives_back = false
eating eats = true
eating releases = false
eating releases_both = false
eating releases_right = false

eating-has : (p : Place) → eating p ≡ true → (has_left p ≡ true) × (has_right p ≡ true)
eating-has eats e = (refl, refl)
eating-has tries e = cc
eating-has (waits b) e = cc
eating-has reaches e = cc
eating-has gives_back e = cc
eating-has releases e = cc
eating-has releases_both e = cc
eating-has releases_right e = cc

-- The first philosophers whose step is not blocked, or all are.
search :
    (t : Table)
    → Inv t
    → (n : ℕ) → n ≤ n_philosopher
    → ((i : ℕ) × (u : Table) × (i < n_philosopher) × (philosopher_fn t i ≡ moves u))
      ⊎ ((i : ℕ) → i < n → philosopher_fn t i ≡ blocks)
search t inv zero le = inr (λ i lt. absurd (omega (arith, lt)))
search t inv (suc n) le = elim (search t inv n (omega arith)) [
  | inl moving ↦ inl moving
  | inr stuck ↦ cases (philosopher_fn t n) refl stuck
]
  where
    cases :
        (m : Move)
        → philosopher_fn t n ≡ m
        → ((i : ℕ) → i < n → philosopher_fn t i ≡ blocks)
        → ((i : ℕ) × (u : Table) × (i < n_philosopher) × (philosopher_fn t i ≡ moves u))
          ⊎ ((i : ℕ) → i < suc n → philosopher_fn t i ≡ blocks)
    cases (moves u) e stuck = inl (n, u, omega arith, e)
    cases aborts e stuck = absurd (never_aborts t n (omega arith) inv e)
    cases blocks e stuck = inr (λ i lt. elim (ℕ_discrete i n) [
      | yes same ↦ ap (philosopher_fn t) same ∙ e
      | no ne ↦ stuck i (omega (arith, lt, ne))
    ])

-- In every run, no `assert` of a philosopher fails and none reads through NULL, and two who share a
-- spoon do not eat at once.
pub neighbours_eat_in_turn :
    {t : Table} (i : ℕ)
    → i < n_philosopher
    → Reach start t
    → (philosopher_fn t i ≢ aborts)
      × ((eating (t.place (phil_get_right_spoon i)) && eating (t.place i)) ≡ false)
neighbours_eat_in_turn {t} i lt reach = (
  never_aborts t i lt (Reach-Inv reach),
  ground (
    arith,
    eating-has (t.place i),
    eating-has (t.place (phil_get_right_spoon i)),
    (Good-right t i lt (Reach-Inv reach) refl).apart,
  ),
)

-- In every run, some philosopher can make its step, or all five have found their right spoon used
-- and are about to give the left one back.
pub some_move_or_all_give_back :
    {t : Table} (j : ℕ)
    → j < n_philosopher
    → Reach start t
    → ((i : ℕ) × (u : Table) × (i < n_philosopher) × (philosopher_fn t i ≡ moves u))
      ⊎ (t.place j ≡ gives_back)
unfolding Blocked
some_move_or_all_give_back {t} j lt reach =
    elim (search t (Reach-Inv reach) n_philosopher (omega arith)) [
      | inl moving ↦ inl moving
      | inr stuck ↦ inr (all_give t (Reach-Inv reach) stuck j lt)
    ]

-- Once all five are about to give the left spoon back, they block each other for ever.
pub all_give_back_blocked :
    {t u : Table}
    → ((i : ℕ) → i < n_philosopher → t.place i ≡ gives_back)
    → Reach start t
    → ¬ Step t u
unfolding philosopher_fn give_left_back
all_give_back_blocked {t = t} all reach (acts i lt e) =
    let locked : is_set (t.spoon i).mutex ≡ true = ground (
      arith,
      (Good-left t i lt (Reach-Inv reach) (all i lt)).spoon,
      all (right_user i) (right_user_lt i lt),
    ) in
    absurd (ground (arith, e, all i lt, locked))
all_give_back_blocked all reach (spurious i lt at e) = absurd (cc (all i lt, at))

-- Who sleeps over its left spoon sleeps because the neighbour there has it: no signal is lost.
pub sleeper_has_reason :
    {t : Table} (i : ℕ)
    → i < n_philosopher
    → Reach start t
    → t.place i ≡ waits false
    → is_held_by (t.spoon i) (right_user i) ≡ true
sleeper_has_reason {t} i lt reach at =
    let good = Good-left t i lt (Reach-Inv reach) at in ground (arith, good.spoon, good.apart)
