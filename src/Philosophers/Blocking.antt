-- ===== src/Philosophers/Blocking.antt =====
-- Where every philosopher is blocked, every one gives its left spoon back.
use multithreading_bible.Common.{
  ℕ, zero, suc, ◌+◌, ◌-◌, ◌≡◌, ◌≢◌, ◌<◌, Bool-cases, inl, inr, true, false, is_set, arith, refl, ap,
  sym, ◌∙◌, subst,
}
use multithreading_bible.Philosophers.{
  n_philosopher, Spoon, Place, tries, waits, reaches, gives_back, eats, releases, releases_both,
  releases_right, Table, blocks, aborts, phil_get_right_spoon, take_left, find_used, take_right,
  give_left_back, phil_eat, lock_left, release_left, release_right, philosopher_fn,
}
use multithreading_bible.Philosophers.Spoons.{
  right_user, right_user_lt, right_lt, has_left, has_right, locks_left, locks_right, Inv,
}
use multithreading_bible.Philosophers.Taking.{Fine}
use multithreading_bible.Philosophers.Steps.{philosopher_fn-Fine}
use multithreading_bible.Philosophers.Edits.{Good-left, Good-right}

pub never_aborts : (t : Table) (i : ℕ) → i < n_philosopher → Inv t → philosopher_fn t i ≢ aborts
unfolding Fine
never_aborts t i lt inv e = absurd (cc (subst Fine e (philosopher_fn-Fine t i lt inv)))

left_locker : (p : Place) → locks_left p ≡ true → p ≡ releases_both
left_locker releases_both e = refl
left_locker tries e = cc
left_locker (waits b) e = cc
left_locker reaches e = cc
left_locker gives_back e = cc
left_locker eats e = cc
left_locker releases e = cc
left_locker releases_right e = cc

module _ (t : Table) (inv : Inv t) where
  -- A philosopher who waits for the mutex of its left spoon waits for the neighbour there.
  left_locked :
      (i : ℕ)
      → i < n_philosopher
      → {p : Place} → t.place i ≡ p
      → locks_left p ≡ false
      → is_set (t.spoon i).mutex ≡ true
      → locks_right (t.place (right_user i)) ≡ true
  left_locked i lt at l e = ground (arith, (Good-left t i lt inv at).spoon, l, e)

  take_left_blocked : (i : ℕ) (x : Spoon) → take_left t i x ≡ blocks → is_set x.mutex ≡ true
  unfolding take_left
  take_left_blocked i x e = ground (arith, e)

  give_left_back_blocked :
      (i : ℕ) (x y : Spoon) → give_left_back t i x y ≡ blocks → is_set x.mutex ≡ true
  unfolding give_left_back
  give_left_back_blocked i x y e = ground (arith, e)

  lock_left_blocked : (i : ℕ) (x : Spoon) → lock_left t i x ≡ blocks → is_set x.mutex ≡ true
  unfolding lock_left
  lock_left_blocked i x e = ground (arith, e)

  release_left_blocked :
      (i : ℕ) (x y : Spoon) → release_left t i x y ≡ blocks → is_set y.mutex ≡ true
  unfolding release_left
  release_left_blocked i x y e = ground (arith, e)

  take_right_blocked : (i : ℕ) (x : Spoon) → take_right t i x ≡ blocks → is_set x.mutex ≡ true
  unfolding take_right find_used
  take_right_blocked i x e = ground (arith, e)

  -- Nobody waits for the mutex of its right spoon once it has the left one but not the mutex.
  right_unlocked :
      (i : ℕ) (lt : i < n_philosopher) {p : Place}
      → t.place i ≡ p
      → has_right p ≡ true
      → locks_right p ≡ false
      → is_set (t.spoon (phil_get_right_spoon i)).mutex ≡ false
  right_unlocked i lt at r lr =
      let good = Good-right t i lt inv at in
      let free : has_left (t.place (phil_get_right_spoon i)) ≡ false =
        ground (arith, good.apart, r) in
      let unlocked : locks_left (t.place (phil_get_right_spoon i)) ≡ false =
        elim (Bool-cases (locks_left (t.place (phil_get_right_spoon i)))) [
          | inl e ↦ cc (ap has_left (left_locker (t.place (phil_get_right_spoon i)) e), free)
          | inr e ↦ e
        ] in
      ground (arith, good.spoon, unlocked, lr)

  unfoldable pub Blocked : ℕ → Type 0
  Blocked i = philosopher_fn t i ≡ blocks

  eats_moves : (i : ℕ) → i < n_philosopher → Blocked i → t.place i ≢ eats
  unfolding Blocked philosopher_fn phil_eat
  eats_moves i lt e at = ground (arith, e, at)

  releases_right_moves : (i : ℕ) → i < n_philosopher → Blocked i → t.place i ≢ releases_right
  unfolding Blocked philosopher_fn release_right
  releases_right_moves i lt e at = ground (arith, e, at)

  releases_both_moves : (i : ℕ) → i < n_philosopher → Blocked i → t.place i ≢ releases_both
  unfolding Blocked philosopher_fn release_left
  releases_both_moves i lt e at = ground (arith, e, at, right_unlocked i lt at refl refl)

  module _ (stuck : (i : ℕ) → i < n_philosopher → Blocked i) where
    locker_gives :
        (i : ℕ)
        → i < n_philosopher
        → (p : Place) → t.place i ≡ p
        → locks_right p ≡ true
        → p ≡ gives_back
    locker_gives i lt gives_back at l = refl
    locker_gives i lt releases_right at l = absurd (releases_right_moves i lt (stuck i lt) at)
    locker_gives i lt tries at l = cc
    locker_gives i lt (waits b) at l = cc
    locker_gives i lt reaches at l = cc
    locker_gives i lt eats at l = cc
    locker_gives i lt releases at l = cc
    locker_gives i lt releases_both at l = cc

    eater_releases :
        (i : ℕ)
        → i < n_philosopher
        → (p : Place) → t.place i ≡ p
        → has_right p ≡ true
        → p ≡ releases
    eater_releases i lt releases at r = refl
    eater_releases i lt eats at r = absurd (eats_moves i lt (stuck i lt) at)
    eater_releases i lt releases_both at r = absurd (releases_both_moves i lt (stuck i lt) at)
    eater_releases i lt releases_right at r = absurd (releases_right_moves i lt (stuck i lt) at)
    eater_releases i lt tries at r = cc
    eater_releases i lt (waits b) at r = cc
    eater_releases i lt reaches at r = cc
    eater_releases i lt gives_back at r = cc

    -- The mutex of a left spoon is only held by a neighbour who gives back.
    behind_gives :
        (i : ℕ)
        → i < n_philosopher
        → {p : Place} → t.place i ≡ p
        → locks_left p ≡ false
        → is_set (t.spoon i).mutex ≡ true
        → t.place (right_user i) ≡ gives_back
    behind_gives i lt at l e =
        locker_gives (right_user i) (right_user_lt i lt) (t.place (right_user i)) refl
          (left_locked i lt at l e)

    gives_behind :
        (i : ℕ) → i < n_philosopher → t.place i ≡ gives_back → t.place (right_user i) ≡ gives_back
    unfolding Blocked philosopher_fn
    gives_behind i lt at = behind_gives i lt at refl (
        give_left_back_blocked i (t.spoon i) (t.spoon (phil_get_right_spoon i))
          (ground (arith, stuck i lt, at)))

    releases_behind :
        (i : ℕ) → i < n_philosopher → t.place i ≡ releases → t.place (right_user i) ≡ gives_back
    unfolding Blocked philosopher_fn
    releases_behind i lt at =
        behind_gives i lt at refl (lock_left_blocked i (t.spoon i) (ground (arith, stuck i lt, at)))

    reaches_moves : (i : ℕ) → i < n_philosopher → t.place i ≢ reaches
    unfolding Blocked philosopher_fn
    reaches_moves i lt at =
        let set : is_set (t.spoon (phil_get_right_spoon i)).mutex ≡ true =
          take_right_blocked i (t.spoon (phil_get_right_spoon i))
            (ground (arith, stuck i lt, at)) in
        let locked : locks_left (t.place (phil_get_right_spoon i)) ≡ true =
          ground (arith, (Good-right t i lt inv at).spoon, set) in
        releases_both_moves (phil_get_right_spoon i) (right_lt i lt)
          (stuck (phil_get_right_spoon i) (right_lt i lt))
          (left_locker (t.place (phil_get_right_spoon i)) locked)

    -- Someone gives back.
    someone_gives :
        (i : ℕ)
        → i < n_philosopher
        → (p : Place) → t.place i ≡ p
        → (j : ℕ) × (j < n_philosopher) × (t.place j ≡ gives_back)
    unfolding Blocked philosopher_fn
    someone_gives i lt tries at = (
      right_user i,
      right_user_lt i lt,
      behind_gives i lt at refl (take_left_blocked i (t.spoon i) (ground (arith, stuck i lt, at))),
    )
    someone_gives i lt (waits true) at = (
      right_user i,
      right_user_lt i lt,
      behind_gives i lt at refl (take_left_blocked i (t.spoon i) (ground (arith, stuck i lt, at))),
    )
    someone_gives i lt (waits false) at =
        let j = right_user i in
        let jl = right_user_lt i lt in
        let has : has_right (t.place j) ≡ true = ground (arith, (Good-left t i lt inv at).apart) in
        (
          right_user j,
          right_user_lt j jl,
          releases_behind j jl (eater_releases j jl (t.place j) refl has),
        )
    someone_gives i lt reaches at = absurd (reaches_moves i lt at)
    someone_gives i lt gives_back at = (i, lt, at)
    someone_gives i lt eats at = absurd (eats_moves i lt (stuck i lt) at)
    someone_gives i lt releases at = (right_user i, right_user_lt i lt, releases_behind i lt at)
    someone_gives i lt releases_both at = absurd (releases_both_moves i lt (stuck i lt) at)
    someone_gives i lt releases_right at = absurd (releases_right_moves i lt (stuck i lt) at)

    -- Then all do, one after the other.
    behind_gives_too :
        (i j : ℕ)
        → i < n_philosopher
        → right_user i ≡ j
        → t.place i ≡ gives_back
        → t.place j ≡ gives_back
    behind_gives_too i j lt e g = ap t.place (sym e) ∙ gives_behind i lt g

    all_behind :
        (i d : ℕ) → i + d < n_philosopher → t.place i ≡ gives_back → t.place (i + d) ≡ gives_back
    unfolding right_user
    all_behind i zero lt g = ap t.place (omega arith) ∙ g
    all_behind i (suc d) lt g =
        behind_gives_too (i + d) (i + suc d) (omega arith) (ground arith)
          (all_behind i d (omega arith) g)

    pub all_give : (i : ℕ) → i < n_philosopher → t.place i ≡ gives_back
    unfolding right_user
    all_give i lt =
        let (j, jl, g) = someone_gives 0 (omega arith) (t.place 0) refl in
        let last : t.place 4 ≡ gives_back =
          ap t.place (omega (arith, jl)) ∙ all_behind j (4 - j) (omega (arith, jl)) g in
        ap t.place (omega arith)
        ∙ all_behind 0 i (omega (arith, lt)) (behind_gives_too 4 0 (omega arith) refl last)
