-- ===== src/Philosophers/Tests.antt =====
-- Runs of the philosophers, the one in which all block each other among them.
use multithreading_bible.Common.{
  ℕ, zero, suc, ◌≡◌, ◌≢◌, ◌<◌, ◌⊎◌, true, false, ◌&&◌, List, [], ◌∷◌, arith, refl,
}
use multithreading_bible.Philosophers.{
  n_philosopher, is_held_by, waits, gives_back, Table, Move, blocks, aborts, moves,
  phil_get_right_spoon, wake, take_left, find_used, take_right, phil_eat, lock_left, release_left,
  release_right, philosopher_fn, Step, acts, Reach, here, next, start,
}
use multithreading_bible.Philosophers.Spoons.{right_user}
use multithreading_bible.Philosophers.Progress.{
  eating, neighbours_eat_in_turn, some_move_or_all_give_back, all_give_back_blocked,
  sleeper_has_reason,
}

-- The philosophers of a list make their steps in turn; who is blocked stays.
after_move : Table → Move → Table
after_move t blocks = t
after_move t aborts = t
after_move t (moves u) = u

after : Table → List ℕ → Table
after t [] = t
after t (i ∷ is) = after (after_move t (philosopher_fn t i)) is

Below : ℕ → List ℕ → Type 0
Below n [] = Unit
Below n (i ∷ is) = (i < n) × Below n is

after-Reach :
    {t : Table} (is : List ℕ) → Below n_philosopher is → Reach start t → Reach start (after t is)
unfolding after Below after_move
after-Reach [] b reach = reach
after-Reach {t = t} (i ∷ is) b reach =
    after-Reach {t = after_move t (philosopher_fn t i)} is b.1 (cases (philosopher_fn t i) refl)
  where
    cases : (m : Move) → philosopher_fn t i ≡ m → Reach start (after_move t m)
    cases blocks e = reach
    cases aborts e = reach
    cases (moves u) e = next reach (acts i b.0 e)

-- Everyone takes its left spoon, then everyone finds the right one used.
abbrev everyone_twice : List ℕ
everyone_twice = 0 ∷ 1 ∷ 2 ∷ 3 ∷ 4 ∷ 0 ∷ 1 ∷ 2 ∷ 3 ∷ 4 ∷ []

deadlock : Table
deadlock = after start everyone_twice

deadlock-Reach : Reach start deadlock
unfolding deadlock Below
deadlock-Reach = after-Reach everyone_twice (omega arith) here

deadlock_all : (i : ℕ) → i < n_philosopher → deadlock.place i ≡ gives_back
unfolding deadlock after after_move start philosopher_fn take_left take_right find_used
    phil_get_right_spoon
deadlock_all zero lt = refl
deadlock_all (suc zero) lt = refl
deadlock_all (suc (suc zero)) lt = refl
deadlock_all (suc (suc (suc zero))) lt = refl
deadlock_all (suc (suc (suc (suc zero)))) lt = refl
deadlock_all (suc (suc (suc (suc (suc i))))) lt = absurd (omega (arith, lt))

all_give_back_blocked_example : ¬ Step deadlock start
all_give_back_blocked_example = all_give_back_blocked deadlock_all deadlock-Reach

some_move_or_all_give_back_example :
    ((i : ℕ) × (u : Table) × (i < n_philosopher) × (philosopher_fn deadlock i ≡ moves u))
    ⊎ (deadlock.place 3 ≡ gives_back)
some_move_or_all_give_back_example = some_move_or_all_give_back 3 (omega arith) deadlock-Reach

-- Philosopher 1 has both its spoons, and philosopher 0 sleeps over one of them.
sleeping : Table
sleeping = after start (1 ∷ 1 ∷ 0 ∷ [])

sleeping-Reach : Reach start sleeping
unfolding sleeping Below
sleeping-Reach = after-Reach (1 ∷ 1 ∷ 0 ∷ []) (omega arith) here

neighbours_eat_in_turn_example :
    (philosopher_fn sleeping 1 ≢ aborts)
    × ((eating (sleeping.place (phil_get_right_spoon 1)) && eating (sleeping.place 1)) ≡ false)
neighbours_eat_in_turn_example = neighbours_eat_in_turn 1 (omega arith) sleeping-Reach

sleeping_asleep : sleeping.place 0 ≡ waits false
unfolding sleeping after after_move start philosopher_fn take_left take_right find_used
    phil_get_right_spoon
sleeping_asleep = refl

sleeper_has_reason_example : is_held_by (sleeping.spoon 0) (right_user 0) ≡ true
sleeper_has_reason_example = sleeper_has_reason 0 (omega arith) sleeping-Reach sleeping_asleep

-- Once philosopher 1 has eaten and released, philosopher 0 is awake.
woken : (after sleeping (1 ∷ 1 ∷ 1 ∷ 1 ∷ [])).place 0 ≡ waits true
unfolding sleeping after after_move start philosopher_fn take_left take_right find_used
    phil_get_right_spoon phil_eat lock_left release_left release_right wake
woken = refl
