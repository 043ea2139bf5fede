-- ===== src/Philosophers.antt =====
-- DiningPhilosopherProblem/assignment_din_ph_soln.c and din_ph.h: five philosophers, each a thread
-- that takes its left spoon, tries to take its right one, eats, and gives both back. A step runs a
-- philosopher from one `pthread_mutex_lock`, `pthread_cond_wait` or call to the next. A philosopher
-- may hold the mutex of one spoon while it waits for that of another, so that the mutexes are part
-- of the state.
pub mod Spoons
pub mod Edits
pub mod Taking
pub mod Steps
pub mod Blocking
pub mod Progress
pub mod Tests
use multithreading_bible.Common.{
  ℕ, ◌+◌, ◌-◌, ◌≡◌, ◌<◌, Bool, true, false, not, ◌&&◌, Option, none, some, ◌==◌, is_self, is_set,
  if◌then◌else◌,
}
use multithreading_bible.Common.Sums.{put}

-- `N_PHILOSOPHER`.
abbrev pub n_philosopher : ℕ
n_philosopher = 5

-- `spoon_t`, with the philosopher that holds its mutex.
pub record Spoon : Type 0 where
  pub is_used : Bool
  pub phil : Option ℕ
  pub mutex : Option ℕ

-- Where a philosopher is: before it locks its left spoon; at the wait for that spoon, signalled or
-- not; before it locks the right one; with the right one locked, before it locks the left one to give
-- it back; before it eats; before it locks the left spoon to release both; with that locked, before
-- it locks the right one; with the left one released and the right one locked.
pub data Place : Type 0 where
  tries : Place
  waits : Bool → Place
  reaches : Place
  gives_back : Place
  eats : Place
  releases : Place
  releases_both : Place
  releases_right : Place

pub record Table : Type 0 where
  pub spoon : ℕ → Spoon
  pub place : ℕ → Place
  pub eat_count : ℕ → ℕ

-- A step waits for a mutex or a signal, fails an `assert` or reads through NULL, or is made.
pub data Move : Type 0 where
  blocks : Move
  aborts : Move
  moves : Table → Move

unfoldable pub phil_get_right_spoon : ℕ → ℕ
phil_get_right_spoon phil_id = if phil_id == 0 then n_philosopher - 1 else phil_id - 1

abbrev pub phil_get_left_spoon : ℕ → ℕ
phil_get_left_spoon phil_id = phil_id

abbrev pub comes_to : Table → ℕ → Place → Table
comes_to t i p = record t { place = put t.place i p }

abbrev pub set_spoon : Table → ℕ → Spoon → Table
set_spoon t s x = record t { spoon = put t.spoon s x }

-- `assert(spoon->phil == phil)` and `assert(spoon->is_used == true)`.
abbrev pub is_held_by : Spoon → ℕ → Bool
is_held_by s i = is_self s.phil i && s.is_used

-- `pthread_cond_signal`. Only the philosopher whose left spoon it is waits for a spoon.
unfoldable pub wake : Place → Place
wake tries = tries
wake (waits signalled) = waits true
wake reaches = reaches
wake gives_back = gives_back
wake eats = eats
wake releases = releases
wake releases_both = releases_both
wake releases_right = releases_right

abbrev pub cond_signal : Table → ℕ → Table
cond_signal t s = comes_to t s (wake (t.place s))

-- `philosopher_get_access_both_spoons` up to the unlock of the left spoon, or its wait.
unfoldable pub take_left : Table → ℕ → Spoon → Move
take_left t i left =
    if is_set left.mutex
    then blocks
    else if left.is_used && not (is_self left.phil i)
    then moves (comes_to t i (waits false))
    else moves (
        comes_to
          (set_spoon t (phil_get_left_spoon i) (record left { is_used = true; phil = some i })) i
          reaches)

-- The right spoon is used; the message that it is names the philosopher that has it.
unfoldable pub find_used : Table → ℕ → Spoon → Option ℕ → Move
find_used t i right none = aborts
find_used t i right (some j) =
    if j == i
    then moves (comes_to t i eats)
    else moves (
        comes_to (set_spoon t (phil_get_right_spoon i) (record right { mutex = some i })) i
          gives_back)

unfoldable pub take_right : Table → ℕ → Spoon → Move
take_right t i right =
    if is_set right.mutex
    then blocks
    else if right.is_used
    then find_used t i right right.phil
    else moves (
        comes_to
          (set_spoon t (phil_get_right_spoon i) (record right { is_used = true; phil = some i })) i
          eats)

unfoldable pub give_left_back : Table → ℕ → Spoon → Spoon → Move
give_left_back t i left right =
    if is_set left.mutex
    then blocks
    else if is_held_by left i
    then moves (
        comes_to
          (set_spoon
            (set_spoon t (phil_get_left_spoon i) (record left { is_used = false; phil = none }))
            (phil_get_right_spoon i) (record right { mutex = none }))
          i tries)
    else aborts

unfoldable pub phil_eat : Table → ℕ → Spoon → Spoon → Move
phil_eat t i left right =
    if is_held_by left i && is_held_by right i
    then moves
        (record (comes_to t i releases) { eat_count = put t.eat_count i (t.eat_count i + 1) })
    else aborts

-- `philosopher_release_both_spoons`: the first lock; the second one up to the unlock of the left
-- spoon; the rest.
unfoldable pub lock_left : Table → ℕ → Spoon → Move
lock_left t i left =
    if is_set left.mutex
    then blocks
    else moves (
        comes_to (set_spoon t (phil_get_left_spoon i) (record left { mutex = some i })) i
          releases_both)

unfoldable pub release_left : Table → ℕ → Spoon → Spoon → Move
release_left t i left right =
    if is_set right.mutex
    then blocks
    else if is_held_by left i && is_held_by right i
    then moves (
        comes_to
          (cond_signal
            (set_spoon
              (set_spoon t (phil_get_left_spoon i)
                (record { is_used = false; phil = none; mutex = none }))
              (phil_get_right_spoon i) (record right { mutex = some i }))
            (phil_get_left_spoon i))
          i releases_right)
    else aborts

unfoldable pub release_right : Table → ℕ → Spoon → Move
release_right t i right = moves (
    comes_to
      (cond_signal
        (set_spoon t (phil_get_right_spoon i)
          (record { is_used = false; phil = none; mutex = none }))
        (phil_get_right_spoon i))
      i tries)

-- `philosopher_fn`: what a philosopher does next.
unfoldable pub philosopher_fn : Table → ℕ → Move
philosopher_fn t i =
    let left = t.spoon (phil_get_left_spoon i) in
    let right = t.spoon (phil_get_right_spoon i) in
    elim (t.place i) [
      | tries ↦ take_left t i left
      | waits signalled ↦ if signalled then take_left t i left else blocks
      | reaches ↦ take_right t i right
      | gives_back ↦ give_left_back t i left right
      | eats ↦ phil_eat t i left right
      | releases ↦ lock_left t i left
      | releases_both ↦ release_left t i left right
      | releases_right ↦ release_right t i right
    ]

-- Any philosopher makes its step, or a wait ends without a signal.
pub data Step (t u : Table) : Type 0 where
  acts : (i : ℕ) → i < n_philosopher → philosopher_fn t i ≡ moves u → Step t u
  spurious :
      (i : ℕ)
      → i < n_philosopher
      → t.place i ≡ waits false
      → u ≡ comes_to t i (waits true)
      → Step t u

pub data Reach (t : Table) : Table → Type 0 where
  here : Reach t t
  next : {u v : Table} → Reach t u → Step u v → Reach t v

-- `main`.
unfoldable pub start : Table
start = record {
  spoon = λ s. record { is_used = false; phil = none; mutex = none };
  place = λ i. tries;
  eat_count = λ i. 0;
}
