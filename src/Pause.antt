-- ===== src/Pause.antt =====
-- ThreadPausing/thread_pause.c and thread_pause.h: a thread asks others to pause at their pause
-- points. A section runs from a lock, or the return of a wait, to the next wait or unlock. A thread
-- that waits may wake at any time, so that what is proved holds whomever the signals wake.
pub mod Stuck
pub mod Tests
use multithreading_bible.Common.{
  ℕ, ◌+◌, ◌≡◌, Bool, true, false, not, Option, none, some, if◌then◌else◌,
}
use multithreading_bible.Common.Sums.{put}

-- `thread_pause_struct_t`.
pub record ThreadPause : Type 0 where
  pub should_pause : Bool

pub data Cv : Type 0 where
  pause_cv : Cv
  notif_cv : Cv

-- The waits: in the loop of `thread_test_and_pause`, and in `thread_pause`.
pub data Point : Type 0 where
  paused : Point
  pauses : Point

pub data Call : Type 0 where
  pause : Call
  resume : Call
  test_and_pause : Call

-- What a section does: it returns or waits, and which condition variable it signals.
pub data Section : Type 0 where
  returns : ThreadPause → Option Cv → Section
  waits : ThreadPause → Option Cv → Cv → Point → Section
  aborts : Section

pub thread_pause_struct_init : ThreadPause → ThreadPause
thread_pause_struct_init m = record m { should_pause = false }

unfoldable pub thread_pause : ThreadPause → Section
thread_pause m =
    if m.should_pause
    then returns m none
    else waits (record m { should_pause = true }) none notif_cv pauses

unfoldable pub thread_resume : ThreadPause → Section
thread_resume m = returns m (some pause_cv)

unfoldable pub thread_test_and_pause : ThreadPause → Section
thread_test_and_pause m =
    if m.should_pause then waits m (some notif_cv) pause_cv paused else returns m none

-- The rest of a call after its wait: the loop of `thread_test_and_pause`; `thread_pause` has none.
unfoldable pub go_on : ThreadPause → Point → Section
go_on m paused = if m.should_pause then waits m none pause_cv paused else returns m none
go_on m pauses = returns m none

unfoldable pub thread_destroy_pause_struct : ThreadPause → Section
thread_destroy_pause_struct m = if not m.should_pause then returns m none else aborts

unfoldable pub enter : ThreadPause → Call → Section
enter m pause = thread_pause m
enter m resume = thread_resume m
enter m test_and_pause = thread_test_and_pause m

pub data Place : Type 0 where
  outside : Place
  asleep : Cv → Point → Place
  woken : Point → Place

-- The threads, and how often the calls of `thread_test_and_pause` of each have returned.
pub record World : Type 0 where
  pub state : ThreadPause
  pub place : ℕ → Place
  pub passed : ℕ → ℕ

-- The pause points passed once a call, or a call that has waited, returns.
abbrev pub passes : Call → ℕ → ℕ
passes pause n = n
passes resume n = n
passes test_and_pause n = n + 1

abbrev pub passes_on : Point → ℕ → ℕ
passes_on paused n = n + 1
passes_on pauses n = n

-- Thread `i` after its section, which leaves it the count `k` if it returns; nothing runs after an
-- `assert` that fails.
unfoldable pub after : World → ℕ → ℕ → Section → Option World
after w i k (returns m s) =
    some (record { state = m; place = put w.place i outside; passed = put w.passed i k })
after w i k (waits m s c p) = some (record w { state = m; place = put w.place i (asleep c p) })
after w i k aborts = none

pub data Step (x : World) : World → Type 0 where
  calls :
      {y : World} (i : ℕ) (c : Call)
      → x.place i ≡ outside
      → after x i (passes c (x.passed i)) (enter x.state c) ≡ some y
      → Step x y
  goes_on :
      {y : World} (i : ℕ) (p : Point)
      → x.place i ≡ woken p
      → after x i (passes_on p (x.passed i)) (go_on x.state p) ≡ some y
      → Step x y
  wakes :
      {y : World} (i : ℕ) (c : Cv) (p : Point)
      → x.place i ≡ asleep c p
      → y ≡ record x { place = put x.place i (woken p) }
      → Step x y

pub data Reach (x : World) : World → Type 0 where
  here : Reach x x
  next : {y z : World} → Reach x y → Step y z → Reach x z
