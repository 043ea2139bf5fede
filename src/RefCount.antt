-- ===== src/RefCount.antt =====
-- CRUD/refcount.c and refcount.h: how many uses of an object there are. Every function is one section
-- under the spinlock, so that threads take turns by whole calls.
pub mod Users
pub mod Tests
use multithreading_bible.Common.{
  ℕ, ◌+◌, ◌-◌, ◌%◌, ◌^◌, ◌≡◌, ◌<◌, Bool, true, false, Option, none, some, ◌==◌, if◌then◌else◌,
}
use multithreading_bible.Common.Sums.{put, sum_below}

-- `ref_count_t`; the count is a `uint32_t`.
pub record RefCount : Type 0 where
  pub ref_count : ℕ

abbrev pub ref_count_init : RefCount → RefCount
ref_count_init m = record m { ref_count = 0 }

unfoldable pub ref_count_inc : RefCount → RefCount
ref_count_inc m = record m { ref_count = (m.ref_count + 1) % 2 ^ 32 }

-- `none`: an `assert` fails.
unfoldable pub ref_count_dec : RefCount → Option (Bool × RefCount)
ref_count_dec m =
    if m.ref_count == 0
    then none
    else some (m.ref_count - 1 == 0, record m { ref_count = m.ref_count - 1 })

unfoldable pub ref_count_destroy : RefCount → Option RefCount
ref_count_destroy m = if m.ref_count == 0 then some m else none

abbrev pub thread_using_object : RefCount → RefCount
thread_using_object m = ref_count_inc m

abbrev pub thread_using_object_done : RefCount → Option (Bool × RefCount)
thread_using_object_done m = ref_count_dec m

-- The count, and how many uses each thread has that it is not done with.
pub record World : Type 0 where
  pub state : RefCount
  pub uses : ℕ → ℕ

-- Of `n` threads one begins a use, while there are fewer than 2^32 - 1, or is done with one of its own.
pub data Step (n : ℕ) (x : World) : World → Type 0 where
  begins :
      {y : World} (i : ℕ)
      → i < n
      → sum_below n x.uses + 1 < 2 ^ 32
      → y ≡ record { state = thread_using_object x.state; uses = put x.uses i (x.uses i + 1) }
      → Step n x y
  ends :
      {y : World} (i : ℕ) (m : RefCount) (last : Bool)
      → i < n
      → 0 < x.uses i
      → thread_using_object_done x.state ≡ some (last, m)
      → y ≡ record { state = m; uses = put x.uses i (x.uses i - 1) }
      → Step n x y

pub data Reach (n : ℕ) (x : World) : World → Type 0 where
  here : Reach n x x
  next : {y z : World} → Reach n x y → Step n y z → Reach n x z

unfoldable pub start : RefCount → World
start m = record { state = ref_count_init m; uses = λ i. 0 }
