-- ===== src/Pause/Stuck.antt =====
-- Who is paused stays paused.
use multithreading_bible.Common.{ℕ, ◌≡◌, true, some, arith, refl, ◌∙◌, subst}
use multithreading_bible.Common.Sums.{put}
use multithreading_bible.Pause.{
  Point, paused, pauses, Call, pause, resume, test_and_pause, Section, returns, waits, aborts,
  thread_pause, thread_resume, thread_test_and_pause, go_on, thread_destroy_pause_struct, enter,
  outside, asleep, World, passes, passes_on, after, Step, calls, goes_on, wakes, Reach, here, next,
}

-- The request to pause is as in `x`, and nobody has passed a pause point since.
record Held (x y : World) : Type 0 where
  requested : y.state.should_pause ≡ true
  same_passed : (i : ℕ) → y.passed i ≡ x.passed i

-- A count that is put back as it was.
put_same : (f : ℕ → ℕ) (i k : ℕ) → k ≡ f i → (j : ℕ) → put f i k j ≡ f j
put_same f i k e j = ground (arith, e)

-- What a section leaves, where it leaves the request and the count.
Leaves : World → ℕ → ℕ → Section → Type 0
Leaves x i k (returns m s) = (m.should_pause ≡ true) × (k ≡ x.passed i)
Leaves x i k (waits m s c p) = m.should_pause ≡ true
Leaves x i k aborts = Unit

enter-Leaves :
    (x : World) (i : ℕ) (c : Call)
    → x.state.should_pause ≡ true
    → Leaves x i (passes c (x.passed i)) (enter x.state c)
unfolding enter thread_pause thread_resume thread_test_and_pause Leaves
enter-Leaves x i pause e = rw e (refl, refl)
enter-Leaves x i resume e = (e, refl)
enter-Leaves x i test_and_pause e = rw e refl

go_on-Leaves :
    (x : World) (i : ℕ) (p : Point)
    → x.state.should_pause ≡ true
    → Leaves x i (passes_on p (x.passed i)) (go_on x.state p)
unfolding go_on Leaves
go_on-Leaves x i paused e = rw e refl
go_on-Leaves x i pauses e = (e, refl)

after-Held :
    (x : World) {y : World} (i k : ℕ) (s : Section)
    → Leaves x i k s
    → after x i k s ≡ some y
    → Held x y
unfolding after Leaves
after-Held x {y} i k (returns m s) (e, same) a =
    subst (Held x)
      {x = record { state = m; place = put x.place i outside; passed = put x.passed i k }} {y = y}
      (cc a) (record { requested = e; same_passed = put_same x.passed i k same })
after-Held x {y} i k (waits m s c p) e a =
    subst (Held x) {x = record x { state = m; place = put x.place i (asleep c p) }} {y = y} (cc a)
      (record { requested = e; same_passed = λ j. refl })
after-Held x {y} i k aborts e a = absurd (cc)

Step-Held : {x y : World} → Step x y → x.state.should_pause ≡ true → Held x y
Step-Held {x} (calls i c at a) e = after-Held x i _ (enter x.state c) (enter-Leaves x i c e) a
Step-Held {x} (goes_on i p at a) e = after-Held x i _ (go_on x.state p) (go_on-Leaves x i p e) a
Step-Held {x} (wakes i c p at a) e = rw a (record { requested = e; same_passed = λ j. refl })

-- Once a thread has asked for a pause, the request stands in every later state, so that destroying
-- the object fails its `assert`, and no call of `thread_test_and_pause` returns any more: not after
-- any calls of `thread_resume`, and whenever the threads wake.
pub paused_for_ever :
    {x y : World} (i : ℕ)
    → x.state.should_pause ≡ true
    → Reach x y
    → (thread_destroy_pause_struct y.state ≡ aborts) × (y.passed i ≡ x.passed i)
unfolding thread_destroy_pause_struct
paused_for_ever {x} {y} i e reach =
    let held = all reach in (rw held.requested refl, held.same_passed i)
  where
    all : {y : World} → Reach x y → Held x y
    all here = record { requested = e; same_passed = λ i. refl }
    all (next r step) =
        let before = all r in
        let held = Step-Held step before.requested in
        record {
          requested = held.requested;
          same_passed = λ i. held.same_passed i ∙ before.same_passed i;
        }
