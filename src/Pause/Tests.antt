-- ===== src/Pause/Tests.antt =====
-- A thread passes a pause point, another asks for a pause, and a resume wakes the first in vain.
use multithreading_bible.Common.{ℕ, ◌≡◌, true, refl}
use multithreading_bible.Common.Sums.{put}
use multithreading_bible.Pause.{
  pause_cv, notif_cv, paused, pauses, resume, test_and_pause, aborts, thread_pause, thread_resume,
  thread_test_and_pause, go_on, thread_destroy_pause_struct, enter, Place, outside, asleep, woken,
  World, after, calls, goes_on, wakes, Reach, here, next,
}
use multithreading_bible.Pause.Stuck.{paused_for_ever}

abbrev places : Place → Place → ℕ → Place
places p q = put (put (λ _. outside) 1 q) 0 p

-- Thread 0 has passed its first pause point, and thread 1 has asked for a pause.
abbrev asked : Place → World
asked p = record {
  state = record { should_pause = true };
  place = places p (asleep notif_cv pauses);
  passed = put (λ _. 0) 0 1;
}

-- `put` at one index, from `f`.
abbrev step_to : (ℕ → Place) → ℕ → Place → World
step_to f i p = record {
  state = record { should_pause = true };
  place = put f i p;
  passed = put (λ _. 0) 0 1;
}

abbrev at_pause_point : World
at_pause_point = step_to (asked outside).place 0 (asleep pause_cv paused)

abbrev after_resume : World
after_resume = record at_pause_point {
  place = put at_pause_point.place 2 outside;
  passed = put at_pause_point.passed 2 0;
}

abbrev awake : World
awake = record after_resume { place = put after_resume.place 0 (woken paused) }

abbrev paused_again : World
paused_again = record awake { place = put awake.place 0 (asleep pause_cv paused) }

resumed : Reach (asked outside) paused_again
unfolding after enter thread_pause thread_resume thread_test_and_pause go_on
resumed =
    next {y = awake}
      (next {y = after_resume}
        (next {y = at_pause_point} (next here (calls 0 test_and_pause refl refl))
          (calls 2 resume refl refl))
        (wakes 0 pause_cv paused refl refl))
      (goes_on 0 paused refl refl)

paused_for_ever_example :
    (thread_destroy_pause_struct paused_again.state ≡ aborts)
    × (paused_again.passed 0 ≡ (asked outside).passed 0)
paused_for_ever_example = paused_for_ever 0 refl resumed
