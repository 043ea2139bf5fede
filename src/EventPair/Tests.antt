-- ===== src/EventPair/Tests.antt =====
-- Runs of the event pair.
use multithreading_bible.Common.{◌+◌, ◌≡◌, ◌≤◌, none, refl}
use multithreading_bible.EventPair.{
  EventPair, listening, absent, requesting, expecting, World, server_step, client_step, Step,
  serves, calls, Reach, here, next, start, event_pair_server_init, event_pair_client_init,
  event_pair_client_wait, event_pair_client_handoff, event_pair_initial_sync_wait,
  event_pair_initial_sync_signal,
}
use multithreading_bible.EventPair.Turns.{at_work, preparing, turns_taken}

-- Memory that is not zeroed.
abbrev memory : EventPair
memory = record { client_sem0 = 5; server_sem0 = 6; initial_sync_sem0 = 7 }

abbrev met : World
met = record {
  ep = record { client_sem0 = 5; server_sem0 = 0; initial_sync_sem0 = 1 };
  server = listening;
  client = absent;
}

abbrev ready : World
ready = record {
  ep = record { client_sem0 = 0; server_sem0 = 0; initial_sync_sem0 = 0 };
  server = listening;
  client = requesting;
}

abbrev requested : World
requested = record ready {
  ep = record { client_sem0 = 0; server_sem0 = 1; initial_sync_sem0 = 0 };
  client = expecting;
}

-- The client blocks until the server has answered.
expecting_blocks : client_step requested ≡ none
unfolding client_step event_pair_client_wait
expecting_blocks = refl

run_met : Reach (start memory) met
unfolding start event_pair_server_init server_step event_pair_initial_sync_signal
run_met = next here (serves refl)

run_ready : Reach (start memory) ready
unfolding client_step event_pair_initial_sync_wait event_pair_client_init
run_ready = next (next run_met (calls refl)) (calls refl)

run_requested : Reach (start memory) requested
unfolding client_step event_pair_client_handoff
run_requested = next run_ready (calls refl)

turns_taken_example :
    (at_work listening + preparing expecting ≤ 1) × ((y : World) × Step requested y)
turns_taken_example = turns_taken memory run_requested
