-- ===== src/EventPair/Turns.antt =====
-- The server and the client take turns with the shared memory, and one of them can always go on.
use multithreading_bible.Common.{ℕ, zero, suc, ◌+◌, ◌≡◌, ◌≤◌, some, arith, refl}
use multithreading_bible.EventPair.{
  EventPair, Server, starting, listening, serving, Client, absent, announced, requesting, expecting,
  World, server_step, client_step, Step, serves, calls, Reach, here, next, start,
  event_pair_server_init, event_pair_client_init, event_pair_server_wait, event_pair_client_wait,
  event_pair_server_handoff, event_pair_client_handoff, event_pair_initial_sync_wait,
  event_pair_initial_sync_signal,
}

-- Who has the shared memory, and who has not come to the meeting yet.
abbrev pub at_work : Server → ℕ
at_work starting = 0
at_work listening = 0
at_work serving = 1

abbrev pub preparing : Client → ℕ
preparing absent = 0
preparing announced = 0
preparing requesting = 1
preparing expecting = 0

abbrev late : Server → ℕ
late starting = 1
late listening = 0
late serving = 0

abbrev met : Client → ℕ
met absent = 0
met announced = 1
met requesting = 1
met expecting = 1

-- Before the client starts, nobody works and nothing is handed off to the server; from then on
-- there is one turn, in the hands of a party or of a semaphore.
Turn : World → Client → Type 0
Turn w absent = w.ep.server_sem0 + at_work w.server ≡ 0
Turn w announced = w.ep.server_sem0 + at_work w.server ≡ 0
Turn w requesting = w.ep.server_sem0 + at_work w.server + w.ep.client_sem0 ≡ 0
Turn w expecting = w.ep.server_sem0 + at_work w.server + w.ep.client_sem0 ≡ 1

record Inv (w : World) : Type 0 where
  meeting : late w.server + w.ep.initial_sync_sem0 + met w.client ≡ 1
  turn : Turn w w.client

start-Inv : (ep : EventPair) → Inv (start ep)
unfolding start event_pair_server_init Turn
start-Inv ep = record { meeting = omega arith; turn = omega arith }

server_keeps : (x : World) {y : World} → server_step x ≡ some y → Inv x → Inv y
unfolding server_step event_pair_server_wait event_pair_server_handoff
    event_pair_initial_sync_signal Turn
server_keeps x e inv = record { meeting = ground (arith, inv); turn = ground (arith, inv) }

client_keeps : (x : World) {y : World} → client_step x ≡ some y → Inv x → Inv y
unfolding client_step event_pair_client_wait event_pair_client_handoff event_pair_client_init
    event_pair_initial_sync_wait Turn
client_keeps x e inv = record { meeting = ground (arith, inv); turn = ground (arith, inv) }

Reach-Inv : (ep : EventPair) {x : World} → Reach (start ep) x → Inv x
Reach-Inv ep here = start-Inv ep
Reach-Inv ep (next {y} reach (serves e)) = server_keeps y e (Reach-Inv ep reach)
Reach-Inv ep (next {y} reach (calls e)) = client_keeps y e (Reach-Inv ep reach)

-- A party at a semaphore of 0 blocks; where both would, nobody has the turn.
abbrev at_point : Server → Client → ℕ → ℕ → ℕ → World
at_point s c ready request answer = record {
  ep = record { client_sem0 = answer; server_sem0 = request; initial_sync_sem0 = ready };
  server = s;
  client = c;
}

moves :
    (s : Server) (c : Client) (ready request answer : ℕ)
    → Inv (at_point s c ready request answer)
    → (y : World) × Step (at_point s c ready request answer) y
unfolding Turn server_step client_step event_pair_server_wait event_pair_client_wait
    event_pair_initial_sync_wait
moves starting c ready request answer inv = (_, serves refl)
moves serving c ready request answer inv = (_, serves refl)
moves listening c ready (suc request) answer inv = (_, serves refl)
moves listening absent (suc ready) zero answer inv = (_, calls refl)
moves listening absent zero zero answer inv = absurd (omega (arith, inv.meeting))
moves listening announced ready zero answer inv = (_, calls refl)
moves listening requesting ready zero answer inv = (_, calls refl)
moves listening expecting ready zero (suc answer) inv = (_, calls refl)
moves listening expecting ready zero zero inv = absurd (omega (arith, inv.turn))

-- From any content of the pair's memory, and however the server and the client of the example take
-- turns: the client never prepares a request while the server works on one, and one of the two can
-- always go on, so that they never both block.
pub turns_taken :
    (ep : EventPair) {x : World}
    → Reach (start ep) x
    → (at_work x.server + preparing x.client ≤ 1) × ((y : World) × Step x y)
unfolding Turn
turns_taken ep {x} reach =
    let inv = Reach-Inv ep reach in
    (
      ground (arith, inv),
      moves x.server x.client x.ep.initial_sync_sem0 x.ep.server_sem0 x.ep.client_sem0 inv,
    )
