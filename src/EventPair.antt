-- ===== src/EventPair.antt =====
-- ThreadSyncAdv/threadlib/threadlib.c, the event pair: a server and a client that hand a shared
-- memory to each other by POSIX semaphores, with the server and the client of the file's example.
-- A semaphore is its value; the client's `exit` is left out.
pub mod Turns
pub mod Tests
use multithreading_bible.Common.{ℕ, zero, suc, ◌+◌, ◌≡◌, Option, none, some}

-- `event_pair_t`.
pub record EventPair : Type 0 where
  pub client_sem0 : ℕ
  pub server_sem0 : ℕ
  pub initial_sync_sem0 : ℕ

-- `sem_wait`: `none` while the caller blocks.
abbrev pub sem_wait : ℕ → Option ℕ
sem_wait zero = none
sem_wait (suc n) = some n

unfoldable pub event_pair_server_init : EventPair → EventPair
event_pair_server_init ep = record ep { server_sem0 = 0; initial_sync_sem0 = 0 }

unfoldable pub event_pair_client_init : EventPair → EventPair
event_pair_client_init ep = record ep { client_sem0 = 0 }

unfoldable pub event_pair_server_wait : EventPair → Option EventPair
event_pair_server_wait ep = elim (sem_wait ep.server_sem0) [
  | none ↦ none
  | some n ↦ some (record ep { server_sem0 = n })
]

unfoldable pub event_pair_client_wait : EventPair → Option EventPair
event_pair_client_wait ep = elim (sem_wait ep.client_sem0) [
  | none ↦ none
  | some n ↦ some (record ep { client_sem0 = n })
]

unfoldable pub event_pair_server_handoff : EventPair → EventPair
event_pair_server_handoff ep = record ep { client_sem0 = ep.client_sem0 + 1 }

unfoldable pub event_pair_client_handoff : EventPair → EventPair
event_pair_client_handoff ep = record ep { server_sem0 = ep.server_sem0 + 1 }

unfoldable pub event_pair_initial_sync_wait : EventPair → Option EventPair
event_pair_initial_sync_wait ep = elim (sem_wait ep.initial_sync_sem0) [
  | none ↦ none
  | some n ↦ some (record ep { initial_sync_sem0 = n })
]

unfoldable pub event_pair_initial_sync_signal : EventPair → EventPair
event_pair_initial_sync_signal ep = record ep { initial_sync_sem0 = ep.initial_sync_sem0 + 1 }

-- Where the server is: before its signal; at its wait; between its wait and its handoff.
pub data Server : Type 0 where
  starting : Server
  listening : Server
  serving : Server

-- Where the client is: `main` waits for the server; `main` is past that; the client before its
-- handoff; at its wait.
pub data Client : Type 0 where
  absent : Client
  announced : Client
  requesting : Client
  expecting : Client

pub record World : Type 0 where
  pub ep : EventPair
  pub server : Server
  pub client : Client

-- Each party up to the next point of these; `none`: it blocks.
unfoldable pub server_step : World → Option World
server_step w = elim w.server [
  | starting ↦ some (record w { ep = event_pair_initial_sync_signal w.ep; server = listening })
  | listening ↦ elim (event_pair_server_wait w.ep) [
    | none ↦ none
    | some ep ↦ some (record w { ep = ep; server = serving })
  ]
  | serving ↦ some (record w { ep = event_pair_server_handoff w.ep; server = listening })
]

unfoldable pub client_step : World → Option World
client_step w = elim w.client [
  | absent ↦ elim (event_pair_initial_sync_wait w.ep) [
    | none ↦ none
    | some ep ↦ some (record w { ep = ep; client = announced })
  ]
  | announced ↦ some (record w { ep = event_pair_client_init w.ep; client = requesting })
  | requesting ↦ some (record w { ep = event_pair_client_handoff w.ep; client = expecting })
  | expecting ↦ elim (event_pair_client_wait w.ep) [
    | none ↦ none
    | some ep ↦ some (record w { ep = ep; client = requesting })
  ]
]

pub data Step (x y : World) : Type 0 where
  serves : server_step x ≡ some y → Step x y
  calls : client_step x ≡ some y → Step x y

pub data Reach (x : World) : World → Type 0 where
  here : Reach x x
  next : {y z : World} → Reach x y → Step y z → Reach x z

-- `main` initialises the pair, in memory of any content, and starts the server.
unfoldable pub start : EventPair → World
start ep = record { ep = event_pair_server_init ep; server = starting; client = absent }
