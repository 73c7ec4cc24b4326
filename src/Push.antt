-- ===== src/Push.antt =====
-- How a change of a job in etcd reaches the workers: the watch handlers of the master and its sending
-- to all clients (backend/master/sockets/watchJobs.go, watchKill.go, app.go), and the reading of
-- messages on a worker (backend/worker/socket.go).
pub mod Delivery
pub mod Follow
pub mod Kill
pub mod Stored
pub mod Snapshot
pub mod Concrete
mod Tests
use cronjob.Base.{
  ℕ, zero, suc, ◌+◌, ◌≡◌, Bool, true, false, Option, none, some, List, [], ◌∷◌, ◌++◌, ◌&&◌, ltb,
  length, map, if◌then◌else◌, Text, codes, text_eq, decimal,
}
use cronjob.Base.Int.{ℤ, pos}
use cronjob.Base.Time.{zero_time}
use cronjob.Data.{JobEtcd, EventType, JobEvent}
use cronjob.Packet.{Bytes, packet_data, unpacket_data}

-- `MessageEvent`
pub record MessageEvent : Type 0 where
  pub category : Text
  pub body : Bytes

-- `JobKill`, the fields that are read.
pub record JobKill : Type 0 where
  pub category : Text
  pub job_id : ℕ

-- The package encoding/json on the types of the messages; what was marshalled can be read back.
pub record Json : Type 0 where
  pub decode_job : Bytes → Option JobEtcd
  pub decode_kill : Bytes → Option JobKill
  pub encode_event : JobEvent → Bytes
  pub decode_event : Bytes → Option JobEvent
  pub encode_message : MessageEvent → Bytes
  pub decode_message : Bytes → Option MessageEvent
  pub event_back : (e : JobEvent) → decode_event (encode_event e) ≡ some e
  pub message_back : (m : MessageEvent) → decode_message (encode_message m) ≡ some m

-- An event of etcd: a key gets a value, or a key is deleted, with its value before if etcd has it.
pub data WatchEvent : Type 0 where
  put : Text → Bytes → WatchEvent
  delete : Text → Option Bytes → WatchEvent

-- The event of a kill; the fields that are not set have their zero values.
abbrev pub kill_event : JobKill → JobEvent
kill_event k = record {
  event = EventType.kill;
  job = record {
    id = k.job_id;
    created_at = zero_time;
    category = k.category;
    name = decimal k.job_id;
    time = [];
    command = [];
    description = [];
    is_active = false;
    save_output = false;
    timeout = pos 0;
  };
}

-- What a watch handler does with an event; the value of a missing pair is a nil pointer.
pub data Turn : Type 0 where
  quiet : Turn
  pushed : JobEvent → Turn
  panicked : Turn

module _ (json : Json) where
  open json use {
    decode_job, decode_kill, encode_event, decode_event, encode_message, decode_message,
  }

  abbrev pub job_turn : EventType → Option JobEtcd → Turn
  job_turn t none = quiet
  job_turn t (some job) = pushed (record { event = t; job = job })

  -- The body of the loop of `WatchJobsHandler.HandlerWatchChan`.
  unfoldable pub watch_job : WatchEvent → Turn
  watch_job (put key value) = job_turn EventType.put (decode_job value)
  watch_job (delete key none) = panicked
  watch_job (delete key (some value)) = job_turn EventType.delete (decode_job value)

  abbrev pub kill_turn : Option JobKill → Turn
  kill_turn none = quiet
  kill_turn (some k) = pushed (kill_event k)

  -- The body of the loop of `WatchKillHandler.HandlerWatchChan`.
  unfoldable pub watch_kill : WatchEvent → Turn
  watch_kill (put key value) = kill_turn (decode_kill value)
  watch_kill (delete key prev) = quiet

  abbrev pub message_event : Text → JobEvent → MessageEvent
  message_event category e = record { category = category; body = encode_event e }

  -- `pushMessageEventToAllClients`: what is written to each client. A write that fails is only logged.
  unfoldable pub push_message_event_to_all_clients :
      Text → JobEvent → List Text → List (Text × Bytes)
  push_message_event_to_all_clients category e clients =
      map (λ client. (client, packet_data (encode_message (message_event category e)))) clients

  -- What a turn writes before what the later ones write; a panic ends the loop.
  abbrev pub push_turn : Turn → List Text → List (Text × Bytes) → List (Text × Bytes)
  push_turn quiet clients rest = rest
  push_turn (pushed e) clients rest =
      push_message_event_to_all_clients (codes "jobEvent") e clients ++ rest
  push_turn panicked clients rest = []

  -- The loop of a handler: what is written to the clients, up to the first panic.
  unfoldable pub handler_watch_chan :
      (WatchEvent → Turn) → List WatchEvent → List Text → List (Text × Bytes)
  unfolding push_message_event_to_all_clients
  handler_watch_chan handle [] clients = []
  handler_watch_chan handle (e ∷ es) clients =
      push_turn (handle e) clients (handler_watch_chan handle es clients)

  abbrev event_in : Option MessageEvent → Option JobEvent
  event_in none = none
  event_in (some m) = if text_eq m.category (codes "jobEvent") then decode_event m.body else none

  -- A turn of the worker's `consuleMessage`: the event that it hands to the scheduler.
  unfoldable pub consume_message : Bytes → Option JobEvent
  unfolding text_eq
  consume_message bytes = event_in (decode_message bytes)

  abbrev pub consume_all : List Bytes → List JobEvent
  consume_all [] = []
  consume_all (m ∷ ms) =
      let rest = consume_all ms in elim (consume_message m) [ none ↦ rest | some e ↦ e ∷ rest ]

  -- A turn of the worker's `ReadeLoop` on a text message: the events that its packets carry. `spare`
  -- lies behind the data in the array that `append` makes; the buffer stays empty.
  unfoldable pub read_turn : Bytes → Bytes → List JobEvent
  unfolding unpacket_data consume_message
  read_turn spare bytes =
      if ltb 0 (length bytes) then consume_all (unpacket_data spare bytes).sent else []

  -- The loop, over the messages that are written to this worker.
  unfoldable pub reade_loop : (ℕ → Bytes) → List Bytes → List JobEvent
  unfolding read_turn
  reade_loop spares [] = []
  reade_loop spares (d ∷ ds) = read_turn (spares 0) d ++ reade_loop (λ n. spares (suc n)) ds
