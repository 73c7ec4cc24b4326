-- ===== src/Push/Delivery.antt =====
-- Pushed events on their way to a worker (backend/master/sockets/app.go, backend/worker/socket.go).
use cronjob.Base.{
  ℕ, suc, ◌≤◌, ◌≡◌, refl, ap, ◌∙◌, true, some, List, [], ◌∷◌, ◌++◌, length, map, Text, codes, arith,
  ltb, lt→ltb, text_eq, All,
}
use cronjob.Data.{JobEvent}
use cronjob.Packet.{Bytes, packet_data, Unpacked}
use cronjob.Packet.RoundTrip.{unpacket-packet}
use cronjob.Push.{
  Json, message_event, WatchEvent, Turn, quiet, pushed, panicked, push_turn,
  push_message_event_to_all_clients, handler_watch_chan, consume_message, consume_all, read_turn,
  reade_loop,
}

packet_not_empty : (m : Bytes) → ltb 0 (length (packet_data m)) ≡ true
unfolding packet_data
packet_not_empty m = lt→ltb 0 _ (omega arith)

module _ (json : Json) where
  open json use {
    encode_event, encode_message, decode_message, decode_event, event_back, message_back,
  }

  -- The message of an event.
  abbrev pub message_of : JobEvent → Bytes
  message_of e = encode_message (message_event json (codes "jobEvent") e)

  -- `BinaryToInt` takes no longer message.
  abbrev pub Fits : JobEvent → Type 0
  Fits e = (1 ≤ length (message_of e)) × (length (message_of e) ≤ 65535)

  consume_message-message_of : (e : JobEvent) → consume_message json (message_of e) ≡ some e
  unfolding consume_message text_eq
  consume_message-message_of e = rw message_back (event_back e)

  consume_all-one :
      (m : Bytes) (e : JobEvent)
      → consume_message json m ≡ some e
      → consume_all json (m ∷ []) ≡ e ∷ []
  consume_all-one m e found = rw (found, consume_all) refl

  -- A packet of an event that fits is read as the event, whatever bytes lie behind it.
  pub read_turn-packet :
      (spare : Bytes) (e : JobEvent)
      → Fits e
      → read_turn json spare (packet_data (message_of e)) ≡ e ∷ []
  unfolding read_turn
  read_turn-packet spare e (pos, small) = rw (packet_not_empty (message_of e)) (
      ap (λ (u : Unpacked). consume_all json u.sent)
        (unpacket-packet (message_of e) spare pos small)
      ∙ consume_all-one (message_of e) e (consume_message-message_of e))

  -- The messages that a handler writes to one client.
  abbrev pub to_client : Text → List WatchEvent → (WatchEvent → Turn) → List Bytes
  to_client client es handle = map (λ p. p.1) (handler_watch_chan json handle es (client ∷ []))

  abbrev pub event_of : Turn → List JobEvent → List JobEvent
  event_of quiet rest = rest
  event_of (pushed e) rest = e ∷ rest
  event_of panicked rest = []

  -- The events that a handler pushes, up to the first panic.
  abbrev pub pushed_events : (WatchEvent → Turn) → List WatchEvent → List JobEvent
  pushed_events handle [] = []
  pushed_events handle (e ∷ es) = event_of (handle e) (pushed_events handle es)

  reade_loop-push_turn :
      (t : Turn) (client : Text) (spares : ℕ → Bytes) (rest : List (Text × Bytes))
      (events : List JobEvent)
      → All Fits (event_of t events)
      → ((spares : ℕ → Bytes)
          → All Fits events
          → reade_loop json spares (map (λ p. p.1) rest) ≡ events)
      → reade_loop json spares (map (λ p. p.1) (push_turn json t (client ∷ []) rest))
        ≡ event_of t events
  unfolding reade_loop push_message_event_to_all_clients
  reade_loop-push_turn quiet client spares rest events fit later = later spares fit
  reade_loop-push_turn (pushed e) client spares rest events fit later =
      ap (λ r. r ++ reade_loop json (λ n. spares (suc n)) (map (λ p. p.1) rest))
        (read_turn-packet (spares 0) e fit.0)
      ∙ ap (λ r. e ∷ r) (later (λ n. spares (suc n)) fit.1)
  reade_loop-push_turn panicked client spares rest events fit later = refl

  -- What a handler of the master pushes is what each connected worker hands to its scheduler, in
  -- that order, if every message has 1 to 65535 bytes and each is one message of the socket.
  pub worker_receives_events :
      (handle : WatchEvent → Turn) (client : Text) (spares : ℕ → Bytes) (es : List WatchEvent)
      → All Fits (pushed_events handle es)
      → reade_loop json spares (to_client client es handle) ≡ pushed_events handle es
  unfolding reade_loop handler_watch_chan
  worker_receives_events handle client spares [] fit = refl
  worker_receives_events handle client spares (e ∷ es) fit =
      reade_loop-push_turn (handle e) client spares
        (handler_watch_chan json handle es (client ∷ [])) (pushed_events handle es) fit
        (λ spares' fit'. worker_receives_events handle client spares' es fit')
