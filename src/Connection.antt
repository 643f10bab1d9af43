-- ===== src/Connection.antt =====
-- A PublisherSession and a SubscriberSession_Impl at the two ends of one connection
-- (publisher_session.cpp, subscriber_session_impl.cpp): what one writes, the other reads.
pub mod Recovery
pub mod Messages
pub mod System
pub mod Open
pub mod Newest
pub mod Accepting
pub mod Joining
pub mod Whole
pub mod Asynchronous
mod Examples
use tcp_pubsub.SubscriberSession
use tcp_pubsub.PublisherSession
use tcp_pubsub.Base.{
  get_or, take, drop, ℕ, ◌≡◌, refl, ap, ◌∙◌, true, false, List, [], ◌∷◌, ◌++◌, arith, sym,
}
use tcp_pubsub.SubscriberSession.{
  connect, write_handshake, header_length, SubscriberSession, on_connected, on_completed,
  operation_ends, strand_runs, on_payload, on_posted, new, start, protocol_version, Event, step,
  run,
}
use mathlib.Core.Path.{subst}
use tcp_pubsub.SubscriberSession.Runs.{run-append}
use tcp_pubsub.SubscriberSession.Receive.{arrives, Waits, message_read}
use tcp_pubsub.PublisherSession.{running, PublisherSession, canceled, read_ends}
use tcp_pubsub.PublisherSession.Handshake.{message_arrives, first_message}
use tcp_pubsub.Wire.Header.{
  protocol_handshake, sizeof_header, new_header, handshake_buffer, encode_header,
  handshake_buffer-eq, type_of-encode_header,
}
use tcp_pubsub.Wire.Endian.{Host, le_bytes}
use tcp_pubsub.Asio.{done}

-- A message as a publisher's session asks for it: the length of the header, the rest of it, and
-- the payload.
abbrev pub arrives_at_publisher : List ℕ → List PublisherSession.Event
arrives_at_publisher message =
    PublisherSession.read_ends 0 (done (take 2 message))
    ∷ PublisherSession.read_ends 0 (done (drop 2 (take sizeof_header message)))
    ∷ PublisherSession.read_ends 0 (done (drop sizeof_header message))
    ∷ []

-- The connection is there, the handshake request is to be written.
connected_lem :
    (h : Host) (i : ℕ) (s : SubscriberSession)
    → s.canceled ≡ false
    → s.operations ≡ connect i ∷ []
    → SubscriberSession.step h (operation_ends 0 (done [])) s ≡ record s {
      socket_open = true;
      connected_publisher_endpoint = get_or s.publisher_list i s.connected_publisher_endpoint;
      operations = write_handshake (handshake_buffer h) ∷ [];
    }
unfolding SubscriberSession.step on_completed on_connected
connected_lem h i s up one = ground arith

cut_handshake :
    (sender : Host)
    → arrives_at_publisher (handshake_buffer sender) ≡ message_arrives protocol_handshake 1 (0 ∷ [])
unfolding encode_header le_bytes
cut_handshake sender = rw (handshake_buffer-eq sender) refl

-- The request makes the publisher's session answer.
pub answers :
    (publisher subscriber : Host)
    → PublisherSession.run publisher
        (arrives_at_publisher (handshake_buffer subscriber))
        (PublisherSession.start PublisherSession.new)
      ≡ record PublisherSession.new {
        state = running;
        writes = handshake_buffer publisher ∷ [];
        sent = handshake_buffer publisher ∷ [];
      }
answers publisher subscriber =
    ap (λ es. PublisherSession.run publisher es (PublisherSession.start PublisherSession.new))
      (cut_handshake subscriber)
    ∙ first_message publisher protocol_handshake 1 (0 ∷ []) (omega arith) (omega arith)

written_lem :
    (h : Host) (request : List ℕ) (s : SubscriberSession)
    → s.canceled ≡ false
    → s.operations ≡ write_handshake request ∷ []
    → SubscriberSession.step h (operation_ends 0 (done [])) s
      ≡ record s { operations = header_length new_header ∷ [] }
unfolding SubscriberSession.step on_completed
written_lem h request s up one = ground arith

-- The handler of the answer posts the reading of the next message.
goes_on :
    (h : Host) (s : SubscriberSession)
    → s.canceled ≡ false
    → s.strand ≡ []
    → SubscriberSession.run h
        (strand_runs ∷ [])
        (on_payload (encode_header protocol_handshake 1) (0 ∷ []) (record s { operations = [] }))
      ≡ record s {
        operations = header_length new_header ∷ [];
        retries_left = s.max_reconnection_attempts;
      }
unfolding SubscriberSession.run SubscriberSession.step on_payload on_posted protocol_version
goes_on h s up none_posted = ground (arith, type_of-encode_header protocol_handshake 1)

-- A session that has written its request reads the answer, and waits for messages.
reads_answer :
    (publisher subscriber : Host) (request : List ℕ) (s : SubscriberSession)
    → s.canceled ≡ false
    → s.operations ≡ write_handshake request ∷ []
    → s.strand ≡ []
    → SubscriberSession.run subscriber
        (operation_ends 0 (done []) ∷ arrives (handshake_buffer publisher) ++ strand_runs ∷ [])
        s
      ≡ record s {
        operations = header_length new_header ∷ [];
        retries_left = s.max_reconnection_attempts;
      }
unfolding SubscriberSession.run
reads_answer publisher subscriber request s up one none_posted =
    let h = subscriber in
    let header = encode_header protocol_handshake 1 in
    let w : SubscriberSession = record s { operations = header_length new_header ∷ [] } in
    let waits : Waits w = record { alive = up; one_read = refl; quiet = none_posted } in
    let answer = arrives (handshake_buffer publisher) in
    ap (SubscriberSession.run h (answer ++ strand_runs ∷ [])) (written_lem h request s up one)
    ∙ run-append h answer (strand_runs ∷ []) w
    ∙ ap (λ m. SubscriberSession.run h (strand_runs ∷ []) (SubscriberSession.run h (arrives m) w))
        (handshake_buffer-eq publisher)
    ∙ ap (SubscriberSession.run h (strand_runs ∷ []))
        (message_read h protocol_handshake 1 (0 ∷ []) w (omega arith) (omega arith) waits)
    ∙ goes_on h s up none_posted

-- What a session that is about to be connected is behind the handshake.
abbrev pub connected_to : ℕ → SubscriberSession → SubscriberSession
connected_to i s = record s {
  socket_open = true;
  connected_publisher_endpoint = get_or s.publisher_list i s.connected_publisher_endpoint;
  operations = header_length new_header ∷ [];
  retries_left = s.max_reconnection_attempts;
}

-- The request is written, and the answer arrives.
abbrev pub request_and_answer : Host → List Event
request_and_answer publisher =
    operation_ends 0 (done []) ∷ arrives (handshake_buffer publisher) ++ strand_runs ∷ []

pub connects :
    (publisher subscriber : Host) (i : ℕ) (s : SubscriberSession)
    → s.canceled ≡ false
    → s.operations ≡ connect i ∷ []
    → s.strand ≡ []
    → SubscriberSession.run subscriber
        (request_and_answer publisher)
        (SubscriberSession.step subscriber (operation_ends 0 (done [])) s)
      ≡ connected_to i s
connects publisher subscriber i s up one none_posted =
    let connected : SubscriberSession = record s {
      socket_open = true;
      connected_publisher_endpoint = get_or s.publisher_list i s.connected_publisher_endpoint;
      operations = write_handshake (handshake_buffer subscriber) ∷ [];
    } in
    ap (SubscriberSession.run subscriber (request_and_answer publisher))
      (connected_lem subscriber i s up one)
    ∙ reads_answer publisher subscriber (handshake_buffer subscriber) connected up refl none_posted

-- The two ends of a connection, on hosts of any byte order: the subscriber's session writes its
-- request; the publisher's session answers it and is running; the subscriber's session takes the
-- answer without calling the callback or the closed handler, has all its retries again, and waits
-- for the first message.
handshake_completes :
    (publisher subscriber : Host) (i : ℕ) (s : SubscriberSession)
    → s.canceled ≡ false
    → s.operations ≡ connect i ∷ []
    → s.strand ≡ []
    → let request = handshake_buffer subscriber in
      let answer = handshake_buffer publisher in
      let connected = SubscriberSession.step subscriber (operation_ends 0 (done [])) s in
      let p =
        PublisherSession.run publisher
          (arrives_at_publisher request)
          (PublisherSession.start PublisherSession.new) in
      let t =
        SubscriberSession.run subscriber
          (operation_ends 0 (done []) ∷ arrives answer ++ strand_runs ∷ [])
          connected in
      (connected.operations ≡ write_handshake request ∷ [])
      × (p.state ≡ running)
      × (p.sent ≡ answer ∷ [])
      × (p.closed_calls ≡ 0)
      × Waits t
      × (t.delivered ≡ s.delivered)
      × (t.closed_calls ≡ s.closed_calls)
      × (t.retries_left ≡ s.max_reconnection_attempts)
unfolding PublisherSession.new
handshake_completes publisher subscriber i s up one none_posted =
    let first = connected_lem subscriber i s up one in
    let other = answers publisher subscriber in
    let last = connects publisher subscriber i s up one none_posted in
    (
      ap (λ r. r.operations) first,
      ap (λ r. r.state) other,
      ap (λ r. r.sent) other,
      ap (λ r. r.closed_calls) other,
      subst Waits (sym last) (record { alive = up; one_read = refl; quiet = none_posted }),
      ap (λ r. r.delivered) last,
      ap (λ r. r.closed_calls) last,
      ap (λ r. r.retries_left) last,
    )
