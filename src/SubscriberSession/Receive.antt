-- ===== src/SubscriberSession/Receive.antt =====
-- SubscriberSession: a message on the stream, from its first byte to the callback.
use tcp_pubsub.Base.{
  length, take, drop, ℕ, ◌^◌, ◌<◌, ◌≡◌, refl, false, List, [], ◌∷◌, ◌++◌, arith, ◌+◌, sym, ap, ◌∙◌,
  Option, append-nil, append_assoc,
}
use tcp_pubsub.Asio.{done}
use tcp_pubsub.SubscriberSession.Runs.{run-append}
use tcp_pubsub.Wire.Endian.{Host, le_bytes}
use tcp_pubsub.Wire.Header.{
  write_at, regular_payload, sizeof_header, new_header, encode_header, encode_header_fields,
  type_of-encode_header, assembled_header, encoded_lengths, data_size_raw-eq_zero,
}
use tcp_pubsub.SubscriberSession.{
  header_length, header_content, payload, SubscriberSession, on_payload, on_completed, on_posted,
  Event, operation_ends, strand_runs, step, run, Callback,
}
use tcp_pubsub.Publisher.Message.{Payload, prepare_buffer, AllGiven}
use tcp_pubsub.Publisher.Message.Content.{prepare_buffer-eq}

-- The three reads of a message and the handlers posted at its end. The message is cut where the
-- session asks for bytes: the length of its header, the rest of it, and the payload.
abbrev pub arrives : List ℕ → List Event
arrives message =
    operation_ends 0 (done (take 2 message))
    ∷ operation_ends 0 (done (drop 2 (take sizeof_header message)))
    ∷ operation_ends 0 (done (drop sizeof_header message))
    ∷ []

-- A session that waits for a message, with nothing posted.
pub record Waits (s : SubscriberSession) : Type 0 where
  pub alive : s.canceled ≡ false
  pub one_read : s.operations ≡ header_length new_header ∷ []
  pub quiet : s.strand ≡ []

first_read :
    (h : Host) (type size : ℕ) (s : SubscriberSession)
    → Waits s
    → step h (operation_ends 0 (done (take 2 (encode_header type size)))) s ≡ record s {
      operations =
          header_content (write_at 0 (take 2 (encode_header type size)) new_header) 10 0 ∷ [];
    }
unfolding step on_completed
first_read h type size s w =
    let (passed, more, none_over) = encoded_lengths h type size in
    ground (arith, passed, more, none_over)

second_read :
    (h : Host) (type size : ℕ) (s : SubscriberSession)
    → size < 2 ^ 64
    → 0 < size
    → s.canceled ≡ false
    → s.operations
      ≡ header_content (write_at 0 (take 2 (encode_header type size)) new_header) 10 0 ∷ []
    → step h (operation_ends 0 (done (drop 2 (encode_header type size)))) s
      ≡ record s { operations = payload (encode_header type size) size ∷ [] }
unfolding step on_completed
second_read h type size s fits some_data up one = ground (
  arith,
  assembled_header type size,
  data_size_raw-eq_zero h type size,
  encode_header_fields h type size fits,
)

third_read :
    (h : Host) (type size : ℕ) (bytes : List ℕ) (s : SubscriberSession)
    → s.operations ≡ payload (encode_header type size) size ∷ []
    → step h (operation_ends 0 (done bytes)) s
      ≡ on_payload (encode_header type size) bytes (record s { operations = [] })
unfolding step on_completed
third_read h type size bytes s one = ground arith

cut_message :
    (type size : ℕ) (bytes : List ℕ)
    → arrives (encode_header type size ++ bytes)
      ≡ operation_ends 0 (done (take 2 (encode_header type size)))
        ∷ operation_ends 0 (done (drop 2 (encode_header type size)))
        ∷ operation_ends 0 (done bytes)
        ∷ []
unfolding encode_header le_bytes
cut_message type size bytes = refl

pieces_read :
    (h : Host) (type size : ℕ) (bytes : List ℕ) (s : SubscriberSession)
    → size < 2 ^ 64
    → 0 < size
    → Waits s
    → run h
        (operation_ends 0 (done (take 2 (encode_header type size)))
          ∷ operation_ends 0 (done (drop 2 (encode_header type size)))
          ∷ operation_ends 0 (done bytes)
          ∷ [])
        s
      ≡ on_payload (encode_header type size) bytes (record s { operations = [] })
unfolding run
pieces_read h type size bytes s fits some_data w =
    let held = header_content (write_at 0 (take 2 (encode_header type size)) new_header) 10 0 in
    rw
      (
        first_read h type size s w,
        run,
        second_read h type size (record s { operations = held ∷ [] }) fits some_data w.alive refl,
        third_read h type size bytes
            (record s { operations = payload (encode_header type size) size ∷ [] }) refl,
      )
      refl

-- A message with an encoded header brings the waiting session to the handler of its payload.
pub message_read :
    (h : Host) (type size : ℕ) (bytes : List ℕ) (s : SubscriberSession)
    → size < 2 ^ 64
    → 0 < size
    → Waits s
    → run h (arrives (encode_header type size ++ bytes)) s
      ≡ on_payload (encode_header type size) bytes (record s { operations = [] })
message_read h type size bytes s fits some_data w =
    ap (λ es. run h es s) (cut_message type size bytes)
    ∙ pieces_read h type size bytes s fits some_data w

-- What a session is after a delivery.
abbrev pub after_delivery : List ℕ → SubscriberSession → SubscriberSession
after_delivery bytes s = record s {
  retries_left = s.max_reconnection_attempts;
  delivered = s.delivered ++ (s.synchronous_callback, bytes) ∷ [];
}

posted_run :
    (h : Host) (size : ℕ) (bytes : List ℕ) (s : SubscriberSession)
    → Waits s
    → run h
        (strand_runs ∷ strand_runs ∷ [])
        (on_payload (encode_header regular_payload size) bytes (record s { operations = [] }))
      ≡ after_delivery bytes s
unfolding run step on_payload on_posted
posted_run h size bytes s w = ground (arith, type_of-encode_header regular_payload size)

-- A regular message that arrives, with what it posts.
abbrev pub received : List ℕ → List Event
received message = arrives message ++ strand_runs ∷ strand_runs ∷ []

regular_message :
    (h : Host) (bytes : List ℕ) (s : SubscriberSession)
    → length bytes < 2 ^ 64
    → 0 < length bytes
    → Waits s
    → run h (received (encode_header regular_payload (length bytes) ++ bytes)) s
      ≡ after_delivery bytes s
regular_message h bytes s fits some_data w =
    let message = encode_header regular_payload (length bytes) ++ bytes in
    run-append h (arrives message) (strand_runs ∷ strand_runs ∷ []) s
    ∙ ap (run h (strand_runs ∷ strand_runs ∷ []))
        (message_read h regular_payload (length bytes) bytes s fits some_data w)
    ∙ posted_run h (length bytes) bytes s w

-- The messages that a publisher prepares for a list of calls of send, from any left-over buffers.
abbrev pub prepared : Host → List (List ℕ × List Payload) → List (List ℕ)
prepared h [] = []
prepared h ((stale, ps) ∷ calls) = prepare_buffer h stale ps ∷ prepared h calls

abbrev pub stream : List (List ℕ) → List Event
stream [] = []
stream (m ∷ ms) = received m ++ stream ms

-- The calls, with the bytes that each one's payloads hold: not none, and within a size_t.
pub data Calls : List (List ℕ × List Payload) → List (List ℕ) → Type 0 where
  nil : Calls [] []
  cons :
      {stale : List ℕ} {ps : List Payload} {bytes : List ℕ} {calls : List (List ℕ × List Payload)}
      {all : List (List ℕ)}
      → AllGiven ps bytes
      → 0 < length bytes
      → sizeof_header + length bytes < 2 ^ 64
      → Calls calls all
      → Calls ((stale, ps) ∷ calls) (bytes ∷ all)

abbrev pub with_callback : Option Callback → List (List ℕ) → List (Option Callback × List ℕ)
with_callback c [] = []
with_callback c (b ∷ bs) = (c, b) ∷ with_callback c bs

-- Whatever a publisher sends, on a host of any byte order and from buffers with any old contents,
-- a waiting subscriber session on any host hands to its callback: each message once, in order,
-- with the bytes of the payloads and nothing else. Then it waits for the next message.
pub stream_delivered :
    (sender receiver : Host) {calls : List (List ℕ × List Payload)} {all : List (List ℕ)}
    (s : SubscriberSession)
    → Calls calls all
    → Waits s
    → let t = run receiver (stream (prepared sender calls)) s in
      Waits t
      × (t.delivered ≡ s.delivered ++ with_callback s.synchronous_callback all)
      × (t.closed_calls ≡ s.closed_calls)
stream_delivered sender receiver s nil w = unfold run in (w, sym (append-nil s.delivered), refl)
stream_delivered sender receiver s (cons {stale} {ps} {bytes} {calls} {all} g some_data fits more)
      w =
    let cb = s.synchronous_callback in
    let message = prepare_buffer sender stale ps in
    let rest = stream (prepared sender calls) in
    let first =
      ap (λ m. run receiver (received m) s) (prepare_buffer-eq sender stale g fits)
      ∙ regular_message receiver bytes s (omega arith) some_data w in
    let split = run-append receiver (received message) rest s ∙ ap (run receiver rest) first in
    let waits : Waits (after_delivery bytes s) = record {
      alive = w.alive;
      one_read = w.one_read;
      quiet = w.quiet;
    } in
    let later = stream_delivered sender receiver (after_delivery bytes s) more waits in
    rw split (
      later.0,
      later.1 ∙ append_assoc s.delivered ((cb, bytes) ∷ []) (with_callback cb all),
      later.2,
    )
