-- ===== src/PublisherSession/Handshake.antt =====
-- PublisherSession: the exchange that takes a session from its start to State::Running.
use tcp_pubsub.Base.{
  ◌==◌, if◌then◌else◌, take, drop, ℕ, suc, ◌^◌, ◌<◌, ◌≡◌, false, List, [], ◌∷◌, ◌++◌, arith, refl,
  some,
}
use tcp_pubsub.Asio.{done}
use tcp_pubsub.Wire.Endian.{Host}
use tcp_pubsub.Wire.Header.{
  write_at, protocol_handshake, new_header, handshake_buffer, encode_header, encode_header_fields,
  assembled_header, encoded_lengths, data_size_raw-eq_zero, type_of-encode_header,
}
use tcp_pubsub.PublisherSession.{
  handshaking, running, canceled, Read, header_length, header_content, payload, PublisherSession,
  start, on_read, Event, read_ends, step, new, run, Buffer, send_call, write_ends,
}

-- The three reads of a message with an encoded header, all of which succeed: the length, the rest
-- of the header, and the payload.
abbrev pub message_arrives : ℕ → ℕ → List ℕ → List Event
message_arrives type size bytes =
    read_ends 0 (done (take 2 (encode_header type size)))
    ∷ read_ends 0 (done (drop 2 (encode_header type size)))
    ∷ read_ends 0 (done bytes)
    ∷ []

-- A started session that waits for the first byte.
abbrev awaiting : Read → PublisherSession → PublisherSession
awaiting r s = record s { reads = r ∷ [] }

first_read :
    (h : Host) (type size : ℕ) (s : PublisherSession)
    → s.state ≡ handshaking
    → s.reads ≡ header_length new_header ∷ []
    → step h (read_ends 0 (done (take 2 (encode_header type size)))) s ≡ record s {
      reads = header_content (write_at 0 (take 2 (encode_header type size)) new_header) 10 0 ∷ [];
    }
unfolding step on_read
first_read h type size s up one =
    let (passed, more, none_over) = encoded_lengths h type size in
    ground (arith, passed, more, none_over)

second_read :
    (h : Host) (type size : ℕ) (s : PublisherSession)
    → size < 2 ^ 64
    → 0 < size
    → s.state ≡ handshaking
    → s.reads ≡ header_content (write_at 0 (take 2 (encode_header type size)) new_header) 10 0 ∷ []
    → step h (read_ends 0 (done (drop 2 (encode_header type size)))) s
      ≡ record s { reads = payload (encode_header type size) size ∷ [] }
unfolding step on_read
second_read h type size s fits some_data up one = ground (
  arith,
  assembled_header type size,
  data_size_raw-eq_zero h type size,
  encode_header_fields h type size fits,
)

third_read :
    (h : Host) (type size : ℕ) (bytes : List ℕ) (s : PublisherSession)
    → s.state ≡ handshaking
    → s.reads ≡ payload (encode_header type size) size ∷ []
    → step h (read_ends 0 (done bytes)) s ≡ (
        if type == protocol_handshake
        then record s {
          reads = [];
          state = running;
          writes = s.writes ++ handshake_buffer h ∷ [];
          sent = s.sent ++ handshake_buffer h ∷ [];
        }
        else record s {
          reads = [];
          state = canceled;
          socket_open = false;
          closed_calls = suc s.closed_calls;
        })
unfolding step on_read
third_read h type size bytes s up one = ground (arith, type_of-encode_header type size)

-- The first message of a subscriber decides: a handshake takes the session to Running with the
-- handshake response as the one buffer handed to the socket, and any other type closes it.
pub first_message :
    (h : Host) (type size : ℕ) (bytes : List ℕ)
    → size < 2 ^ 64
    → 0 < size
    → run h (message_arrives type size bytes) (start new) ≡ (
        if type == protocol_handshake
        then record new {
          state = running;
          writes = handshake_buffer h ∷ [];
          sent = handshake_buffer h ∷ [];
        }
        else record new { state = canceled; socket_open = false; closed_calls = 1 })
unfolding run start new
first_message h type size bytes fits some_data =
    let s = record new { state = handshaking; reads = header_length new_header ∷ [] } in
    rw
      (
        first_read h type size s refl refl,
        run,
        second_read h type size
            (awaiting
              (header_content (write_at 0 (take 2 (encode_header type size)) new_header) 10 0) s)
            fits some_data refl refl,
        third_read h type size bytes (awaiting (payload (encode_header type size) size) s) refl
            refl,
      )
      refl

-- The session after `older` was given during the handshake, and the handshake message came.
answered : Host → Buffer → PublisherSession
unfolding new
answered h older = record new {
  state = running;
  next_buffer_to_send = some older;
  writes = handshake_buffer h ∷ [];
  sent = handshake_buffer h ∷ [];
}

run-answered :
    (h : Host) (size : ℕ) (bytes : List ℕ) (older : Buffer)
    → size < 2 ^ 64
    → 0 < size
    → run h (send_call older ∷ message_arrives protocol_handshake size bytes) (start new)
      ≡ answered h older
unfolding run start new answered step
run-answered h size bytes older fits some_data =
    let type : ℕ = protocol_handshake in
    let s : PublisherSession = record new {
      state = handshaking;
      next_buffer_to_send = some older;
      reads = header_length new_header ∷ [];
    } in
    rw
      (
        first_read h type size s refl refl,
        run,
        second_read h type size
            (awaiting
              (header_content (write_at 0 (take 2 (encode_header type size)) new_header) 10 0) s)
            fits some_data refl refl,
        third_read h type size bytes (awaiting (payload (encode_header type size) size) s) refl
            refl,
      )
      refl

-- The handshake response is written without setting sending_in_progress_. A buffer sent before
-- that write ends is written at the same time, ahead of one that was given during the handshake.
pub handshake_overlap :
    (h : Host) (size : ℕ) (bytes : List ℕ) (older newer : Buffer)
    → size < 2 ^ 64
    → 0 < size
    → let up =
        run h (send_call older ∷ message_arrives protocol_handshake size bytes) (start new) in
      let both = step h (send_call newer) up in
      (both.writes ≡ handshake_buffer h ∷ newer ∷ [])
      × ((run h (write_ends 0 (done []) ∷ write_ends 0 (done []) ∷ []) both).sent
          ≡ handshake_buffer h ∷ newer ∷ older ∷ [])
unfolding run step answered new
handshake_overlap h size bytes older newer fits some_data =
    rw (run-answered h size bytes older fits some_data) (refl, refl)
