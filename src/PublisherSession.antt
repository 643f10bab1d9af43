-- ===== src/PublisherSession.antt =====
-- tcp_pubsub/src/publisher_session.{h,cpp}: the publisher's side of one connection.
--
-- Each function is one method or one completion handler, and runs as one step: handlers are
-- serialised by data_strand_, and sendDataBuffer and the write handler by next_buffer_mutex_.
-- `reads` and `writes` are the asynchronous operations in flight, with what their completion
-- handlers captured. `sent` lists every buffer that was handed to asio::async_write, oldest first,
-- and `closed_calls` counts the calls of session_closed_handler_. Log output is left out.
pub mod Lifecycle
pub mod Cancel
pub mod SendQueue
pub mod SendOrder
pub mod Mailbox
pub mod Handshake
pub mod Race
pub mod Interrupted
mod Examples
use tcp_pubsub.Base.{
  ℕ, suc, ◌+◌, List, [], ◌∷◌, ◌++◌, Option, none, some, Bool, true, false, ◌&&◌, not, ltb, ◌==◌,
  if◌then◌else◌, get_elem?, remove_at,
}
use tcp_pubsub.Asio.{Completion, failed, done}
use tcp_pubsub.Wire.Endian.{Host}
use tcp_pubsub.Wire.Header.{
  write_at, TcpHeader, protocol_handshake, sizeof_header_size, new_header, header_size_raw, type_of,
  data_size_raw, data_size, handshake_buffer, bytes_to_read_from_socket,
  bytes_to_discard_from_socket,
}

abbrev pub Buffer : Type 0
Buffer = List ℕ

pub data State : Type 0 where
  not_started handshaking running canceled : State

abbrev pub is_canceled : State → Bool
is_canceled canceled = true
is_canceled _ = false

abbrev pub is_running : State → Bool
is_running running = true
is_running _ = false

abbrev pub is_handshaking : State → Bool
is_handshaking handshaking = true
is_handshaking _ = false

-- An asio::async_read in flight: the header read so far, and how many bytes were asked for.
pub data Read : Type 0 where
  header_length : TcpHeader → Read
  header_content : TcpHeader → (bytes_to_read bytes_to_discard : ℕ) → Read
  discard : TcpHeader → (bytes_to_discard : ℕ) → Read
  payload : TcpHeader → (size : ℕ) → Read

pub record PublisherSession : Type 0 where
  pub state : State
  pub sending_in_progress : Bool
  pub next_buffer_to_send : Option Buffer
  pub socket_open : Bool
  pub reads : List Read
  pub writes : List Buffer
  pub sent : List Buffer
  pub closed_calls : ℕ

-- The constructor, called with an accepted socket.
unfoldable pub new : PublisherSession
new = record {
  state = not_started;
  sending_in_progress = false;
  next_buffer_to_send = none;
  socket_open = true;
  reads = [];
  writes = [];
  sent = [];
  closed_calls = 0;
}

unfoldable pub session_closed_handler : PublisherSession → PublisherSession
session_closed_handler s =
    let t = record s { state = canceled } in
    if is_canceled s.state
    then t
    else record t { socket_open = false; closed_calls = suc s.closed_calls }

unfoldable pub cancel : PublisherSession → PublisherSession
unfolding session_closed_handler
cancel s = session_closed_handler s

-- asio::async_read
abbrev async_read : Read → PublisherSession → PublisherSession
async_read r s = record s { reads = s.reads ++ r ∷ [] }

unfoldable pub read_header_length : PublisherSession → PublisherSession
read_header_length s = if is_canceled s.state then s else async_read (header_length new_header) s

unfoldable pub receive_tcp_packet : PublisherSession → PublisherSession
unfolding read_header_length
receive_tcp_packet s = read_header_length s

unfoldable pub start : PublisherSession → PublisherSession
unfolding receive_tcp_packet
start s = receive_tcp_packet (record s { state = handshaking })

unfoldable pub read_header_content : Host → TcpHeader → PublisherSession → PublisherSession
unfolding session_closed_handler bytes_to_read_from_socket bytes_to_discard_from_socket
read_header_content h header s =
    if is_canceled s.state
    then s
    else if ltb (header_size_raw h header) sizeof_header_size
    then session_closed_handler s
    else async_read
        (header_content header (bytes_to_read_from_socket h header)
          (bytes_to_discard_from_socket h header))
        s

unfoldable pub discard_data_between_header_and_payload :
    TcpHeader → ℕ → PublisherSession → PublisherSession
discard_data_between_header_and_payload header bytes_to_discard s =
    if is_canceled s.state then s else async_read (discard header bytes_to_discard) s

-- The resize of the buffer for the payload does not fail here.
unfoldable pub read_payload : Host → TcpHeader → PublisherSession → PublisherSession
unfolding session_closed_handler
read_payload h header s =
    if is_canceled s.state
    then s
    else if data_size_raw h header == 0
    then session_closed_handler s
    else async_read (payload header (data_size h header)) s

-- asio::async_write of the buffer
unfoldable pub send_buffer_to_client : Buffer → PublisherSession → PublisherSession
send_buffer_to_client buffer s =
    if is_canceled s.state
    then s
    else record s { writes = s.writes ++ buffer ∷ []; sent = s.sent ++ buffer ∷ [] }

-- state_.exchange(State::Running), undone unless the old state was Handshaking. The two exchanges are
-- one step here; Race has what comes between them.
unfoldable pub finish_handshake : PublisherSession → PublisherSession
finish_handshake s =
    let exchanged = record s { state = running } in
    if is_handshaking s.state then exchanged else record exchanged { state = s.state }

unfoldable pub send_protocol_handshake_response : Host → PublisherSession → PublisherSession
unfolding send_buffer_to_client finish_handshake
send_protocol_handshake_response h s =
    if is_canceled s.state
    then s
    else finish_handshake (send_buffer_to_client (handshake_buffer h) s)

unfoldable pub send_data_buffer : Buffer → PublisherSession → PublisherSession
unfolding send_buffer_to_client
send_data_buffer buffer s =
    if is_canceled s.state
    then s
    else if is_running s.state && not s.sending_in_progress
    then send_buffer_to_client buffer (record s { sending_in_progress = true })
    else record s { next_buffer_to_send = some buffer }

-- The completion handler of each read. A payload's handler takes the protocol version from the
-- message and only logs it.
unfoldable pub on_read : Host → Read → Completion → PublisherSession → PublisherSession
unfolding session_closed_handler read_header_content discard_data_between_header_and_payload
    read_payload send_protocol_handshake_response
on_read h (header_length header) failed s = session_closed_handler s
on_read h (header_length header) (done bytes) s = read_header_content h (write_at 0 bytes header) s
on_read h (header_content header n to_discard) failed s = session_closed_handler s
on_read h (header_content header n to_discard) (done bytes) s =
    let filled = write_at sizeof_header_size bytes header in
    if ltb 0 to_discard
    then discard_data_between_header_and_payload filled to_discard s
    else read_payload h filled s
on_read h (discard header n) failed s = session_closed_handler s
on_read h (discard header n) (done bytes) s = read_payload h header s
on_read h (payload header n) failed s = session_closed_handler s
on_read h (payload header n) (done bytes) s =
    if type_of header == protocol_handshake
    then send_protocol_handshake_response h s
    else session_closed_handler s

-- The completion handler of sendBufferToClient's write.
unfoldable pub on_written : Completion → PublisherSession → PublisherSession
unfolding session_closed_handler send_buffer_to_client
on_written failed s = session_closed_handler s
on_written (done bytes) s = if is_canceled s.state then s else elim s.next_buffer_to_send [
  | some next ↦ send_buffer_to_client next (record s { next_buffer_to_send = none })
  | none ↦ record s { sending_in_progress = false }
]

-- What can happen to a started session: a call from the publisher, or the end of the read or
-- write at an index of the lists of operations in flight.
pub data Event : Type 0 where
  send_call : Buffer → Event
  cancel_call : Event
  read_ends write_ends : (index : ℕ) → Completion → Event

unfoldable pub step : Host → Event → PublisherSession → PublisherSession
unfolding cancel send_data_buffer on_read on_written
step h (send_call buffer) s = send_data_buffer buffer s
step h cancel_call s = cancel s
step h (read_ends i c) s = elim (get_elem? s.reads i) [
  | some r ↦ on_read h r c (record s { reads = remove_at s.reads i })
  | none ↦ s
]
step h (write_ends i c) s = elim (get_elem? s.writes i) [
  | some b ↦ on_written c (record s { writes = remove_at s.writes i })
  | none ↦ s
]

-- Any sequence of events.
unfoldable pub run : Host → List Event → PublisherSession → PublisherSession
run h [] s = s
run h (e ∷ es) s = run h es (step h e s)
