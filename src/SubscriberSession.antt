-- ===== src/SubscriberSession.antt =====
-- tcp_pubsub/src/subscriber_session_impl.{h,cpp}: the subscriber's side of one connection.
--
-- Each function is one method or one handler, and runs as one step: the handlers of socket
-- operations are serialised by data_strand_. `operations` are the asynchronous operations in
-- flight, with what their handlers captured; `strand` is the queue of handlers that were posted to
-- data_strand_, oldest first. shutdown, close and cancel of the socket show in `socket_open` only.
-- `delivered` lists the calls of synchronous_callback_ with their buffers, and `closed_calls`
-- counts the calls of session_closed_handler_. Log output is left out.
mod State
pub mod Runs
pub mod Receive
pub mod Attempts
pub mod Rounds
pub mod Listing
pub mod Retry
pub mod RetryTimer
pub mod Strand
pub mod Closing
pub mod Known
pub mod Growth
pub mod Ready
pub mod Silence
mod Examples
unfoldable pub use State.*
use tcp_pubsub.Wire.Header.{
  write_at, TcpHeader, regular_payload, protocol_handshake, sizeof_header_size, sizeof_handshake,
  new_header, header_size_raw, bytes_to_read_from_socket, bytes_to_discard_from_socket, type_of,
  data_size_raw, data_size, handshake_buffer,
}
use tcp_pubsub.Base.{
  ltb, ◌==◌, if◌then◌else◌, length, get_elem?, get_or, take, remove_at, is_negative, is_positive,
  decrement, ℕ, suc, ◌+◌, min, true, false, not, ◌&&◌, ◌||◌, none, some, List, [], ◌∷◌, ◌++◌,
}
use tcp_pubsub.Asio.{Completion, failed, done}
use tcp_pubsub.Wire.Endian.{Host}

-- An asynchronous operation is started.
abbrev begin : Operation → SubscriberSession → SubscriberSession
begin o s = record s { operations = s.operations ++ o ∷ [] }

-- asio::post to data_strand_
abbrev post : Posted → SubscriberSession → SubscriberSession
post h s = record s { strand = s.strand ++ h ∷ [] }

unfoldable pub connection_failed_handler : SubscriberSession → SubscriberSession
connection_failed_handler s =
    let t = record s { connected_publisher_endpoint = ("", 0); socket_open = false } in
    if not s.canceled && (is_negative s.retries_left || is_positive s.retries_left)
    then begin retry_wait (record t {
      retries_left =
          if is_positive s.retries_left then decrement s.retries_left else s.retries_left;
    })
    else record t { closed_calls = suc s.closed_calls }

unfoldable pub resolve_endpoint : ℕ → SubscriberSession → SubscriberSession
unfolding connection_failed_handler
resolve_endpoint i s = if s.canceled then connection_failed_handler s else begin (resolve i) s

unfoldable pub start : SubscriberSession → SubscriberSession
unfolding resolve_endpoint
start s = if s.canceled then s else resolve_endpoint 0 s

unfoldable pub connect_to_endpoint : ℕ → SubscriberSession → SubscriberSession
unfolding connection_failed_handler
connect_to_endpoint i s = if s.canceled then connection_failed_handler s else begin (connect i) s

unfoldable pub send_protokol_handshake_request : Host → SubscriberSession → SubscriberSession
unfolding connection_failed_handler
send_protokol_handshake_request h s =
    if s.canceled
    then connection_failed_handler s
    else begin (write_handshake (handshake_buffer h)) s

unfoldable pub read_header_length : SubscriberSession → SubscriberSession
unfolding connection_failed_handler
read_header_length s =
    if s.canceled then connection_failed_handler s else begin (header_length new_header) s

unfoldable pub read_header_content : Host → TcpHeader → SubscriberSession → SubscriberSession
unfolding connection_failed_handler bytes_to_read_from_socket bytes_to_discard_from_socket
read_header_content h header s =
    if s.canceled
    then connection_failed_handler s
    else if ltb (header_size_raw h header) sizeof_header_size
    then connection_failed_handler s
    else begin
        (header_content header (bytes_to_read_from_socket h header)
          (bytes_to_discard_from_socket h header))
        s

unfoldable pub discard_data_between_header_and_payload :
    TcpHeader → ℕ → SubscriberSession → SubscriberSession
unfolding connection_failed_handler
discard_data_between_header_and_payload header bytes_to_discard s =
    if s.canceled then connection_failed_handler s else begin (discard header bytes_to_discard) s

-- The buffer from the pool is resized to what is read into all of it; the resize does not fail here.
unfoldable pub read_payload : Host → TcpHeader → SubscriberSession → SubscriberSession
unfolding connection_failed_handler read_header_length
read_payload h header s =
    if s.canceled
    then connection_failed_handler s
    else if data_size_raw h header == 0
    then read_header_length s
    else begin (payload header (data_size h header)) s

-- handshake_message.protocol_version after the memcpy; the message starts as 0.
unfoldable pub protocol_version : List ℕ → ℕ
unfolding write_at
protocol_version bytes =
    get_or (write_at 0 (take (min (length bytes) sizeof_handshake) bytes) (0 ∷ [])) 0 0

-- The handler of the payload's read.
unfoldable pub on_payload : TcpHeader → List ℕ → SubscriberSession → SubscriberSession
unfolding connection_failed_handler protocol_version
on_payload header bytes s =
    let t = record s { retries_left = s.max_reconnection_attempts } in
    if type_of header == protocol_handshake
    then if ltb 0 (protocol_version bytes) then connection_failed_handler t else post next_message t
    else if type_of header == regular_payload
    then post next_message (post (deliver bytes header) t)
    else post next_message t

-- The handler of async_resolve.
unfoldable pub on_resolved : ℕ → Completion → SubscriberSession → SubscriberSession
unfolding resolve_endpoint connection_failed_handler connect_to_endpoint
on_resolved i failed s =
    if ltb (i + 1) (length s.publisher_list)
    then resolve_endpoint (i + 1) s
    else connection_failed_handler s
on_resolved i (done bytes) s = connect_to_endpoint i s

-- The handler of async_connect. The index is within the list, as resolve_endpoint checked.
unfoldable pub on_connected : Host → ℕ → Completion → SubscriberSession → SubscriberSession
unfolding connection_failed_handler send_protokol_handshake_request
on_connected h i failed s = connection_failed_handler s
on_connected h i (done bytes) s = send_protokol_handshake_request h (record s {
  socket_open = true;
  connected_publisher_endpoint = get_or s.publisher_list i s.connected_publisher_endpoint;
})

-- The handler of each operation.
unfoldable pub on_completed : Host → Operation → Completion → SubscriberSession → SubscriberSession
unfolding on_resolved on_connected connection_failed_handler resolve_endpoint read_header_length
    read_header_content discard_data_between_header_and_payload read_payload on_payload
on_completed h (resolve i) c s = on_resolved i c s
on_completed h (connect i) c s = on_connected h i c s
on_completed h (write_handshake b) failed s = connection_failed_handler s
on_completed h (write_handshake b) (done bytes) s = read_header_length s
on_completed h retry_wait failed s = record s { closed_calls = suc s.closed_calls }
on_completed h retry_wait (done bytes) s = resolve_endpoint 0 s
on_completed h (header_length m) failed s = connection_failed_handler s
on_completed h (header_length m) (done bytes) s = read_header_content h (write_at 0 bytes m) s
on_completed h (header_content m n to_discard) failed s = connection_failed_handler s
on_completed h (header_content m n to_discard) (done bytes) s =
    let filled = write_at sizeof_header_size bytes m in
    if ltb 0 to_discard
    then discard_data_between_header_and_payload filled to_discard s
    else read_payload h filled s
on_completed h (discard m n) failed s = connection_failed_handler s
on_completed h (discard m n) (done bytes) s = read_payload h m s
on_completed h (payload m n) failed s = connection_failed_handler s
on_completed h (payload m n) (done bytes) s = on_payload m bytes s

-- The handlers posted to the strand. The test of canceled_ and the call behind it are one step here;
-- Subscriber/Synchronous has what comes between them.
unfoldable pub on_posted : Posted → SubscriberSession → SubscriberSession
unfolding connection_failed_handler read_header_length
on_posted (deliver bytes header) s =
    if s.canceled
    then connection_failed_handler s
    else record s { delivered = s.delivered ++ (s.synchronous_callback, bytes) ∷ [] }
on_posted next_message s = read_header_length s
on_posted (set_callback c) s = record s { synchronous_callback = some c }

unfoldable pub set_synchronous_callback : Callback → SubscriberSession → SubscriberSession
set_synchronous_callback c s = if s.canceled then s else post (set_callback c) s

unfoldable pub cancel : SubscriberSession → SubscriberSession
cancel s =
    let t = record s { canceled = true } in
    if s.canceled then t else record t { socket_open = false }

-- What can happen to a session.
pub data Event : Type 0 where
  cancel_call : Event
  callback_call : Callback → Event
  operation_ends : (index : ℕ) → Completion → Event
  strand_runs : Event

unfoldable pub step : Host → Event → SubscriberSession → SubscriberSession
unfolding cancel set_synchronous_callback on_completed on_posted
step h cancel_call s = cancel s
step h (callback_call c) s = set_synchronous_callback c s
step h (operation_ends i c) s = elim (get_elem? s.operations i) [
  | some o ↦ on_completed h o c (record s { operations = remove_at s.operations i })
  | none ↦ s
]
step h strand_runs s = elim s.strand [
  | p ∷ rest ↦ on_posted p (record s { strand = rest })
  | [] ↦ s
]

unfoldable pub run : Host → List Event → SubscriberSession → SubscriberSession
run h [] s = s
run h (e ∷ es) s = run h es (step h e s)
