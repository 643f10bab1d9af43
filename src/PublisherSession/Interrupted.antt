-- ===== src/PublisherSession/Interrupted.antt =====
-- PublisherSession: a whole session, with the end of its handshake in steps of single accesses.
-- sendProtocolHandshakeResponse (publisher_session.cpp) tests state_ and starts its write, then
-- exchanges state_, and then assigns what it was unless it was Handshaking; calls of the owner and
-- the ends of writes come in between. The other handlers are those of the session.
use tcp_pubsub.PublisherSession
use tcp_pubsub.Base.{
  ◌==◌, if◌then◌else◌, get_elem?, remove_at, Bool, true, false, none, some, List, [], ◌∷◌,
}
use tcp_pubsub.PublisherSession.{
  State, running, is_canceled, is_handshaking, Read, header_length, header_content, discard,
  payload, PublisherSession, start, send_call, cancel_call, read_ends, write_ends,
}
use tcp_pubsub.Asio.{Completion, failed, done}
use tcp_pubsub.Wire.Endian.{Host}
use tcp_pubsub.Wire.Header.{protocol_handshake, type_of, handshake_buffer}
pub mod Bounds

-- Where sendProtocolHandshakeResponse stands: it is not running, in front of the exchange, or behind
-- it with the old state.
pub data Stage : Type 0 where
  idle : Stage
  before_exchange : Stage
  exchanged : (old_state : State) → Stage

pub record Interrupted : Type 0 where
  pub session : PublisherSession
  pub stage : Stage

-- The test of state_, and the start of the write.
unfoldable pub begin_answer : Host → PublisherSession → Interrupted
unfolding PublisherSession.send_buffer_to_client
begin_answer h s = if is_canceled s.state then record { session = s; stage = idle } else record {
  session = PublisherSession.send_buffer_to_client (handshake_buffer h) s;
  stage = before_exchange;
}

-- The exchange, and the assignment.
unfoldable pub go_on : Stage → PublisherSession → Interrupted
go_on idle s = record { session = s; stage = idle }
go_on before_exchange s = record {
  session = record s { state = running };
  stage = exchanged s.state;
}
go_on (exchanged old_state) s = record {
  session = record s { state = if is_handshaking old_state then s.state else old_state };
  stage = idle;
}

-- The handler of a read: a handshake begins the answer, all else is as in on_read.
unfoldable pub answers : Read → Completion → Bool
answers (payload header n) (done bytes) = type_of header == protocol_handshake
answers (payload header n) failed = false
answers (header_length header) c = false
answers (header_content header n d) c = false
answers (discard header n) c = false

unfoldable pub read_handler : Host → Read → Completion → Stage → PublisherSession → Interrupted
unfolding answers begin_answer PublisherSession.on_read
read_handler h r c p s =
    if answers r c
    then begin_answer h s
    else record { session = PublisherSession.on_read h r c s; stage = p }

pub data Event : Type 0 where
  session_event : PublisherSession.Event → Event
  handshake_goes_on : Event

unfoldable pub step : Host → Event → Interrupted → Interrupted
unfolding read_handler go_on PublisherSession.step
step h (session_event (read_ends i c)) t = elim (get_elem? t.session.reads i) [
  | some r ↦ read_handler h r c t.stage (record t.session { reads = remove_at t.session.reads i })
  | none ↦ t
]
step h (session_event (write_ends i c)) t = record t {
  session = PublisherSession.step h (write_ends i c) t.session;
}
step h (session_event (send_call b)) t = record t {
  session = PublisherSession.step h (send_call b) t.session;
}
step h (session_event cancel_call) t = record t {
  session = PublisherSession.step h cancel_call t.session;
}
step h handshake_goes_on t = go_on t.stage t.session

unfoldable pub run : Host → List Event → Interrupted → Interrupted
run h [] t = t
run h (e ∷ es) t = run h es (step h e t)

-- The session that start() leaves.
unfoldable pub started : Interrupted
started = record { session = start PublisherSession.new; stage = idle }
