-- ===== src/Publisher.antt =====
-- tcp_pubsub/src/publisher_impl.{h,cpp}: the publisher, its acceptor and its list of sessions.
--
-- The sessions are shared objects: `session` holds each by the number it was created under, and
-- the publisher's list and the handlers in flight hold numbers. An operation on a session also
-- runs the publisher's closed handler, as often as the session called it. publisher_sessions_mutex_
-- makes each access of the list one step; the handler of async_accept is two steps, since it
-- starts the session before it locks the list. `missing` counts the error "Trying to delete a
-- non-existing publisher session". Other log output is left out.
pub mod Message
pub mod Sessions
pub mod Invariant
pub mod Accept
pub mod Calls
pub mod Own
pub mod Serial
pub mod Delivery
pub mod Alike
pub mod Unordered
mod Examples
use tcp_pubsub.PublisherSession
use Message.{Payload, prepare_buffer}
use tcp_pubsub.PublisherSession.{PublisherSession, Buffer, read_ends, write_ends}
use tcp_pubsub.Base.{
  ◌==◌, if◌then◌else◌, length, get_elem?, remove_at, ℕ, zero, suc, ◌-◌, Bool, true, false, not,
  ◌||◌, Option, none, some, List, [], ◌∷◌, ◌++◌,
}
use tcp_pubsub.Base.Ids.{contains, erase}
use tcp_pubsub.Asio.{Completion, failed, done}
use tcp_pubsub.Wire.Endian.{Host, store}

-- Results of the calls on the acceptor: true for an error code that is set.
pub record StartResults : Type 0 where
  pub make_address_ec : Bool
  pub open_ec : Bool
  pub reuse_address_ec : Bool
  pub bind_ec : Bool
  pub listen_ec : Bool

pub record Publisher : Type 0 where
  pub is_running : Bool
  pub acceptor_open : Bool
  pub session : ℕ → PublisherSession
  pub next_id : ℕ
  pub publisher_sessions : List ℕ
  -- sessions that an async_accept in flight waits to connect
  pub accepting : List ℕ
  -- sessions that were started by the accept handler and are not yet in the list
  pub accepted : List ℕ
  pub missing : ℕ

-- The constructor.
unfoldable pub new : Publisher
unfolding PublisherSession.new
new = record {
  is_running = false;
  acceptor_open = false;
  session = λ _. PublisherSession.new;
  next_id = 0;
  publisher_sessions = [];
  accepting = [];
  accepted = [];
  missing = 0;
}

-- One session object is replaced by its new state.
unfoldable pub update : (ℕ → PublisherSession) → ℕ → PublisherSession → ℕ → PublisherSession
update store id s other = if other == id then s else store other

-- publisher_session_closed_handler
unfoldable pub publisher_session_closed_handler : ℕ → Publisher → Publisher
unfolding contains erase
publisher_session_closed_handler id p =
    if contains id p.publisher_sessions
    then record p { publisher_sessions = erase id p.publisher_sessions }
    else record p { missing = suc p.missing }

-- The handler is called a number of times.
unfoldable pub notify : ℕ → ℕ → Publisher → Publisher
unfolding publisher_session_closed_handler
notify zero id p = p
notify (suc calls) id p = publisher_session_closed_handler id (notify calls id p)

-- An operation on a session, with the calls of the closed handler that it makes.
unfoldable pub on_session : ℕ → (PublisherSession → PublisherSession) → Publisher → Publisher
unfolding notify update
on_session id operation p =
    let s = operation (p.session id) in
    notify (s.closed_calls - (p.session id).closed_calls) id
      (record p { session = update p.session id s })

-- acceptClient creates a session and waits for a connection to it.
unfoldable pub accept_client : Publisher → Publisher
unfolding update PublisherSession.new
accept_client p = record p {
  session = update p.session p.next_id PublisherSession.new;
  accepting = p.accepting ++ p.next_id ∷ [];
  next_id = suc p.next_id;
}

-- The handler of async_accept up to session->start().
unfoldable pub on_accept : ℕ → Completion → Publisher → Publisher
unfolding on_session PublisherSession.start
on_accept id failed p = p
on_accept id (done bytes) p =
    on_session id PublisherSession.start (record p { accepted = p.accepted ++ id ∷ [] })

-- The rest of the handler: the session is put into the list, and the next one is awaited.
unfoldable pub add_session : ℕ → Publisher → Publisher
unfolding accept_client
add_session id p = accept_client (record p { publisher_sessions = p.publisher_sessions ++ id ∷ [] })

-- The new state of the publisher, and the value that is returned.
unfoldable pub start : StartResults → Publisher → Publisher × Bool
unfolding accept_client
start r p =
    if r.make_address_ec
    then (p, false)
    else if r.open_ec
    then (p, false)
    else if r.reuse_address_ec || (r.bind_ec || r.listen_ec)
    then (record p { acceptor_open = true }, false)
    else (accept_client (record p { acceptor_open = true; is_running = true }), true)

-- The loop of cancel over its copy of the list.
unfoldable pub cancel_sessions : List ℕ → Publisher → Publisher
unfolding on_session PublisherSession.cancel
cancel_sessions [] p = p
cancel_sessions (id ∷ ids) p = cancel_sessions ids (on_session id PublisherSession.cancel p)

unfoldable pub cancel : Publisher → Publisher
unfolding cancel_sessions
cancel p =
    cancel_sessions p.publisher_sessions (record p { acceptor_open = false; is_running = false })

-- The destructor.
unfoldable pub destroy : Publisher → Publisher
unfolding cancel
destroy p = if p.is_running then cancel p else p

-- The loop of send over the sessions.
unfoldable pub send_to_sessions : Buffer → List ℕ → Publisher → Publisher
unfolding on_session PublisherSession.send_data_buffer
send_to_sessions buffer [] p = p
send_to_sessions buffer (id ∷ ids) p =
    send_to_sessions buffer ids (on_session id (PublisherSession.send_data_buffer buffer) p)

abbrev pub is_empty : List ℕ → Bool
is_empty [] = true
is_empty (x ∷ xs) = false

-- `stale` is what the buffer that the pool allocates holds.
unfoldable pub send : Host → List ℕ → List Payload → Publisher → Publisher × Bool
unfolding prepare_buffer send_to_sessions
send h stale payloads p =
    if not p.is_running
    then (p, false)
    else if is_empty p.publisher_sessions
    then (p, true)
    else (send_to_sessions (prepare_buffer h stale payloads) p.publisher_sessions p, true)

-- `local_endpoint` is the port of acceptor_.local_endpoint(ec), or none for an error.
unfoldable pub get_port : Option ℕ → Publisher → ℕ
get_port none p = 0
get_port (some port) p = if p.is_running then port else 0

unfoldable pub get_subscriber_count : Publisher → ℕ
get_subscriber_count p = length p.publisher_sessions

-- What can happen: calls of the owner, the two steps of an accept handler, and events of a session.
pub data Event : Type 0 where
  cancel_call : Event
  send_call : (stale : List ℕ) → List Payload → Event
  accept_ends : (index : ℕ) → Completion → Event
  accept_goes_on : (index : ℕ) → Event
  session_read_ends session_write_ends : (id index : ℕ) → Completion → Event

unfoldable pub step : Host → Event → Publisher → Publisher
unfolding cancel send on_accept add_session on_session PublisherSession.step
step h cancel_call p = cancel p
step h (send_call stale payloads) p = (send h stale payloads p).0
step h (accept_ends i c) p = elim (get_elem? p.accepting i) [
  | some id ↦ on_accept id c (record p { accepting = remove_at p.accepting i })
  | none ↦ p
]
step h (accept_goes_on i) p = elim (get_elem? p.accepted i) [
  | some id ↦ add_session id (record p { accepted = remove_at p.accepted i })
  | none ↦ p
]
step h (session_read_ends id i c) p = on_session id (PublisherSession.step h (read_ends i c)) p
step h (session_write_ends id i c) p = on_session id (PublisherSession.step h (write_ends i c)) p

unfoldable pub run : Host → List Event → Publisher → Publisher
run h [] p = p
run h (e ∷ es) p = run h es (step h e p)
