-- ===== src/Publisher/Calls.antt =====
-- Publisher: cancel and send keep the list of sessions in order.
use tcp_pubsub.PublisherSession
use tcp_pubsub.PublisherSession.{PublisherSession, canceled, read_ends, write_ends, is_canceled}
use tcp_pubsub.PublisherSession.Lifecycle
use tcp_pubsub.Base.{
  ℕ, ◌≡◌, refl, List, [], ◌∷◌, true, suc, false, arith, if◌then◌else◌, length, length-append, ◌+◌,
}
use tcp_pubsub.Publisher.{
  Publisher, on_session, cancel_sessions, cancel, send_to_sessions,
  publisher_session_closed_handler, update, StartResults, start,
}
use tcp_pubsub.Publisher.Invariant.{Inv, flags-Inv, on_listed-Inv}
use tcp_pubsub.Publisher.Sessions.{on_session_open, on_session_closing}
use tcp_pubsub.Base.Ids.{contains, erase}

cancel_started :
    (s : PublisherSession) → Lifecycle.Inv s → Lifecycle.Inv (PublisherSession.cancel s)
unfolding PublisherSession.cancel
cancel_started s v = Lifecycle.session_closed_handler-Inv s v

cancel_closes :
    (s : PublisherSession)
    → is_canceled s.state ≡ false
    → (PublisherSession.cancel s).closed_calls ≡ suc s.closed_calls
unfolding PublisherSession.cancel
cancel_closes s up = ground arith

-- The session at the front of the list takes itself off it.
cancel_front :
    (id : ℕ) (ids : List ℕ) (p : Publisher)
    → is_canceled (p.session id).state ≡ false
    → p.publisher_sessions ≡ id ∷ ids
    → (on_session id PublisherSession.cancel p).publisher_sessions ≡ ids
unfolding publisher_session_closed_handler contains erase
cancel_front id ids p up e =
    rw (on_session_closing id PublisherSession.cancel p (cancel_closes (p.session id) up))
      (ground arith)

contains-front : (id : ℕ) (ids : List ℕ) → contains id (id ∷ ids) ≡ true
unfolding contains
contains-front id ids = ground arith

cancel_sessions-Inv :
    (ids : List ℕ) (p : Publisher)
    → Inv p
    → p.publisher_sessions ≡ ids
    → Inv (cancel_sessions ids p) × ((cancel_sessions ids p).publisher_sessions ≡ [])
unfolding cancel_sessions
cancel_sessions-Inv [] p v e = (v, e)
cancel_sessions-Inv (id ∷ ids) p v e =
    let mem : contains id p.publisher_sessions ≡ true = rw e (contains-front id ids) in
    cancel_sessions-Inv ids (on_session id PublisherSession.cancel p)
      (on_listed-Inv PublisherSession.cancel cancel_started p v id mem)
      (cancel_front id ids p (v.listed id mem).1 e)

-- Cancelling the publisher closes every listed session, and each takes itself off the list.
pub cancel-Inv : (p : Publisher) → Inv p → Inv (cancel p) × ((cancel p).publisher_sessions ≡ [])
unfolding cancel
cancel-Inv p v =
    cancel_sessions-Inv p.publisher_sessions
      (record p { acceptor_open = false; is_running = false }) (flags-Inv p v false false) refl

-- Handing a buffer to a session closes none.
pub send_keeps_calls :
    (buffer : List ℕ) (s : PublisherSession)
    → (PublisherSession.send_data_buffer buffer s).closed_calls ≡ s.closed_calls
unfolding PublisherSession.send_data_buffer
send_keeps_calls buffer s = ground arith

list_kept :
    (id : ℕ) (op : PublisherSession → PublisherSession) (p : Publisher)
    → on_session id op p ≡ record p { session = update p.session id (op (p.session id)) }
    → (j : ℕ) → contains j p.publisher_sessions ≡ true
    → contains j (on_session id op p).publisher_sessions ≡ true
list_kept id op p same j m = rw same m

contains-later : (j id : ℕ) (ids : List ℕ) → contains j ids ≡ true → contains j (id ∷ ids) ≡ true
unfolding contains
contains-later j id ids m = ground arith

pub send_to_sessions-Inv :
    (buffer : List ℕ) (ids : List ℕ) (p : Publisher)
    → Inv p
    → ((id : ℕ) → contains id ids ≡ true → contains id p.publisher_sessions ≡ true)
    → Inv (send_to_sessions buffer ids p)
unfolding send_to_sessions
send_to_sessions-Inv buffer [] p v sub = v
send_to_sessions-Inv buffer (id ∷ ids) p v sub =
    let op = PublisherSession.send_data_buffer buffer in
    let same = on_session_open id op p (send_keeps_calls buffer (p.session id)) in
    send_to_sessions-Inv buffer ids (on_session id op p)
      (on_listed-Inv op (Lifecycle.send_data_buffer-Inv buffer) p v id
        (sub id (contains-front id ids)))
      (λ j m. list_kept id op p same j (sub j (contains-later j id ids m)))

-- start() returns whether the publisher now runs, leaves the list of sessions alone, and waits for
-- one more connection exactly if it returns true.
pub start_outcome :
    (r : StartResults) (p : Publisher)
    → p.is_running ≡ false
    → let (q, ok) = start r p in
      (q.is_running ≡ ok)
      × (q.publisher_sessions ≡ p.publisher_sessions)
      × (length q.accepting ≡ length p.accepting + (if ok then 1 else 0))
unfolding start
start_outcome r p off = ground (arith, length-append p.accepting (p.next_id ∷ []))
