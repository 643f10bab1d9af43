-- ===== src/Publisher/Own/Running.antt =====
-- Publisher: send and the handlers of accepts leave is_running_ as it is.
use tcp_pubsub.PublisherSession
use tcp_pubsub.Base.{
  if◌then◌else◌, Option-cases, get_elem?, remove_at, ℕ, ◌≡◌, refl, inl, inr, Bool, true, false, not,
  List, [], ◌∷◌, ◌++◌,
}
use tcp_pubsub.Publisher.{
  Publisher, accept_client, on_accept, add_session, is_empty, send, accept_ends, accept_goes_on,
  step,
}
use tcp_pubsub.Publisher.Own.{on_session-Became, sent-Became}
use tcp_pubsub.Publisher.Message.{Payload, prepare_buffer}
use tcp_pubsub.PublisherSession.{running, is_running, PublisherSession}
use tcp_pubsub.Wire.Endian.{Host}
use tcp_pubsub.Asio.{Completion, failed, done}

-- Nothing but cancel changes whether the publisher runs.
pub send-running :
    (h : Host) (stale : List ℕ) (ps : List Payload) (p : Publisher)
    → (send h stale ps p).0.is_running ≡ p.is_running
unfolding send
send-running h stale ps p =
    ways p.is_running p.publisher_sessions _
      (sent-Became h (prepare_buffer h stale ps) p.publisher_sessions 0 p).running
  where
    ways :
        (running : Bool) (ids : List ℕ) (q : Publisher)
        → q.is_running ≡ p.is_running
        → (if◌then◌else◌ {A = Publisher × Bool}
            (not running)
            (p, false)
            (if is_empty ids then (p, true) else (q, true))).0.is_running
          ≡ p.is_running
    ways false ids q e = refl
    ways true [] q e = refl
    ways true (j ∷ js) q e = e

pub accept-running :
    (h : Host) (i : ℕ) (c : Completion) (p : Publisher)
    → (step h (accept_ends i c) p).is_running ≡ p.is_running
unfolding step on_accept
accept-running h i c p = elim (Option-cases (get_elem? p.accepting i)) [
  | inl gone ↦ rw (gone, step) refl
  | inr (j, at) ↦ rw (at, step) (goes c j)
]
  where
    goes :
        (c : Completion) (j : ℕ)
        → (on_accept j c (record p { accepting = remove_at p.accepting i })).is_running
          ≡ p.is_running
    goes failed j = refl
    goes (done bytes) j =
        let q : Publisher = record p {
          accepting = remove_at p.accepting i;
          accepted = p.accepted ++ j ∷ [];
        } in
        (on_session-Became j PublisherSession.start 0 q).running

pub joining-running :
    (h : Host) (i : ℕ) (p : Publisher) → (step h (accept_goes_on i) p).is_running ≡ p.is_running
unfolding step add_session accept_client
joining-running h i p = elim (Option-cases (get_elem? p.accepted i)) [
  | inl gone ↦ rw (gone, step) refl
  | inr (j, at) ↦ rw (at, step) refl
]
