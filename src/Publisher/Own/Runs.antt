-- ===== src/Publisher/Own/Runs.antt =====
-- Publisher: a session goes through its own events, whatever happens to the others.
use tcp_pubsub.PublisherSession
use tcp_pubsub.PublisherSession.{
  PublisherSession, Buffer, running, is_running, read_ends, write_ends,
}
use tcp_pubsub.Base.{
  ◌==◌, if◌then◌else◌, get_elem?, remove_at, ℕ, ◌≡◌, ap, ◌∙◌, Bool, true, false, not, some, List,
  [], ◌∷◌, ◌++◌, arith, Option-cases, refl, sym, inl, inr,
}
use tcp_pubsub.Base.Ids.{contains-append, not-contains-remove_at, contains}
use tcp_pubsub.Publisher.{
  Publisher, update, on_session, accept_client, on_accept, add_session, is_empty, send, Event,
  send_call, step, run, cancel, cancel_call, accept_ends, accept_goes_on, session_read_ends,
  session_write_ends,
}
use tcp_pubsub.Publisher.Own.{
  handed, events_of, own, Exists, Became, on_session-Became, stays-Became, sent-Became, one-Became,
  differs, canceled-Became,
}
use tcp_pubsub.Publisher.Message.{Payload, prepare_buffer}
use tcp_pubsub.Wire.Endian.{Host}
use tcp_pubsub.Asio.{Completion, failed, done}

-- The session is what its own events make of it, and still exists.
abbrev Goes : Host → ℕ → List PublisherSession.Event → Publisher → Publisher → Type 0
Goes h id es p q = (q.session id ≡ PublisherSession.run h es (p.session id)) × Exists id q

Became-Goes :
    (h : Host) (id : ℕ) (es : List PublisherSession.Event) (p q : Publisher)
    → Became id p q (PublisherSession.run h es (p.session id))
    → Exists id p
    → Goes h id es p q
Became-Goes h id es p q b x = (
  b.session_is,
  record { known = rw b.next_id x.known; not_accepting = rw b.accepting x.not_accepting },
)

ends-Goes :
    (h : Host) (id j : ℕ) (e : PublisherSession.Event) (p : Publisher)
    → Exists id p
    → Goes h id (if id == j then e ∷ [] else []) p (on_session j (PublisherSession.step h e) p)
ends-Goes h id j e p x =
    Became-Goes h id (if id == j then e ∷ [] else []) p (on_session j (PublisherSession.step h e) p)
      (one-Became h e id j p) x

send-Goes :
    (h : Host) (stale : List ℕ) (ps : List Payload) (id : ℕ) (p : Publisher)
    → Exists id p
    → Goes h id (events_of h id (send_call stale ps) p) p (send h stale ps p).0
unfolding send
send-Goes h stale ps id p x =
    let b = prepare_buffer h stale ps in
    let sent = Became-Goes h id _ p _ (sent-Became h b p.publisher_sessions id p) x in
    let stays = Became-Goes h id [] p p (stays-Became h id p) x in
    ways p.is_running p.publisher_sessions b stays sent
  where
    ways :
        (running : Bool) (ids : List ℕ) (b : Buffer) {q : Publisher}
        → Goes h id [] p p
        → Goes h id (handed id (PublisherSession.send_call b) ids) p q
        → Goes h id
            (if running then handed id (PublisherSession.send_call b) ids else [])
            p
            (if◌then◌else◌ {A = Publisher × Bool}
              (not running)
              (p, false)
              (if is_empty ids then (p, true) else (q, true))).0
    ways false ids b stays sent = stays
    ways true [] b stays sent = stays
    ways true (j ∷ js) b stays sent = sent

accepted_other :
    (h : Host) (id i j : ℕ) (c : Completion) (p : Publisher)
    → Exists id p
    → get_elem? p.accepting i ≡ some j
    → Goes h id [] p (on_accept j c (record p { accepting = remove_at p.accepting i }))
unfolding on_accept
accepted_other h id i j failed p x at = (
  (stays-Became h id p).session_is,
  record {
    known = x.known;
    not_accepting = not-contains-remove_at id p.accepting i x.not_accepting;
  },
)
accepted_other h id i j (done bytes) p x at =
    let q : Publisher = record p {
      accepting = remove_at p.accepting i;
      accepted = p.accepted ++ j ∷ [];
    } in
    let b = on_session-Became j PublisherSession.start id q in
    let other : id == j ≡ false = differs id j p.accepting i x.not_accepting at in
    (
      b.session_is
          ∙ ap (λ (c : Bool). if c then PublisherSession.start (p.session j) else p.session id)
              other
          ∙ (stays-Became h id p).session_is,
      record {
        known = rw b.next_id x.known;
        not_accepting = rw b.accepting (not-contains-remove_at id p.accepting i x.not_accepting);
      },
    )

joins-Goes :
    (h : Host) (id i j : ℕ) (p : Publisher)
    → Exists id p
    → Goes h id [] p (add_session j (record p { accepted = remove_at p.accepted i }))
unfolding add_session accept_client update contains PublisherSession.run
joins-Goes h id i j p x = (
  ground (arith, x.known),
  record {
    known = ground (arith, x.known);
    not_accepting =
        ground (arith, x.known, x.not_accepting, contains-append id p.accepting (p.next_id ∷ []));
  },
)

step-Goes :
    (h : Host) (e : Event) (id : ℕ) (p : Publisher)
    → Exists id p
    → Goes h id (events_of h id e p) p (step h e p)
unfolding step cancel
step-Goes h cancel_call id p x =
    let q : Publisher = record p { acceptor_open = false; is_running = false } in
    let b = canceled-Became h p.publisher_sessions id q in
    (
      b.session_is,
      record { known = rw b.next_id x.known; not_accepting = rw b.accepting x.not_accepting },
    )
step-Goes h (send_call stale ps) id p x = send-Goes h stale ps id p x
step-Goes h (accept_ends i c) id p x = elim (Option-cases (get_elem? p.accepting i)) [
  | inl gone ↦ rw (gone, step) ((stays-Became h id p).session_is, x)
  | inr (j, at) ↦ rw (at, step) (accepted_other h id i j c p x at)
]
step-Goes h (accept_goes_on i) id p x = elim (Option-cases (get_elem? p.accepted i)) [
  | inl gone ↦ rw (gone, step) ((stays-Became h id p).session_is, x)
  | inr (j, at) ↦ rw (at, step) (joins-Goes h id i j p x)
]
step-Goes h (session_read_ends j i c) id p x = ends-Goes h id j (read_ends i c) p x
step-Goes h (session_write_ends j i c) id p x = ends-Goes h id j (write_ends i c) p x

session_run-append :
    (h : Host) (xs ys : List PublisherSession.Event) (s : PublisherSession)
    → PublisherSession.run h (xs ++ ys) s ≡ PublisherSession.run h ys (PublisherSession.run h xs s)
unfolding PublisherSession.run
session_run-append h [] ys s = refl
session_run-append h (x ∷ xs) ys s = session_run-append h xs ys (PublisherSession.step h x s)

-- Through any events of the publisher and of all its sessions, a session that exists is what its
-- own events make of it: the calls of the publisher while it is listed, and the ends of its own
-- reads and writes.
pub run-own :
    (h : Host) (es : List Event) (id : ℕ) (p : Publisher)
    → Exists id p
    → (run h es p).session id ≡ PublisherSession.run h (own h id es p) (p.session id)
unfolding run
run-own h [] id p x = (stays-Became h id p).session_is
run-own h (e ∷ es) id p x =
    let (now, later) = step-Goes h e id p x in
    run-own h es id (step h e p) later
    ∙ ap (PublisherSession.run h (own h id es (step h e p))) now
    ∙ sym (session_run-append h (events_of h id e p) (own h id es (step h e p)) (p.session id))
