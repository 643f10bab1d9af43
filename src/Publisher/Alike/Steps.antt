-- ===== src/Publisher/Alike/Steps.antt =====
-- Publisher_Impl: each call and handler, for publishers that are alike.
use mathlib.Core.List.{Permᴰ}
use mathlib.Core.List.Permᴰ
use tcp_pubsub.PublisherSession
use tcp_pubsub.Publisher.{
  Publisher, update, on_session, accept_client, on_accept, add_session, cancel_sessions, cancel,
  send_to_sessions, is_empty, send, Event, cancel_call, send_call, accept_ends, accept_goes_on,
  session_read_ends, session_write_ends, step, run,
}
use tcp_pubsub.Base.{
  ℕ, ◌≡◌, refl, sym, ap, ◌∙◌, false, List, [], ◌∷◌, ◌++◌, arith, if◌then◌else◌, get_elem?,
  remove_at, Bool, true, not, Option, none, some,
}
use tcp_pubsub.PublisherSession.{Buffer, PublisherSession, send_data_buffer, read_ends, write_ends}
use tcp_pubsub.Publisher.Alike.{Alike, on_session-Alike, over, over-Alike}
use tcp_pubsub.Publisher.Alike.Commute.{over-Permᴰ}
use tcp_pubsub.Publisher.Message.{Payload, prepare_buffer}
use tcp_pubsub.Asio.{Completion, failed, done}
use tcp_pubsub.Wire.Endian.{Host}

-- The fields beside the list are the same.
record SameRest (p q : Publisher) : Type 0 where
  is_running : q.is_running ≡ p.is_running
  accepting : q.accepting ≡ p.accepting
  accepted : q.accepted ≡ p.accepted

Alike-SameRest : (p q : Publisher) → Alike p q → SameRest p q
Alike-SameRest p q a = record {
  is_running = ap (λ x. x.is_running) a.rest;
  accepting = ap (λ x. x.accepting) a.rest;
  accepted = ap (λ x. x.accepted) a.rest;
}

-- The loops over the lists of two publishers that are alike.
loops-Alike :
    (operation : PublisherSession → PublisherSession) {xs ys : List ℕ} (p q : Publisher)
    → Permᴰ xs ys
    → Alike p q
    → Alike (over operation xs p) (over operation ys q)
loops-Alike operation {xs} p q h a =
    rw (sym (over-Permᴰ operation q h)) (over-Alike operation xs p q a)

cancel_sessions_over :
    (ids : List ℕ) (p : Publisher) → cancel_sessions ids p ≡ over PublisherSession.cancel ids p
unfolding cancel_sessions over
cancel_sessions_over [] p = refl
cancel_sessions_over (id ∷ ids) p =
    cancel_sessions_over ids (on_session id PublisherSession.cancel p)

send_to_sessions_over :
    (buffer : Buffer) (ids : List ℕ) (p : Publisher)
    → send_to_sessions buffer ids p ≡ over (PublisherSession.send_data_buffer buffer) ids p
unfolding send_to_sessions over
send_to_sessions_over buffer [] p = refl
send_to_sessions_over buffer (id ∷ ids) p =
    send_to_sessions_over buffer ids (on_session id (PublisherSession.send_data_buffer buffer) p)

is_empty-Permᴰ : {xs ys : List ℕ} → Permᴰ xs ys → is_empty xs ≡ is_empty ys
is_empty-Permᴰ Permᴰ.nil = refl
is_empty-Permᴰ (Permᴰ.cons e h) = refl
is_empty-Permᴰ (Permᴰ.swap e f) = refl
is_empty-Permᴰ (Permᴰ.trans g h) = is_empty-Permᴰ g ∙ is_empty-Permᴰ h

cancel-Alike : (p q : Publisher) → Alike p q → Alike (cancel p) (cancel q)
unfolding cancel
cancel-Alike p q a =
    let x = record p { acceptor_open = false; is_running = false } in
    let y = record q { acceptor_open = false; is_running = false } in
    rw (cancel_sessions_over p.publisher_sessions x, cancel_sessions_over q.publisher_sessions y)
      (loops-Alike PublisherSession.cancel x y a.order
        record { order = a.order; rest = ground (arith, a.rest) })

branches-Alike :
    (running running' empty empty' : Bool) (p q x y : Publisher)
    → running' ≡ running
    → empty' ≡ empty
    → Alike p q
    → Alike x y
    → let f : Bool → Bool → Publisher → Publisher → Publisher × Bool =
        λ b c s t. if not b then (s, false) else if c then (s, true) else (t, true) in
      Alike (f running empty p x).0 (f running' empty' q y).0
      × ((f running empty p x).1 ≡ (f running' empty' q y).1)
branches-Alike false r empty f p q x y e g a b = rw e (a, refl)
branches-Alike true r true f p q x y e g a b = rw (e, g) (a, refl)
branches-Alike true r false f p q x y e g a b = rw (e, g) (b, refl)

taken-Alike :
    (o o' : Option ℕ) (f g : ℕ → Publisher) (p q : Publisher)
    → o' ≡ o
    → Alike p q
    → ((id : ℕ) → Alike (f id) (g id))
    → Alike (elim o [ some id ↦ f id | none ↦ p ]) (elim o' [ some id ↦ g id | none ↦ q ])
taken-Alike none o' f g p q e a all = rw e a
taken-Alike (some id) o' f g p q e a all = rw e (all id)

-- send returns the same, too.
pub send-Alike :
    (h : Host) (stale : List ℕ) (payloads : List Payload) (p q : Publisher)
    → Alike p q
    → Alike (send h stale payloads p).0 (send h stale payloads q).0
      × ((send h stale payloads p).1 ≡ (send h stale payloads q).1)
unfolding send
send-Alike h stale payloads p q a =
    let buffer = prepare_buffer h stale payloads in
    let loops : Alike (send_to_sessions buffer p.publisher_sessions p)
        (send_to_sessions buffer q.publisher_sessions q) =
      rw
        (
          send_to_sessions_over buffer p.publisher_sessions p,
          send_to_sessions_over buffer q.publisher_sessions q,
        )
        (loops-Alike (PublisherSession.send_data_buffer buffer) p q a.order a) in
    branches-Alike p.is_running q.is_running (is_empty p.publisher_sessions)
      (is_empty q.publisher_sessions) p q (send_to_sessions buffer p.publisher_sessions p)
      (send_to_sessions buffer q.publisher_sessions q) (Alike-SameRest p q a).is_running
      (sym (is_empty-Permᴰ a.order)) a loops

accept_client-Alike : (p q : Publisher) → Alike p q → Alike (accept_client p) (accept_client q)
unfolding accept_client update
accept_client-Alike p q a = record { order = a.order; rest = ground (arith, a.rest) }

on_accept-Alike :
    (id : ℕ) (c : Completion) (p q : Publisher)
    → Alike p q
    → Alike (on_accept id c p) (on_accept id c q)
unfolding on_accept
on_accept-Alike id failed p q a = a
on_accept-Alike id (done bytes) p q a =
    on_session-Alike id PublisherSession.start (record p { accepted = p.accepted ++ id ∷ [] })
      (record q { accepted = q.accepted ++ id ∷ [] })
      record { order = a.order; rest = ground (arith, a.rest) }

append-Permᴰ : (x : ℕ) {xs ys : List ℕ} → Permᴰ xs ys → Permᴰ (xs ++ x ∷ []) (ys ++ x ∷ [])
append-Permᴰ x Permᴰ.nil = Permᴰ.refl (x ∷ [])
append-Permᴰ x (Permᴰ.cons e h) = Permᴰ.cons e (append-Permᴰ x h)
append-Permᴰ x (Permᴰ.swap e f) = Permᴰ.swap e f
append-Permᴰ x (Permᴰ.trans g h) = Permᴰ.trans (append-Permᴰ x g) (append-Permᴰ x h)

add_session-Alike :
    (id : ℕ) (p q : Publisher) → Alike p q → Alike (add_session id p) (add_session id q)
unfolding add_session
add_session-Alike id p q a =
    accept_client-Alike (record p { publisher_sessions = p.publisher_sessions ++ id ∷ [] })
      (record q { publisher_sessions = q.publisher_sessions ++ id ∷ [] })
      record { order = append-Permᴰ id a.order; rest = ground (arith, a.rest) }

pub step-Alike :
    (h : Host) (e : Event) (p q : Publisher) → Alike p q → Alike (step h e p) (step h e q)
unfolding step
step-Alike h cancel_call p q a = cancel-Alike p q a
step-Alike h (send_call stale payloads) p q a = (send-Alike h stale payloads p q a).0
step-Alike h (accept_ends i c) p q a =
    let rest = (Alike-SameRest p q a).accepting in
    let x = record p { accepting = remove_at p.accepting i } in
    let y = record q { accepting = remove_at q.accepting i } in
    taken-Alike (get_elem? p.accepting i) (get_elem? q.accepting i) (λ id. on_accept id c x)
      (λ id. on_accept id c y) p q (ap (λ l. get_elem? l i) rest) a
      (λ id. on_accept-Alike id c x y record { order = a.order; rest = ground (arith, a.rest) })
step-Alike h (accept_goes_on i) p q a =
    let rest = (Alike-SameRest p q a).accepted in
    let x = record p { accepted = remove_at p.accepted i } in
    let y = record q { accepted = remove_at q.accepted i } in
    taken-Alike (get_elem? p.accepted i) (get_elem? q.accepted i) (λ id. add_session id x)
      (λ id. add_session id y) p q (ap (λ l. get_elem? l i) rest) a
      (λ id. add_session-Alike id x y record { order = a.order; rest = ground (arith, a.rest) })
step-Alike h (session_read_ends id i c) p q a =
    on_session-Alike id (PublisherSession.step h (read_ends i c)) p q a
step-Alike h (session_write_ends id i c) p q a =
    on_session-Alike id (PublisherSession.step h (write_ends i c)) p q a

pub run-Alike :
    (h : Host) (es : List Event) (p q : Publisher) → Alike p q → Alike (run h es p) (run h es q)
unfolding run
run-Alike h [] p q a = a
run-Alike h (e ∷ es) p q a = run-Alike h es (step h e p) (step h e q) (step-Alike h e p q a)
