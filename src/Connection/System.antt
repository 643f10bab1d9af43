-- ===== src/Connection/System.antt =====
-- A Publisher_Impl with all its sessions, and a Subscriber_Impl whose session is at the other end of
-- one of them (publisher_impl.cpp, publisher_session.cpp, subscriber_session_impl.cpp,
-- subscriber_impl.cpp): which calls of `send` reach the user's callback.
use mathlib.Core.List.{Sublist, Sublistᴰ}
use mathlib.Core.List.Sublistᴰ
use mathlib.Core.List.Sublist
use mathlib.Core.Path.{subst}
use tcp_pubsub.PublisherSession
use tcp_pubsub.PublisherSession.{PublisherSession}
use tcp_pubsub.Publisher
use tcp_pubsub.Publisher.{Publisher}
use tcp_pubsub.Subscriber
use tcp_pubsub.Subscriber.{Subscriber}
use tcp_pubsub.Publisher.Own.{Exists, handed, events_of, own}
use tcp_pubsub.Publisher.Serial.{
  SerialEvent, accepts, cancels, sends, read_of, write_of, steps, serial, steps-Inv,
}
use tcp_pubsub.Base.{
  ◌==◌, if◌then◌else◌, ==→≡, Bool-cases, ℕ, ◌≡◌, refl, sym, ap, ◌∙◌, inl, inr, Bool, true, false,
  some, List, [], ◌∷◌, ◌++◌, append-nil, append_assoc, arith, length, drop, map-Sublist, ◌<◌, map,
}
use tcp_pubsub.Base.Ids.{contains, Distinct}
use tcp_pubsub.Publisher.Invariant.{Inv, IsFresh}
use tcp_pubsub.Publisher.Message.{Payload, prepare_buffer}
use tcp_pubsub.SubscriberSession.Receive.{prepared, Waits, stream, Calls}
use tcp_pubsub.PublisherSession.SendOrder.{submitted}
use tcp_pubsub.Wire.Endian.{Host}
use tcp_pubsub.Asio.{failed, done}
use tcp_pubsub.Publisher.Own.Runs.{run-own}
use tcp_pubsub.SubscriberSession.{call_user}
use tcp_pubsub.PublisherSession.SendQueue.{Live}
use tcp_pubsub.PublisherSession.Mailbox.{free, view}
use tcp_pubsub.Connection.Messages.{payload_of, map-prepared, picked, heard_in_order}
use tcp_pubsub.Subscriber.Delivery.{called}
use tcp_pubsub.Subscriber.Voice.{session_events}

-- The calls of send.
abbrev pub call_of : SerialEvent → List (List ℕ × List Payload)
call_of (accepts i c) = []
call_of cancels = []
call_of (sends stale payloads) = (stale, payloads) ∷ []
call_of (read_of id i c) = []
call_of (write_of id i c) = []

abbrev pub calls_of : List SerialEvent → List (List ℕ × List Payload)
calls_of [] = []
calls_of (e ∷ es) = call_of e ++ calls_of es

pub prepared-append :
    (h : Host) (xs ys : List (List ℕ × List Payload))
    → prepared h (xs ++ ys) ≡ prepared h xs ++ prepared h ys
prepared-append h [] ys = refl
prepared-append h ((stale, ps) ∷ xs) ys =
    ap (◌∷◌ (prepare_buffer h stale ps)) (prepared-append h xs ys)

pub submitted-append :
    (xs ys : List PublisherSession.Event) → submitted (xs ++ ys) ≡ submitted xs ++ submitted ys
submitted-append [] ys = refl
submitted-append (PublisherSession.send_call b ∷ xs) ys = ap (◌∷◌ b) (submitted-append xs ys)
submitted-append (PublisherSession.cancel_call ∷ xs) ys = submitted-append xs ys
submitted-append (PublisherSession.read_ends i c ∷ xs) ys = submitted-append xs ys
submitted-append (PublisherSession.write_ends i c ∷ xs) ys = submitted-append xs ys

pub own-append :
    (h : Host) (id : ℕ) (xs ys : List Publisher.Event) (p : Publisher)
    → own h id (xs ++ ys) p ≡ own h id xs p ++ own h id ys (Publisher.run h xs p)
unfolding Publisher.run
own-append h id [] ys p = refl
own-append h id (x ∷ xs) ys p =
    ap (◌++◌ (events_of h id x p)) (own-append h id xs ys (Publisher.step h x p))
    ∙ sym (append_assoc (events_of h id x p) (own h id xs (Publisher.step h x p)) _)

pub handed_none :
    (id : ℕ) (e : PublisherSession.Event) (js : List ℕ)
    → contains id js ≡ false
    → handed id e js ≡ []
unfolding contains
handed_none id e [] out = refl
handed_none id e (j ∷ js) out = ground (arith, handed_none id e js)

-- A session in a list of distinct ones gets a buffer once.
handed_once :
    (id : ℕ) (b : List ℕ) (js : List ℕ)
    → Distinct js
    → Sublistᴰ (submitted (handed id (PublisherSession.send_call b) js)) (b ∷ [])
handed_once id b [] d = Sublistᴰ.nil-sublist _
handed_once id b (j ∷ js) d = elim (Bool-cases (id == j)) [
  | inl same ↦
      let e = PublisherSession.send_call b in
      let none_more : handed id e js ≡ [] =
        handed_none id e js (ap (λ k. contains k js) (==→≡ id j same) ∙ d.0) in
      rw (same, none_more) (Sublistᴰ.refl _)
  | inr other ↦ rw other (handed_once id b js d.1)
]

pub cancels_submit_none :
    (id : ℕ) (js : List ℕ) → submitted (handed id PublisherSession.cancel_call js) ≡ []
cancels_submit_none id [] = refl
cancels_submit_none id (j ∷ js) = elim (Bool-cases (id == j)) [
  | inl same ↦ rw same (cancels_submit_none id js)
  | inr other ↦ rw other (cancels_submit_none id js)
]

part_if :
    (c : Bool) (es : List PublisherSession.Event) {bs : List (List ℕ)}
    → Sublistᴰ (submitted es) bs
    → Sublistᴰ (submitted (if c then es else [])) bs
part_if true es d = d
part_if false es d = Sublistᴰ.nil-sublist _

steps_submit :
    (h : Host) (id : ℕ) (e : SerialEvent) (p : Publisher)
    → Inv p
    → Sublistᴰ (submitted (own h id (steps e) p)) (prepared h (call_of e))
steps_submit h id (accepts i failed) p v = Sublistᴰ.slnil
steps_submit h id (accepts i (done bytes)) p v = Sublistᴰ.slnil
steps_submit h id cancels p v =
    rw (append-nil, cancels_submit_none id p.publisher_sessions) Sublistᴰ.slnil
steps_submit h id (sends stale ps) p v = rw append-nil (
    part_if p.is_running _
      (handed_once id (prepare_buffer h stale ps) p.publisher_sessions v.distinct))
steps_submit h id (read_of j i c) p v = rw append-nil (part_if (id == j) _ Sublistᴰ.slnil)
steps_submit h id (write_of j i c) p v = rw append-nil (part_if (id == j) _ Sublistᴰ.slnil)

-- What a session is given is what send prepares for some of its calls, in their order.
serial_submits :
    (h : Host) (id : ℕ) (es : List SerialEvent) (p : Publisher)
    → Inv p
    → Sublistᴰ (submitted (own h id (serial es) p)) (prepared h (calls_of es))
serial_submits h id [] p v = Sublistᴰ.slnil
serial_submits h id (e ∷ es) p v =
    let q = Publisher.run h (steps e) p in
    let now = own h id (steps e) p in
    let later = own h id (serial es) q in
    let from =
      ap submitted (own-append h id (steps e) (serial es) p) ∙ submitted-append now later in
    let into = prepared-append h (call_of e) (calls_of es) in
    subst (λ (r : List (List ℕ) × List (List ℕ)). Sublistᴰ r.0 r.1) (λ i. (sym from i, sym into i))
      (Sublistᴰ.append (steps_submit h id e p v) (serial_submits h id es q (steps-Inv h e p v)))

-- A session whose handshake is over exists, and is not one that waits to be accepted.
pub not_fresh : (s : PublisherSession) → Live s → ¬ IsFresh s
unfolding PublisherSession.new
not_fresh s (inl settled) e =
    ground (arith, settled.is_up, ap (λ (r : PublisherSession). r.state) e)
not_fresh s (inr gone) e = ground (arith, gone, ap (λ (r : PublisherSession). r.state) e)

pub Live-Exists : (i : ℕ) (p : Publisher) → Inv p → Live (p.session i) → Exists i p
Live-Exists i p v live = record {
  known = ground (arith, v.unused i, not_fresh (p.session i) live);
  not_accepting = elim (Bool-cases (contains i p.accepting)) [
    | inl here ↦ absurd (not_fresh (p.session i) live (v.accepting_fresh i here).2)
    | inr out ↦ out
  ];
}

-- A publisher whose list is in order, with a session that is idle, and a subscriber with a
-- synchronous callback whose session waits at the other end of it. Whatever happens to the
-- publisher and all its sessions, each accept handler running to its end and each call of send
-- having some data: once all that the one session wrote has arrived, the user's callback was called
-- with the bytes of some of the calls of send, none twice, and in the order of the calls.
pub subscriber_hears :
    (sender receiver : Host) {all : List (List ℕ)} (es : List SerialEvent) (i id c : ℕ)
    (p : Publisher) (s : Subscriber)
    → Inv p
    → Live (p.session i)
    → view (p.session i) ≡ free
    → Calls (calls_of es) all
    → id < s.next_id
    → Waits (s.session id)
    → (s.session id).synchronous_callback ≡ some (call_user c)
    → s.user_callback_is_synchronous ≡ true
    → let written =
        drop (length (p.session i).sent) ((Publisher.run sender (serial es) p).session i).sent in
      (heard : List (List ℕ)) × Sublist heard all
      × ((Subscriber.run receiver (session_events id (stream written)) s).calls
          ≡ s.calls ++ called c heard)
subscriber_hears sender receiver es i id c p s v live idle g l w cb sync =
    let events = own sender i (serial es) p in
    let part = serial_submits sender i es p v in
    let (some_calls, same, good) = picked sender (submitted events) g part in
    let (heard, in_order, calls) =
      heard_in_order sender receiver events id c (p.session i) s live idle same good l w cb sync in
    let of_all =
      subst (Sublist (map payload_of (submitted events))) (map-prepared sender g)
        ∣ map-Sublist payload_of part ∣₁ in
    let session = run-own sender (serial es) i p (Live-Exists i p v live) in
    (
      heard,
      Sublist.trans in_order of_all,
      ap
            (λ (r : PublisherSession).
              (Subscriber.run receiver
                (session_events id (stream (drop (length (p.session i).sent) r.sent))) s).calls)
            session
          ∙ calls,
    )
