-- ===== src/Connection/Messages.antt =====
-- A PublisherSession that is given the buffers of Publisher_Impl::send, and a Subscriber_Impl whose
-- session reads what it writes (publisher_session.cpp, subscriber_session_impl.cpp,
-- subscriber_impl.cpp): which of the messages reach the user's callback.
use mathlib.Core.List.{Sublist, Sublistᴰ}
use mathlib.Core.List.Sublistᴰ
use mathlib.Core.Path.{subst}
use mathlib.Core.Option
use tcp_pubsub.PublisherSession
use tcp_pubsub.PublisherSession.{PublisherSession}
use tcp_pubsub.Subscriber
use tcp_pubsub.Subscriber.{Subscriber}
use tcp_pubsub.Base.{
  length, drop, drop-append, ℕ, ◌+◌, ◌^◌, ◌<◌, ◌≡◌, refl, sym, ap, ap₂, ◌∙◌, inl, inr, some, List,
  [], ◌∷◌, ◌++◌, map, last_or, last_or-map, map-Sublist, true, none,
}
use tcp_pubsub.Wire.Header.{regular_payload, sizeof_header, encode_header, length-encode_header}
use tcp_pubsub.Wire.Endian.{Host}
use tcp_pubsub.Publisher.Message.{Payload, prepare_buffer, AllGiven}
use tcp_pubsub.Publisher.Message.Content.{prepare_buffer-eq}
use tcp_pubsub.SubscriberSession.Receive.{prepared, Calls, Waits, stream}
use tcp_pubsub.PublisherSession.Mailbox.{free, run_mailbox, op_of, view, view-run}
use tcp_pubsub.PublisherSession.SendQueue.{Live}
use tcp_pubsub.SubscriberSession.{call_user}
use tcp_pubsub.PublisherSession.Mailbox.Order.{run_mailbox-order, run_mailbox-last, puts-map}
use tcp_pubsub.PublisherSession.SendOrder.{submitted}
use tcp_pubsub.Subscriber.Delivery.{called, messages_reach_user}
use tcp_pubsub.Subscriber.Voice.{session_events}

-- The bytes behind the header of a message.
abbrev pub payload_of : List ℕ → List ℕ
payload_of = drop sizeof_header

payload_of-prepare_buffer :
    (h : Host) (stale : List ℕ) {ps : List Payload} {bytes : List ℕ}
    → AllGiven ps bytes
    → sizeof_header + length bytes < 2 ^ 64
    → payload_of (prepare_buffer h stale ps) ≡ bytes
payload_of-prepare_buffer h stale {ps} {bytes} g fits =
    ap payload_of (prepare_buffer-eq h stale g fits)
    ∙ drop-append sizeof_header (encode_header regular_payload (length bytes)) bytes
        (length-encode_header regular_payload (length bytes))

pub map-prepared :
    (h : Host) {calls : List (List ℕ × List Payload)} {all : List (List ℕ)}
    → Calls calls all
    → map payload_of (prepared h calls) ≡ all
map-prepared h Calls.nil = refl
map-prepared h (Calls.cons {stale} g some_data fits more) =
    ap₂ ◌∷◌ (payload_of-prepare_buffer h stale g fits) (map-prepared h more)

-- Part of what is prepared for some calls is what is prepared for part of the calls.
pub picked :
    (h : Host) {calls : List (List ℕ × List Payload)} {all : List (List ℕ)} (out : List (List ℕ))
    → Calls calls all
    → Sublistᴰ out (prepared h calls)
    → (some_calls : List (List ℕ × List Payload)) × (out ≡ prepared h some_calls)
      × Calls some_calls (map payload_of out)
picked h out Calls.nil d =
    let e = Sublistᴰ.eq-nil d in ([], e, subst (λ l. Calls [] (map payload_of l)) (sym e) Calls.nil)
picked h out (Calls.cons {stale} {ps} {bytes} {calls} g some_data fits more) d =
    elim (Sublistᴰ.cases_cons d) [
      | inl left_out ↦ picked h out more left_out
      | inr (rest, e, in_order) ↦
          let (chosen, same, good) = picked h rest more in_order in
          (
            (stale, ps) ∷ chosen,
            e ∙ ap (◌∷◌ (prepare_buffer h stale ps)) same,
            subst (Calls ((stale, ps) ∷ chosen))
                (ap₂ ◌∷◌ (sym (payload_of-prepare_buffer h stale g fits)) refl
                  ∙ ap (map payload_of) (sym e))
                (Calls.cons g some_data fits good),
          )
    ]

-- What an idle session has written since, as the mailbox writes it.
abbrev pub output : List PublisherSession.Event → List (List ℕ)
output es = (run_mailbox (map op_of es) free).1

pub written_lem :
    (h : Host) (es : List PublisherSession.Event) (p : PublisherSession)
    → Live p
    → view p ≡ free
    → (view (PublisherSession.run h es p) ≡ (run_mailbox (map op_of es) free).0)
      × ((PublisherSession.run h es p).sent ≡ p.sent ++ output es)
written_lem h es p live idle =
    subst
      (λ m.
        (view (PublisherSession.run h es p) ≡ (run_mailbox (map op_of es) m).0)
        × ((PublisherSession.run h es p).sent ≡ p.sent ++ (run_mailbox (map op_of es) m).1))
      idle (view-run h es p live)

-- The output is a part of what the calls of send prepared, and is that of some of the calls.
pub part_prepared :
    (sender : Host) {calls : List (List ℕ × List Payload)} {all : List (List ℕ)}
    (es : List PublisherSession.Event)
    → submitted es ≡ prepared sender calls
    → Calls calls all
    → Sublist (map payload_of (output es)) all
      × ((some_calls : List (List ℕ × List Payload)) × (output es ≡ prepared sender some_calls)
          × Calls some_calls (map payload_of (output es)))
part_prepared sender es given g =
    let part =
      subst (Sublistᴰ (output es)) (puts-map es ∙ given) (run_mailbox-order (map op_of es) free) in
    (
      subst (Sublist (map payload_of (output es))) (map-prepared sender g)
          ∣ map-Sublist payload_of part ∣₁,
      picked sender (output es) g part,
    )

-- The sessions' two ends: what is heard is what the output holds.
output_heard :
    (sender receiver : Host) {calls : List (List ℕ × List Payload)} {all : List (List ℕ)}
    (es : List PublisherSession.Event) (id c : ℕ) (p : PublisherSession) (s : Subscriber)
    → Live p
    → view p ≡ free
    → submitted es ≡ prepared sender calls
    → Calls calls all
    → id < s.next_id
    → Waits (s.session id)
    → (s.session id).synchronous_callback ≡ some (call_user c)
    → s.user_callback_is_synchronous ≡ true
    → let written = drop (length p.sent) (PublisherSession.run sender es p).sent in
      (Subscriber.run receiver (session_events id (stream written)) s).calls
      ≡ s.calls ++ called c (map payload_of (output es))
output_heard sender receiver es id c p s live idle given g l w cb sync =
    let (chosen, same, good) = (part_prepared sender es given g).1 in
    let written =
      ap (drop (length p.sent)) (written_lem sender es p live idle).1
      ∙ drop-append (length p.sent) p.sent (output es) refl
      ∙ same in
    ap (λ ms. (Subscriber.run receiver (session_events id (stream ms)) s).calls) written
    ∙ messages_reach_user sender receiver id c s good l w cb sync

-- A session of the publisher that is idle, and a subscriber with a synchronous callback whose
-- session waits at the other end. The publisher's session is given what send prepared for some
-- calls, each with some data, with anything else happening in between. Once all that it wrote has
-- arrived, the user's callback was called with the bytes of some of the calls: none twice, and in
-- the order of the calls.
pub heard_in_order :
    (sender receiver : Host) {calls : List (List ℕ × List Payload)} {all : List (List ℕ)}
    (es : List PublisherSession.Event) (id c : ℕ) (p : PublisherSession) (s : Subscriber)
    → Live p
    → view p ≡ free
    → submitted es ≡ prepared sender calls
    → Calls calls all
    → id < s.next_id
    → Waits (s.session id)
    → (s.session id).synchronous_callback ≡ some (call_user c)
    → s.user_callback_is_synchronous ≡ true
    → let written = drop (length p.sent) (PublisherSession.run sender es p).sent in
      (heard : List (List ℕ)) × Sublist heard all
      × ((Subscriber.run receiver (session_events id (stream written)) s).calls
          ≡ s.calls ++ called c heard)
heard_in_order sender receiver es id c p s live idle given g l w cb sync = (
  map payload_of (output es),
  (part_prepared sender es given g).0,
  output_heard sender receiver es id c p s live idle given g l w cb sync,
)

pub last_payload :
    (sender : Host) {calls : List (List ℕ × List Payload)} {all : List (List ℕ)}
    (es : List PublisherSession.Event) (p : PublisherSession)
    → Live p
    → view p ≡ free
    → submitted es ≡ prepared sender calls
    → Calls calls all
    → view (PublisherSession.run sender es p) ≡ free
    → last_or none (map payload_of (output es)) ≡ last_or none all
last_payload sender {calls} {all} es p live idle given g at_rest =
    let ends = sym (written_lem sender es p live idle).0 ∙ at_rest in
    last_or-map payload_of none (output es)
    ∙ ap (Option.map payload_of)
        (run_mailbox-last (map op_of es) free none ends ∙ ap (last_or none) (puts-map es ∙ given))
    ∙ sym (last_or-map payload_of none (prepared sender calls))
    ∙ ap (last_or none) (map-prepared sender g)

-- A session of the publisher that is idle, and a subscriber with a synchronous callback whose
-- session waits at the other end. The publisher's session is given what send prepared for some
-- calls, each with some data, with anything else happening in between, and is idle again in the
-- end. Once all that it wrote has arrived, the last call of the user's callback was with the bytes
-- of the last call of send, and there was none only if send was not called.
pub newest_heard_last :
    (sender receiver : Host) {calls : List (List ℕ × List Payload)} {all : List (List ℕ)}
    (es : List PublisherSession.Event) (id c : ℕ) (p : PublisherSession) (s : Subscriber)
    → Live p
    → view p ≡ free
    → submitted es ≡ prepared sender calls
    → Calls calls all
    → id < s.next_id
    → Waits (s.session id)
    → (s.session id).synchronous_callback ≡ some (call_user c)
    → s.user_callback_is_synchronous ≡ true
    → view (PublisherSession.run sender es p) ≡ free
    → let written = drop (length p.sent) (PublisherSession.run sender es p).sent in
      (heard : List (List ℕ)) × (last_or none heard ≡ last_or none all)
      × ((Subscriber.run receiver (session_events id (stream written)) s).calls
          ≡ s.calls ++ called c heard)
newest_heard_last sender receiver es id c p s live idle given g l w cb sync at_rest = (
  map payload_of (output es),
  last_payload sender es p live idle given g at_rest,
  output_heard sender receiver es id c p s live idle given g l w cb sync,
)
