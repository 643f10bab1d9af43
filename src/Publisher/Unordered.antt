-- ===== src/Publisher/Unordered.antt =====
-- Publisher_Impl without an order of its subscribers: the specification forgets in which order the
-- accept handlers entered the sessions into publisher_sessions_.
use mathlib.Core.List.{Permᴰ}
use mathlib.Core.Quot
use mathlib.Core.Quot.{Quot, Quot-set}
use native.Mathlib.Nat.{ℕ_set}
use tcp_pubsub.Base.{ℕ, ◌≡◌, sym, ap, Bool, List, refl}
use tcp_pubsub.Base.Ids.Order.{length-Permᴰ}
use tcp_pubsub.Publisher.{Publisher, send, get_subscriber_count, Event, run}
use tcp_pubsub.PublisherSession.{PublisherSession}
use tcp_pubsub.Publisher.Alike.{Alike}
use tcp_pubsub.Publisher.Alike.Steps.{send-Alike, run-Alike}
use tcp_pubsub.Publisher.Message.{Payload}
use tcp_pubsub.Wire.Endian.{Host}

-- A publisher with a set of sessions, and not a list.
unfoldable pub Unordered : Type 0
Unordered = Quot Alike

unfoldable pub forget_order : Publisher → Unordered
unfolding Unordered
forget_order p = Quot.mk p

-- Publishers that differ in the order of the list are one without an order.
pub reordered :
    (p : Publisher) (ids : List ℕ)
    → Permᴰ p.publisher_sessions ids
    → forget_order p ≡ forget_order (record p { publisher_sessions = ids })
unfolding forget_order
reordered p ids order = Quot.sound (record { order = order; rest = refl })

-- What happens to the publisher.
unfoldable run_unordered : Host → List Event → Unordered → Unordered
unfolding Unordered
run_unordered h es =
    Quot.lift Quot-set (λ p. Quot.mk (run h es p)) (λ p q a. Quot.sound (run-Alike h es p q a))

objects-set : IsSet (ℕ → PublisherSession)
objects-set = hlevel ℕ_set

-- What can be seen of the publisher: the state of each session object with all that it has sent,
-- the number of subscribers, what send returns, and the errors of its closed handler.
unfoldable session_of : Unordered → ℕ → PublisherSession
unfolding Unordered
session_of = Quot.lift objects-set (λ p. p.session) (λ p q a. ap (λ x. x.session) (sym a.rest))

unfoldable subscriber_count : Unordered → ℕ
unfolding Unordered get_subscriber_count
subscriber_count = Quot.lift ℕ_set get_subscriber_count (λ p q a. length-Permᴰ a.order)

unfoldable errors : Unordered → ℕ
unfolding Unordered
errors = Quot.lift ℕ_set (λ p. p.missing) (λ p q a. ap (λ x. x.missing) (sym a.rest))

unfoldable sent_with : Host → List ℕ → List Payload → Unordered → Bool
unfolding Unordered
sent_with h stale payloads =
    Quot.lift (hlevel) (λ p. (send h stale payloads p).1)
      (λ p q a. (send-Alike h stale payloads p q a).1)

-- The order in which the sessions stand in the list cannot be seen: if two publishers are the same
-- up to that order, then after any events that happen to both of them each session object is in the
-- same state with the same buffers sent, the number of subscribers is the same, the closed handler
-- has logged as many errors, and the next send returns the same.
pub order_unobservable :
    (h : Host) (es : List Event) (p q : Publisher)
    → forget_order p ≡ forget_order q
    → let a = run h es p in
      let b = run h es q in
      (a.session ≡ b.session)
      × (get_subscriber_count a ≡ get_subscriber_count b)
      × (a.missing ≡ b.missing)
      × ((stale : List ℕ) (payloads : List Payload)
          → (send h stale payloads a).1 ≡ (send h stale payloads b).1)
unfolding forget_order run_unordered session_of subscriber_count errors sent_with
order_unobservable h es p q e =
    let after = ap (run_unordered h es) e in
    (
      ap session_of after,
      ap subscriber_count after,
      ap errors after,
      λ stale payloads. ap (sent_with h stale payloads) after,
    )
