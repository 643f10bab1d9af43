-- ===== src/Subscriber/Objects.antt =====
-- Subscriber_Impl: what a step of a session does to the session objects and to the list.
use tcp_pubsub.Base.{
  ◌==◌, if◌then◌else◌, length, drop, ℕ, zero, suc, ◌-◌, ◌≡◌, refl, ◌∙◌, Option, none, some, List,
  [], ◌∷◌, arith,
}
use tcp_pubsub.Base.Ids.{erase, Distinct, contains-erase, erase-absent}
use tcp_pubsub.Subscriber.{
  Subscriber, update, on_data, on_deliveries, subscriber_session_closed_handler, notify, on_session,
}
use tcp_pubsub.SubscriberSession.{Callback, call_user, store_data, SubscriberSession}

-- The list and the session objects of one state are those of another.
record SameSessions (s t : Subscriber) : Type 0 where
  list : t.session_list ≡ s.session_list
  objects : t.session ≡ s.session

on_data-sessions : (c : Callback) (b : List ℕ) (s : Subscriber) → SameSessions s (on_data c b s)
unfolding on_data
on_data-sessions (call_user c) b s = ground arith
on_data-sessions store_data b s = ground arith

on_deliveries-sessions :
    (ds : List (Option Callback × List ℕ)) (s : Subscriber) → SameSessions s (on_deliveries ds s)
unfolding on_deliveries
on_deliveries-sessions [] s = ground arith
on_deliveries-sessions ((none, b) ∷ ds) s = on_deliveries-sessions ds s
on_deliveries-sessions ((some c, b) ∷ ds) s =
    let f = on_data-sessions c b s in
    let g = on_deliveries-sessions ds (on_data c b s) in
    record { list = g.list ∙ f.list; objects = g.objects ∙ f.objects }

notify-objects : (n id : ℕ) (s : Subscriber) → (notify n id s).session ≡ s.session
unfolding notify subscriber_session_closed_handler
notify-objects zero id s = refl
notify-objects (suc n) id s = ground (arith, notify-objects n id s)

-- A step of one session changes no other.
pub on_session-objects :
    (id : ℕ) (operation : SubscriberSession → SubscriberSession) (s : Subscriber)
    → (on_session id operation s).session ≡ update s.session id (operation (s.session id))
unfolding on_session
on_session-objects id operation s =
    let old = s.session id in
    let after = operation old in
    let t : Subscriber = record s { session = update s.session id after } in
    let given = drop (length old.delivered) after.delivered in
    notify-objects (after.closed_calls - old.closed_calls) id (on_deliveries given t)
    ∙ (on_deliveries-sessions given t).objects

-- The closed handler takes the session off the list, however often it is called.
notify_lem :
    (n id : ℕ) (s : Subscriber)
    → Distinct s.session_list
    → (notify n id s).session_list ≡ (if n == 0 then s.session_list else erase id s.session_list)
unfolding notify subscriber_session_closed_handler
notify_lem zero id s d = ground arith
notify_lem (suc n) id s d = ground (
  arith,
  notify_lem n id s d,
  contains-erase id id s.session_list d,
  erase-absent id s.session_list,
)

pub on_session_lem :
    (id : ℕ) (operation : SubscriberSession → SubscriberSession) (s : Subscriber)
    → Distinct s.session_list
    → (on_session id operation s).session_list ≡ (
        if (operation (s.session id)).closed_calls - (s.session id).closed_calls == 0
        then s.session_list
        else erase id s.session_list)
unfolding on_session
on_session_lem id operation s d =
    let old = s.session id in
    let after = operation old in
    let t : Subscriber = record s { session = update s.session id after } in
    let given = drop (length old.delivered) after.delivered in
    let f = on_deliveries-sessions given t in
    let n = after.closed_calls - old.closed_calls in
    notify_lem n id (on_deliveries given t) (rw f.list d) ∙ rw f.list refl
