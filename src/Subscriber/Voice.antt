-- ===== src/Subscriber/Voice.antt =====
-- Subscriber_Impl: what its user hears of the steps of a session.
use tcp_pubsub.SubscriberSession
use mathlib.Core.Path.{subst}
use tcp_pubsub.SubscriberSession.{SubscriberSession, Callback, call_user, store_data}
use tcp_pubsub.Base.{
  length, drop, drop-append, ℕ, zero, suc, ◌-◌, ◌<◌, ◌≡◌, refl, sym, ap, ◌∙◌, Option, none, some,
  List, [], ◌∷◌, ◌++◌, map, append-nil, append_assoc, arith, ==_refl,
}
use tcp_pubsub.Subscriber.{
  Subscriber, update, on_data, on_deliveries, subscriber_session_closed_handler, notify, on_session,
  Event, session_event, step, run,
}
use tcp_pubsub.SubscriberSession.Growth.{gives, step-Grows}
use tcp_pubsub.Wire.Endian.{Host}
use tcp_pubsub.Subscriber.Mode.{SameMode, SameMode-trans, on_session-mode, SameMode-refl}
use tcp_pubsub.Subscriber.Objects.{on_session-objects}

-- What the user can tell two states apart by: the calls, and what waits for the callback thread.
pub record SameVoice (s t : Subscriber) : Type 0 where
  pub mode : t.user_callback_is_synchronous ≡ s.user_callback_is_synchronous
  pub calls : t.calls ≡ s.calls
  pub last : t.last_callback_data ≡ s.last_callback_data

SameVoice-trans : {s t u : Subscriber} → SameVoice s t → SameVoice t u → SameVoice s u
SameVoice-trans f g = record {
  mode = g.mode ∙ f.mode;
  calls = g.calls ∙ f.calls;
  last = g.last ∙ f.last;
}

on_data-SameVoice :
    (c : Callback) (b : List ℕ) (s t : Subscriber)
    → SameVoice s t
    → SameVoice (on_data c b s) (on_data c b t)
unfolding on_data
on_data-SameVoice (call_user c) b s t v = ground arith
on_data-SameVoice store_data b s t v = ground arith

on_deliveries-SameVoice :
    (ds : List (Option Callback × List ℕ)) (s t : Subscriber)
    → SameVoice s t
    → SameVoice (on_deliveries ds s) (on_deliveries ds t)
unfolding on_deliveries
on_deliveries-SameVoice [] s t v = v
on_deliveries-SameVoice ((none, b) ∷ ds) s t v = on_deliveries-SameVoice ds s t v
on_deliveries-SameVoice ((some c, b) ∷ ds) s t v =
    on_deliveries-SameVoice ds (on_data c b s) (on_data c b t) (on_data-SameVoice c b s t v)

on_deliveries-append :
    (xs ys : List (Option Callback × List ℕ)) (s : Subscriber)
    → on_deliveries (xs ++ ys) s ≡ on_deliveries ys (on_deliveries xs s)
unfolding on_deliveries
on_deliveries-append [] ys s = refl
on_deliveries-append ((none, b) ∷ xs) ys s = on_deliveries-append xs ys s
on_deliveries-append ((some c, b) ∷ xs) ys s = on_deliveries-append xs ys (on_data c b s)

notify-SameVoice : (n id : ℕ) (s : Subscriber) → SameVoice s (notify n id s)
unfolding notify subscriber_session_closed_handler
notify-SameVoice zero id s = ground arith
notify-SameVoice (suc n) id s = SameVoice-trans (notify-SameVoice n id s) (ground arith)

-- A step of a session is heard as what it delivers.
pub step_heard :
    (h : Host) (e : SubscriberSession.Event) (id : ℕ) (s : Subscriber)
    → SameVoice
        (on_deliveries (gives e (s.session id)) s)
        (on_session id (SubscriberSession.step h e) s)
unfolding on_session
step_heard h e id s =
    let old = s.session id in
    let after = SubscriberSession.step h e old in
    let t : Subscriber = record s { session = update s.session id after } in
    let f = step-Grows h e old in
    let given : drop (length old.delivered) after.delivered ≡ gives e old =
      ap (drop (length old.delivered)) f.0
      ∙ drop-append (length old.delivered) old.delivered (gives e old) refl in
    let same : SameVoice s t = record { mode = refl; calls = refl; last = refl } in
    rw given (
      SameVoice-trans (on_deliveries-SameVoice (gives e old) s t same) (
        notify-SameVoice (after.closed_calls - old.closed_calls) id
          (on_deliveries (gives e old) t)))

abbrev pub session_events : ℕ → List SubscriberSession.Event → List Event
session_events id = map (session_event id)

-- What a run of a session gives to its callback.
unfoldable pub all_given :
    Host → List SubscriberSession.Event → SubscriberSession → List (Option Callback × List ℕ)
all_given h [] s = []
all_given h (e ∷ es) s = gives e s ++ all_given h es (SubscriberSession.step h e s)

pub all_given_lem :
    (h : Host) (es : List SubscriberSession.Event) (s : SubscriberSession)
    → (SubscriberSession.run h es s).delivered ≡ s.delivered ++ all_given h es s
unfolding all_given SubscriberSession.run
all_given_lem h [] s = sym (append-nil s.delivered)
all_given_lem h (e ∷ es) s =
    all_given_lem h es (SubscriberSession.step h e s)
    ∙ ap (λ d. d ++ all_given h es (SubscriberSession.step h e s)) (step-Grows h e s).0
    ∙ append_assoc s.delivered (gives e s) (all_given h es (SubscriberSession.step h e s))

-- The step of a subscriber at a session that exists.
pub step_known :
    (h : Host) (e : SubscriberSession.Event) (id : ℕ) (s : Subscriber)
    → id < s.next_id
    → step h (session_event id e) s ≡ on_session id (SubscriberSession.step h e) s
unfolding step
step_known h e id s l = ground arith

pub stepped :
    (h : Host) (e : SubscriberSession.Event) (id : ℕ) (s : Subscriber)
    → (on_session id (SubscriberSession.step h e) s).session id
      ≡ SubscriberSession.step h e (s.session id)
unfolding update
stepped h e id s = rw (on_session-objects id (SubscriberSession.step h e) s, ==_refl id) refl

on_deliveries-nil : (s : Subscriber) → SameVoice (on_deliveries [] s) s
unfolding on_deliveries
on_deliveries-nil s = record { mode = refl; calls = refl; last = refl }

pub run_heard :
    (h : Host) (es : List SubscriberSession.Event) (id : ℕ) (s : Subscriber)
    → id < s.next_id
    → SameVoice (on_deliveries (all_given h es (s.session id)) s) (run h (session_events id es) s)
      × ((run h (session_events id es) s).session id ≡ SubscriberSession.run h es (s.session id))
      × SameMode s (run h (session_events id es) s)
unfolding run all_given SubscriberSession.run
run_heard h [] id s l = (on_deliveries-nil s, refl, SameMode-refl s)
run_heard h (e ∷ es) id s l =
    let t = on_session id (SubscriberSession.step h e) s in
    let m = on_session-mode id (SubscriberSession.step h e) s in
    let given = all_given h es (SubscriberSession.step h e (s.session id)) in
    let rest = rw (stepped h e id s) at (run_heard h es id t (omega (arith, m.known))) in
    let first =
      on_deliveries-SameVoice given (on_deliveries (gives e (s.session id)) s) t
        (step_heard h e id s) in
    let now = gives e (s.session id) in
    let after = SubscriberSession.run h es (SubscriberSession.step h e (s.session id)) in
    let go = ap (run h (session_events id es)) (step_known h e id s l) in
    subst
      (λ r. SameVoice (on_deliveries (now ++ given) s) r × (r.session id ≡ after) × SameMode s r)
      (sym go)
      (
        subst (λ d. SameVoice d (run h (session_events id es) t))
            (sym (on_deliveries-append now given s)) (SameVoice-trans first rest.0),
        rest.1,
        SameMode-trans m rest.2,
      )
