-- ===== src/Subscriber/Ready.antt =====
-- Subscriber_Impl: every session that is added was given a callback first.
use tcp_pubsub.SubscriberSession
use tcp_pubsub.Base.{ℤ, ℕ, ◌<◌, ◌≡◌, false, some, List, [], ◌∷◌, arith}
use tcp_pubsub.Subscriber.{new, Event, run}
use tcp_pubsub.Subscriber.Everywhere.{Kept, run-new-AllSessions}
use tcp_pubsub.SubscriberSession.{Endpoint, SubscriberSession, set_synchronous_callback}
use tcp_pubsub.SubscriberSession.Ready.{
  AllSet, Ready, step-Ready, started-Ready, cancel-Ready, set_synchronous_callback-Ready,
}
use tcp_pubsub.Wire.Endian.{Host}

new-IsFresh :
    (ps : List Endpoint) (attempts : ℤ) (c : SubscriberSession)
    → SubscriberSession.new ps attempts ≡ some c
    → (c.canceled ≡ false) × (c.strand ≡ []) × (c.delivered ≡ [])
unfolding SubscriberSession.new
new-IsFresh [] attempts c e = cc
new-IsFresh (p ∷ ps) attempts c e = ground arith

Ready-Kept : Kept Ready
Ready-Kept = record {
  started = λ ps attempts c callback e.
      let (up, none_posted, none_yet) = new-IsFresh ps attempts c e in
      started-Ready callback c up none_posted none_yet;
  set_synchronous_callback = set_synchronous_callback-Ready;
  cancel = cancel-Ready;
  step = step-Ready;
}

-- From the constructor on, through any calls and any events: whatever a session that was added has
-- handed to its synchronous callback, the callback was set, never an empty function.
pub never_calls_empty :
    (h : Host) (session : ℕ → SubscriberSession) (es : List Event) (id : ℕ)
    → id < (run h es (new session)).next_id
    → AllSet ((run h es (new session)).session id).delivered
never_calls_empty h session es id l =
    ((run-new-AllSessions Ready Ready-Kept h session es).every id l).past
