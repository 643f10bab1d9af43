-- ===== src/Connection/Newest.antt =====
-- A Publisher_Impl and a subscriber at the other end of a session that stays open: the newest
-- message (publisher_impl.cpp, publisher_session.cpp, subscriber_session_impl.cpp,
-- subscriber_impl.cpp).
use tcp_pubsub.PublisherSession.{PublisherSession, canceled}
use tcp_pubsub.Publisher
use tcp_pubsub.Publisher.{Publisher}
use tcp_pubsub.Subscriber
use tcp_pubsub.Subscriber.{Subscriber}
use tcp_pubsub.Publisher.Serial.{SerialEvent, serial}
use tcp_pubsub.Base.{
  ℕ, ◌≡◌, ap, ◌∙◌, true, List, arith, sym, ◌++◌, length, drop, last_or, ◌<◌, none, some,
}
use tcp_pubsub.Publisher.Own.{own}
use tcp_pubsub.SubscriberSession.{call_user}
use tcp_pubsub.PublisherSession.Mailbox.{free, view}
use tcp_pubsub.Connection.System.{calls_of, Live-Exists}
use tcp_pubsub.Wire.Endian.{Host}
use tcp_pubsub.Publisher.Own.Runs.{run-own}
use tcp_pubsub.SubscriberSession.Receive.{Waits, stream, Calls}
use tcp_pubsub.Connection.Messages.{newest_heard_last}
use tcp_pubsub.Subscriber.Delivery.{called}
use tcp_pubsub.Subscriber.Voice.{session_events}
use tcp_pubsub.Connection.Open.{Serves, gets_all_calls}

-- Idle is not closed.
pub open_if_free : (s : PublisherSession) → view s ≡ free → ¬ (s.state ≡ canceled)
open_if_free s idle gone = ground (arith, idle, gone)

-- A running publisher whose list is in order and holds a session that is idle, and a subscriber
-- with a synchronous callback whose session waits at the other end of it. Whatever happens to the
-- publisher and all its sessions, each accept handler running to its end and each call of send
-- having some data: if the one session is idle in the end, and so not closed, and all that it wrote
-- has arrived, the last call of the user's callback was with the bytes of the last call of send, and
-- there was none only if send was not called.
pub newest_reaches :
    (sender receiver : Host) {all : List (List ℕ)} (es : List SerialEvent) (i id c : ℕ)
    (p : Publisher) (s : Subscriber)
    → Serves i p
    → view (p.session i) ≡ free
    → Calls (calls_of es) all
    → id < s.next_id
    → Waits (s.session id)
    → (s.session id).synchronous_callback ≡ some (call_user c)
    → s.user_callback_is_synchronous ≡ true
    → view ((Publisher.run sender (serial es) p).session i) ≡ free
    → let written =
        drop (length (p.session i).sent) ((Publisher.run sender (serial es) p).session i).sent in
      (heard : List (List ℕ)) × (last_or none heard ≡ last_or none all)
      × ((Subscriber.run receiver (session_events id (stream written)) s).calls
          ≡ s.calls ++ called c heard)
newest_reaches sender receiver es i id c p s v idle g l w cb sync at_rest =
    let events = own sender i (serial es) p in
    let session = run-own sender (serial es) i p (Live-Exists i p v.inv v.live) in
    let given =
      gets_all_calls sender i es p v
        (open_if_free ((Publisher.run sender (serial es) p).session i) at_rest) in
    let rest = ap view (sym session) ∙ at_rest in
    let (heard, newest, calls) =
      newest_heard_last sender receiver events id c (p.session i) s v.live idle given g l w cb sync
        rest in
    (
      heard,
      newest,
      ap
            (λ (r : PublisherSession).
              (Subscriber.run receiver
                (session_events id (stream (drop (length (p.session i).sent) r.sent))) s).calls)
            session
          ∙ calls,
    )
