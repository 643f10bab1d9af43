-- ===== src/Publisher/Sessions.antt =====
-- Publisher: the list of sessions as a set of numbers, and one operation on a session.
use tcp_pubsub.PublisherSession.{PublisherSession}
use tcp_pubsub.Base.{ℕ, suc, ◌≡◌, arith}
use tcp_pubsub.Publisher.{Publisher, update, publisher_session_closed_handler, notify, on_session}

-- An operation that does not close its session leaves the publisher's list alone.
pub on_session_open :
    (id : ℕ) (operation : PublisherSession → PublisherSession) (p : Publisher)
    → (operation (p.session id)).closed_calls ≡ (p.session id).closed_calls
    → on_session id operation p
      ≡ record p { session = update p.session id (operation (p.session id)) }
unfolding on_session notify
on_session_open id operation p e = ground arith

-- One that closes it runs the publisher's handler once.
pub on_session_closing :
    (id : ℕ) (operation : PublisherSession → PublisherSession) (p : Publisher)
    → (operation (p.session id)).closed_calls ≡ suc (p.session id).closed_calls
    → on_session id operation p
      ≡ publisher_session_closed_handler id
          (record p { session = update p.session id (operation (p.session id)) })
unfolding on_session notify
on_session_closing id operation p e = ground arith
