-- ===== src/Subscriber/State.antt =====
-- Subscriber_Impl: its state.
use tcp_pubsub.SubscriberSession.{SubscriberSession}
use tcp_pubsub.Base.{ℕ, Bool, true, Option, none, List, []}

pub record Subscriber : Type 0 where
  pub session : ℕ → SubscriberSession
  pub next_id : ℕ
  pub session_list : List ℕ
  pub missing : ℕ
  pub last_callback_data : Option (List ℕ)
  pub user_callback_is_synchronous : Bool
  pub synchronous_user_callback : ℕ
  pub callback_thread : Option ℕ
  pub callback_thread_stop : Bool
  pub calls : List (ℕ × List ℕ)

-- The constructor; the session objects do not exist yet and can be any.
unfoldable pub new : (ℕ → SubscriberSession) → Subscriber
new session = record {
  session = session;
  next_id = 0;
  session_list = [];
  missing = 0;
  last_callback_data = none;
  user_callback_is_synchronous = true;
  synchronous_user_callback = 0;
  callback_thread = none;
  callback_thread_stop = true;
  calls = [];
}
