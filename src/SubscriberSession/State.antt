-- ===== src/SubscriberSession/State.antt =====
-- SubscriberSession_Impl: its state, with what is in flight and what is posted to the strand.
use tcp_pubsub.Base.{ℤ, ℕ, Bool, false, Option, none, some, List, [], ◌∷◌}
use tcp_pubsub.Wire.Header.{TcpHeader}
use Prim.Native.String.{String}

-- Address and port of a publisher.
abbrev pub Endpoint : Type 0
Endpoint = String × ℕ

-- The functions that Subscriber_Impl gives to setSynchronousCallback: one that calls a user's
-- callback, here a number, and one that stores the buffer for the callback thread.
pub data Callback : Type 0 where
  call_user : ℕ → Callback
  store_data : Callback

pub data Operation : Type 0 where
  resolve : (publisher_list_index : ℕ) → Operation
  connect : (publisher_list_index : ℕ) → Operation
  write_handshake : List ℕ → Operation
  retry_wait : Operation
  header_length : TcpHeader → Operation
  header_content : TcpHeader → (bytes_to_read bytes_to_discard : ℕ) → Operation
  discard : TcpHeader → (bytes_to_discard : ℕ) → Operation
  payload : TcpHeader → (size : ℕ) → Operation

-- A handler posted to the strand.
pub data Posted : Type 0 where
  deliver : List ℕ → TcpHeader → Posted
  next_message : Posted
  set_callback : Callback → Posted

pub record SubscriberSession : Type 0 where
  pub publisher_list : List Endpoint
  pub connected_publisher_endpoint : Endpoint
  pub max_reconnection_attempts : ℤ
  pub retries_left : ℤ
  pub canceled : Bool
  pub socket_open : Bool
  pub synchronous_callback : Option Callback
  pub operations : List Operation
  pub strand : List Posted
  pub delivered : List (Option Callback × List ℕ)
  pub closed_calls : ℕ

-- The constructor, which throws for an empty list of publishers.
unfoldable pub new : List Endpoint → ℤ → Option SubscriberSession
new [] max_reconnection_attempts = none
new (publisher ∷ more) max_reconnection_attempts = some (record {
  publisher_list = publisher ∷ more;
  connected_publisher_endpoint = ("", 0);
  max_reconnection_attempts = max_reconnection_attempts;
  retries_left = max_reconnection_attempts;
  canceled = false;
  socket_open = false;
  synchronous_callback = none;
  operations = [];
  strand = [];
  delivered = [];
  closed_calls = 0;
})
