-- ===== src/Asio.antt =====
-- What the components see of asio: how an asynchronous operation ends. asio itself is not
-- modelled; an operation that was started is in a list of its owner until an event completes it.
use tcp_pubsub.Base.{ℕ, List}

-- The arguments of a completion handler: an error_code that is set, or success with the bytes
-- that a read stored in its buffer (none for other operations).
pub data Completion : Type 0 where
  failed : Completion
  done : List ℕ → Completion
