-- ===== src/Api.antt =====
-- tcp_pubsub/src/publisher.cpp, subscriber.cpp, subscriber_session.cpp, executor.cpp: the classes
-- that a user sees, which pass each call on to an implementation.
mod Examples
use tcp_pubsub.Publisher
use tcp_pubsub.Subscriber
use tcp_pubsub.SubscriberSession
use tcp_pubsub.Executor
use tcp_pubsub.Publisher.{Publisher, StartResults}
use tcp_pubsub.Subscriber.{Subscriber}
use tcp_pubsub.SubscriberSession.{SubscriberSession, Endpoint}
use tcp_pubsub.Executor.{Executor}
use mathlib.Core.Path.{subst}
use Prim.Native.String.{String}
use tcp_pubsub.Publisher.Message.Content.{prepare_buffer-eq}
use tcp_pubsub.Base.{
  length, ℤ, ℕ, ◌+◌, ◌^◌, ◌<◌, ◌≡◌, refl, sym, ◌∙◌, Bool, true, not, Option, some, List, [], ◌∷◌,
  append-nil,
}
use tcp_pubsub.Publisher.Message.{Payload, prepare_buffer, AllGiven, nil}
use tcp_pubsub.Wire.Header.{sizeof_header}
use tcp_pubsub.Wire.Endian.{Host}

-- The constructor of Publisher does not tell whether start() succeeded.
unfoldable pub new_publisher : StartResults → Publisher
unfolding Publisher.start Publisher.new
new_publisher r = (Publisher.start r Publisher.new).0

unfoldable pub delete_publisher : Publisher → Publisher
unfolding Publisher.cancel
delete_publisher p = Publisher.cancel p

-- send of one piece of memory
unfoldable pub send_data : Host → List ℕ → Option (List ℕ) → ℕ → Publisher → Publisher × Bool
unfolding Publisher.send
send_data h stale memory size p =
    Publisher.send h stale (record { first = memory; second = size } ∷ []) p

-- addSession with one publisher
unfoldable pub add_session_at : String → ℕ → ℤ → Subscriber → Option Subscriber
unfolding Subscriber.add_session
add_session_at address port max_reconnection_attempts s =
    Subscriber.add_session ((address, port) ∷ []) max_reconnection_attempts s

-- The empty callback is set as a synchronous one.
unfoldable pub clear_callback : Subscriber → Subscriber
unfolding Subscriber.set_callback
clear_callback s = Subscriber.set_callback 0 true s

unfoldable pub delete_subscriber : Subscriber → Subscriber
unfolding Subscriber.cancel
delete_subscriber s = Subscriber.cancel s

unfoldable pub get_sessions : Subscriber → List ℕ
get_sessions s = s.session_list

unfoldable pub get_publisher_list : SubscriberSession → List Endpoint
get_publisher_list s = s.publisher_list

unfoldable pub get_connected_publisher : SubscriberSession → Endpoint
get_connected_publisher s = s.connected_publisher_endpoint

-- `ec` is set if the socket has no remote endpoint.
unfoldable pub is_connected : (ec : Bool) → Bool
is_connected ec = not ec

unfoldable pub delete_subscriber_session : SubscriberSession → SubscriberSession
unfolding SubscriberSession.cancel
delete_subscriber_session s = SubscriberSession.cancel s

unfoldable pub new_executor : ℕ → Executor
new_executor thread_count = Executor.start thread_count Executor.new

unfoldable pub delete_executor : Executor → Executor
delete_executor e = Executor.stop e

one_given :
    (bytes : List ℕ) → AllGiven (record { first = some bytes; second = length bytes } ∷ []) bytes
one_given bytes =
    subst (AllGiven (record { first = some bytes; second = length bytes } ∷ [])) (append-nil bytes)
      (AllGiven.cons (refl, refl) AllGiven.nil)

gathered :
    (h : Host) (stale other : List ℕ) {ps : List Payload} {bytes : List ℕ}
    → AllGiven ps bytes
    → sizeof_header + length bytes < 2 ^ 64
    → prepare_buffer h stale ps
      ≡ prepare_buffer h other (record { first = some bytes; second = length bytes } ∷ [])
gathered h stale other {ps} {bytes} g fits =
    prepare_buffer-eq h stale g fits ∙ sym (prepare_buffer-eq h other (one_given bytes) fits)

-- A message that is gathered from several pieces of memory, none of them null, does to the
-- publisher and its sessions, and returns, what a message does whose bytes lie in one piece,
-- whatever the buffers of the pool held.
pub send_gathered :
    (h : Host) (stale other : List ℕ) (p : Publisher) {ps : List Payload} {bytes : List ℕ}
    → AllGiven ps bytes
    → sizeof_header + length bytes < 2 ^ 64
    → Publisher.send h stale ps p ≡ send_data h other (some bytes) (length bytes) p
unfolding send_data Publisher.send
send_gathered h stale other p g fits = rw (gathered h stale other g fits) refl
