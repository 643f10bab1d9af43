-- ===== src/Lib.antt =====
-- tcp_pubsub: publishers send messages over TCP to the subscribers that connect to them.
--
-- A publisher (tcp_pubsub/src/publisher_impl.cpp) accepts connections, has one session for each
-- (publisher_session.cpp), and hands the buffer of each message to all of them; a session sends
-- one buffer at a time and keeps at most one more, the newest. A subscriber's session
-- (subscriber_session_impl.cpp) connects to the first of a list of publishers, sends a handshake,
-- reads messages and hands each to a callback, and retries when anything fails. A message is a
-- header (tcp_header.h) and its payload.
--
-- Files:
--   Base            shared names, tests, lists and integers
--   Asio            how an asynchronous operation ends
--   Wire            tcp_header.h, protocol_handshake_message.h, portable_endian.h: Endian has the
--                   byte orders, Header the fields of a header in memory, and
--                   how much of a stream is read for a header
--   PublisherSession    publisher_session.{h,cpp}: one function for each method and completion
--                   handler, under the method's name in snake case (`on_read` and `on_written` are
--                   the lambdas). Lifecycle, Cancel, Handshake, SendQueue, SendOrder prove; Mailbox
--                   specifies the send queue as a machine of its own; Interrupted has a whole
--                   session with the end of its handshake in steps of single accesses, Race two
--                   threads on state_ alone
--   Publisher       publisher_impl.{h,cpp}; Message is the building of a buffer in `send`; Sessions,
--                   Invariant, Accept, Calls, Serial and Delivery prove; Own has the events that
--                   one session gets; Alike and Unordered forget the order of the list
--   SubscriberSession   subscriber_session_impl.{h,cpp}; Receive, Attempts, Rounds, Retry,
--                   Listing, Strand, Closing, Growth, Known, Ready and Silence prove;
--                   RetryTimer adds the times of the events and the timer between the retries, with
--                   asio's as a parameter
--   Subscriber      subscriber_impl.{h,cpp}; an operation on a session of the subscriber also runs
--                   the callback and the closed handler that it calls. Mode, Callbacks, Mutex,
--                   Objects, Sessions, Everywhere, Ready, Voice, Delivery, Asynchronous and Silence
--                   prove; Shutdown has the callback thread and the thread that stops it,
--                   Detached a setCallback from the callback thread itself, and Synchronous the
--                   strands of the sessions and the thread of cancel around synchronous
--                   callbacks, one access at a time
--   Connection      a session of the publisher and one of the subscriber, at one connection;
--                   Recovery has a connection that fails and comes back; Messages goes from the
--                   buffers of `send` to the user's callback; System, Open and Newest from a
--                   publisher with all its sessions; Accepting, Joining, Whole and Asynchronous
--                   from the accept and addSession on, to a synchronous callback and to the
--                   callback thread
--   Executor        executor_impl.{h,cpp}, with asio's run() as a parameter
--   Api             publisher.cpp, subscriber.cpp, subscriber_session.cpp, executor.cpp
--   Examples (in each)  the theorems at small inputs
--
-- A method or handler is a function from the state of its object to the new state, and runs as one
-- step, as the strands and mutexes of the program make it; where two steps of one handler matter,
-- they are two functions. asio is not modelled: what it does comes as events, each of which
-- completes an operation that is in flight, in any order and with any result, and theorems that
-- need a read to succeed name the bytes that it brings. A successful read brings as many bytes as
-- were asked for in those theorems; elsewhere any number is allowed. Runs are lists of events, so
-- there is no fuel. Numbers of the program that wrap (uint16_t and size_t sizes) are reduced
-- where the source stores them; counters of calls are ghosts and do not wrap.
--
-- Not modelled: log output and the strings made for it, TCP options, the capacity of buffers
-- (only their contents count) and a resize that throws, for a payload that is too large for the
-- memory, lifetimes of objects (the user keeps the session objects that addSession returns),
-- wake-ups of a condition variable without a notification, and, outside Detached and Synchronous,
-- calls of setCallback and cancel from a callback. A write behind the end of a block of memory is
-- lost in the model, where the program would be undefined.
--
-- Calls of the owner take no strand, so steps that are one here can be interrupted by them in the
-- program. Where that matters, the steps are taken apart in a module of their own: Interrupted and
-- Race have the two stores at the end of the handshake, which the other files take as one step;
-- Synchronous has the test of canceled_ and the call of the callback, which Silence and Delivery
-- take as one.
pub mod Base
pub mod Asio
pub mod Wire
pub mod PublisherSession
pub mod Publisher
pub mod SubscriberSession
pub mod Subscriber
pub mod Connection
pub mod Executor
pub mod Api
