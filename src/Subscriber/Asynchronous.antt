-- ===== src/Subscriber/Asynchronous.antt =====
-- Subscriber_Impl with an asynchronous callback: the reading of a session and the turns of the
-- callback thread, in any interleaving; Box and Thread prove what the thread hears.
pub mod Box
pub mod Thread
use tcp_pubsub.SubscriberSession
use tcp_pubsub.Base.{
  last_or, at_most_one, All, ℕ, ◌<◌, ◌≡◌, refl, ap, ◌∙◌, false, Option, none, some, List, [], ◌∷◌,
  ◌++◌, arith,
}
use tcp_pubsub.Subscriber.{
  Subscriber, on_data, on_deliveries, Event, thread_turns, session_event, callback_thread_turn,
}
use tcp_pubsub.SubscriberSession.{Callback, store_data, SubscriberSession}
use tcp_pubsub.SubscriberSession.Receive.{with_callback}

-- What waits for the callback thread.
abbrev pub waiting : Subscriber → List (List ℕ)
waiting s = at_most_one s.last_callback_data

-- An event of the session, or a turn of the callback thread.
pub data Moment : Type 0 where
  reads : SubscriberSession.Event → Moment
  turns : Moment

abbrev pub moments : ℕ → List Moment → List Event
moments id [] = []
moments id (reads e ∷ ms) = session_event id e ∷ moments id ms
moments id (turns ∷ ms) = thread_turns ∷ moments id ms

-- The events of the session among them.
abbrev pub reads_of : List Moment → List SubscriberSession.Event
reads_of [] = []
reads_of (reads e ∷ ms) = e ∷ reads_of ms
reads_of (turns ∷ ms) = reads_of ms

-- The callback thread runs callback c, and the session is one of the subscriber's.
pub record Threaded (id c : ℕ) (s : Subscriber) : Type 0 where
  pub known : id < s.next_id
  pub asynchronous : s.user_callback_is_synchronous ≡ false
  pub thread : s.callback_thread ≡ some c
  pub goes_on : s.callback_thread_stop ≡ false

unfoldable pub Stored : Option Callback × List ℕ → Type 0
Stored d = d.0 ≡ some store_data

abbrev pub bytes_of : List (Option Callback × List ℕ) → List (List ℕ)
bytes_of [] = []
bytes_of ((o, b) ∷ ds) = b ∷ bytes_of ds

pub stored_lem :
    (ds : List (Option Callback × List ℕ)) (s : Subscriber)
    → All Stored ds
    → s.user_callback_is_synchronous ≡ false
    → on_deliveries ds s
      ≡ record s { last_callback_data = last_or s.last_callback_data (bytes_of ds) }
unfolding on_deliveries on_data Stored
stored_lem [] s a e = refl
stored_lem ((none, b) ∷ ds) s a e = absurd (ground (arith, a.0))
stored_lem ((some c, b) ∷ ds) s a e =
    let t = record s { last_callback_data = some b } in
    let first : on_data c b s ≡ t = ground (arith, a.0, e) in
    ap (on_deliveries ds) first ∙ stored_lem ds t a.1 e

pub turn-Threaded :
    (id c : ℕ) (s : Subscriber) → Threaded id c s → Threaded id c (callback_thread_turn s)
unfolding callback_thread_turn
turn-Threaded id c s v = ground arith

pub turn-session : (s : Subscriber) → (callback_thread_turn s).session ≡ s.session
unfolding callback_thread_turn
turn-session s = ground arith

pub bytes_of-append :
    (ds es : List (Option Callback × List ℕ)) → bytes_of (ds ++ es) ≡ bytes_of ds ++ bytes_of es
bytes_of-append [] es = refl
bytes_of-append ((o, b) ∷ ds) es = ap (◌∷◌ b) (bytes_of-append ds es)

pub append-All-Stored :
    (ds es : List (Option Callback × List ℕ))
    → All Stored (ds ++ es)
    → All Stored ds × All Stored es
append-All-Stored [] es a = (tt, a)
append-All-Stored (d ∷ ds) es a = let rest = append-All-Stored ds es a.1 in ((a.0, rest.0), rest.1)

pub with_callback-Stored : (all : List (List ℕ)) → All Stored (with_callback (some store_data) all)
unfolding Stored
with_callback-Stored [] = tt
with_callback-Stored (b ∷ bs) = (refl, with_callback-Stored bs)

pub bytes_of-with_callback :
    (o : Option Callback) (all : List (List ℕ)) → bytes_of (with_callback o all) ≡ all
bytes_of-with_callback o [] = refl
bytes_of-with_callback o (b ∷ bs) = ap (◌∷◌ b) (bytes_of-with_callback o bs)
