-- ===== src/SubscriberSession/Growth.antt =====
-- SubscriberSession: what a step adds to the calls of the callback and of the closed handler.
use tcp_pubsub.Base.{
  if◌then◌else◌, Option-cases, get_elem?, remove_at, ℕ, ◌≤◌, ◌≡◌, refl, inl, inr, Option, List, [],
  ◌∷◌, ◌++◌, append-nil, arith,
}
use tcp_pubsub.SubscriberSession.{
  Callback, Operation, payload, Posted, deliver, next_message, set_callback, SubscriberSession,
  connection_failed_handler, start, on_payload, on_resolved, on_connected, on_completed, on_posted,
  set_synchronous_callback, cancel, Event, cancel_call, callback_call, operation_ends, strand_runs,
  step,
}
use tcp_pubsub.Wire.Endian.{Host}
use tcp_pubsub.Asio.{Completion, done}

-- A step that calls no callback, and perhaps the closed handler.
abbrev Quiet : SubscriberSession → SubscriberSession → Type 0
Quiet s t = (t.delivered ≡ s.delivered) × (s.closed_calls ≤ t.closed_calls)

failed-Quiet : (s : SubscriberSession) → Quiet s (connection_failed_handler s)
unfolding connection_failed_handler
failed-Quiet s = ground arith

payload-Quiet : (m bytes : List ℕ) (s : SubscriberSession) → Quiet s (on_payload m bytes s)
unfolding on_payload
payload-Quiet m bytes s =
    ground (arith, failed-Quiet (record s { retries_left = s.max_reconnection_attempts }))

completed-Quiet :
    (h : Host) (o : Operation) (c : Completion) (s : SubscriberSession)
    → Quiet s (on_completed h o c s)
unfolding on_completed on_resolved on_connected
completed-Quiet h (payload m n) (done bytes) s = payload-Quiet m bytes s
completed-Quiet h o c s = ground (arith, failed-Quiet s)

-- What the handler at the front of the strand gives to the callback.
abbrev pub front_gives : List Posted → SubscriberSession → List (Option Callback × List ℕ)
front_gives (deliver bytes m ∷ ps) s =
    if s.canceled then [] else (s.synchronous_callback, bytes) ∷ []
front_gives (next_message ∷ ps) s = []
front_gives (set_callback c ∷ ps) s = []
front_gives [] s = []

abbrev pub gives : Event → SubscriberSession → List (Option Callback × List ℕ)
gives cancel_call s = []
gives (callback_call c) s = []
gives (operation_ends i c) s = []
gives strand_runs s = front_gives s.strand s

-- What a step adds.
abbrev pub Grows : Event → SubscriberSession → SubscriberSession → Type 0
Grows e s t = (t.delivered ≡ s.delivered ++ gives e s) × (s.closed_calls ≤ t.closed_calls)

operation-Grows :
    (h : Host) (i : ℕ) (c : Completion) (s : SubscriberSession)
    → Grows (operation_ends i c) s (step h (operation_ends i c) s)
unfolding step
operation-Grows h i c s = elim (Option-cases (get_elem? s.operations i)) [
  | inl gone ↦ rw (gone, step) (ground (arith, append-nil s.delivered))
  | inr (o, e) ↦
      let q = completed-Quiet h o c (record s { operations = remove_at s.operations i }) in
      rw (e, step) (rw append-nil q.0, q.1)
]

strand-Grows :
    (h : Host) (ps : List Posted) (s : SubscriberSession)
    → s.strand ≡ ps
    → Grows strand_runs s (step h strand_runs s)
unfolding step on_posted connection_failed_handler
strand-Grows h [] s e = ground (arith, append-nil s.delivered)
strand-Grows h (next_message ∷ ps) s e = ground (arith, append-nil s.delivered)
strand-Grows h (deliver b m ∷ ps) s e = ground (arith, append-nil s.delivered)
strand-Grows h (set_callback c ∷ ps) s e = ground (arith, append-nil s.delivered)

pub step-Grows : (h : Host) (e : Event) (s : SubscriberSession) → Grows e s (step h e s)
unfolding step cancel set_synchronous_callback
step-Grows h cancel_call s = ground (arith, append-nil s.delivered)
step-Grows h (callback_call c) s = ground (arith, append-nil s.delivered)
step-Grows h (operation_ends i c) s = operation-Grows h i c s
step-Grows h strand_runs s = strand-Grows h s.strand s refl

-- The calls that Subscriber_Impl makes while it holds its mutex call neither handler.
abbrev pub SameCalls : SubscriberSession → SubscriberSession → Type 0
SameCalls s t = (t.delivered ≡ s.delivered) × (t.closed_calls ≡ s.closed_calls)

pub set_synchronous_callback-SameCalls :
    (c : Callback) (s : SubscriberSession) → SameCalls s (set_synchronous_callback c s)
unfolding set_synchronous_callback
set_synchronous_callback-SameCalls c s = ground arith

pub start-SameCalls : (s : SubscriberSession) → SameCalls s (start s)
unfolding start
start-SameCalls s = ground arith

pub cancel-SameCalls : (s : SubscriberSession) → SameCalls s (cancel s)
unfolding cancel
cancel-SameCalls s = ground arith
