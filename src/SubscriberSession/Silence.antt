-- ===== src/SubscriberSession/Silence.antt =====
-- SubscriberSession: a session that is canceled or closed hands nothing to its callback.
use tcp_pubsub.Base.{
  Option-cases, get_elem?, remove_at, ℕ, ◌<◌, ◌≡◌, refl, ◌∙◌, ◌⊎◌, inl, inr, true, List, [], ◌∷◌,
  arith,
}
use tcp_pubsub.SubscriberSession.{
  Operation, payload, Posted, deliver, next_message, set_callback, SubscriberSession,
  connection_failed_handler, on_payload, on_resolved, on_connected, on_completed, on_posted,
  set_synchronous_callback, cancel, Event, cancel_call, callback_call, operation_ends, strand_runs,
  step,
}
use tcp_pubsub.SubscriberSession.Closing.{Inv, step-Inv}
use tcp_pubsub.SubscriberSession.Growth.{front_gives, gives, step-Grows}
use tcp_pubsub.Wire.Endian.{Host}
use tcp_pubsub.Asio.{Completion, done}

-- No handler takes a cancellation back.
payload_canceled :
    (m bytes : List ℕ) (s : SubscriberSession) → (on_payload m bytes s).canceled ≡ s.canceled
unfolding on_payload connection_failed_handler
payload_canceled m bytes s = ground arith

completed_canceled :
    (h : Host) (o : Operation) (c : Completion) (s : SubscriberSession)
    → (on_completed h o c s).canceled ≡ s.canceled
unfolding on_completed on_resolved on_connected connection_failed_handler
completed_canceled h (payload m n) (done bytes) s = payload_canceled m bytes s
completed_canceled h o c s = ground arith

strand_canceled :
    (h : Host) (ps : List Posted) (s : SubscriberSession)
    → s.strand ≡ ps
    → (step h strand_runs s).canceled ≡ s.canceled
unfolding step on_posted connection_failed_handler
strand_canceled h [] s e = ground arith
strand_canceled h (next_message ∷ ps) s e = ground arith
strand_canceled h (deliver b m ∷ ps) s e = ground arith
strand_canceled h (set_callback c ∷ ps) s e = ground arith

step_canceled :
    (h : Host) (e : Event) (s : SubscriberSession)
    → s.canceled ≡ true
    → (step h e s).canceled ≡ true
unfolding step cancel set_synchronous_callback
step_canceled h cancel_call s up = ground arith
step_canceled h (callback_call c) s up = ground arith
step_canceled h (operation_ends i c) s up = elim (Option-cases (get_elem? s.operations i)) [
  | inl gone ↦ rw (gone, step) up
  | inr (o, e) ↦
      rw (e, step)
        (completed_canceled h o c (record s { operations = remove_at s.operations i }) ∙ up)
]
step_canceled h strand_runs s up = strand_canceled h s.strand s refl ∙ up

-- A session in order that is canceled, or has called its closed handler.
pub record Over (s : SubscriberSession) : Type 0 where
  pub in_order : Inv s
  pub stopped : (s.canceled ≡ true) ⊎ (0 < s.closed_calls)

pub step-Over : (h : Host) (e : Event) (s : SubscriberSession) → Over s → Over (step h e s)
step-Over h e s o = record {
  in_order = step-Inv h e s o.in_order;
  stopped = elim o.stopped [
    | inl gone ↦ inl (step_canceled h e s gone)
    | inr closed ↦ inr (omega (arith, (step-Grows h e s).1))
  ];
}

front_silent :
    (ps : List Posted) (s : SubscriberSession) → s.strand ≡ ps → Over s → front_gives ps s ≡ []
front_silent [] s e o = refl
front_silent (next_message ∷ ps) s e o = refl
front_silent (deliver b m ∷ ps) s e o = ground (arith, o.in_order, o.stopped)
front_silent (set_callback c ∷ ps) s e o = refl

pub Over-gives : (e : Event) (s : SubscriberSession) → Over s → gives e s ≡ []
Over-gives cancel_call s o = refl
Over-gives (callback_call c) s o = refl
Over-gives (operation_ends i c) s o = refl
Over-gives strand_runs s o = front_silent s.strand s refl o
