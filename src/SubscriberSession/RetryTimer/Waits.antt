-- ===== src/SubscriberSession/RetryTimer/Waits.antt =====
-- SubscriberSession_Impl: which handlers can start a wait for the retry timer.
use tcp_pubsub.Base.{
  ltb, ◌==◌, length, get_elem?, ℕ, ◌+◌, ◌<◌, ◌≡◌, ◌⊎◌, Bool, true, not, ◌&&◌, some, List, [], arith,
  remove_at, refl, inl, inr, ◌∷◌, Bool-cases, Option-cases, remove_at_only, ◌≤◌, sym, ap, ◌∙◌,
  false,
}
use tcp_pubsub.SubscriberSession.{
  Operation, resolve, connect, write_handshake, retry_wait, header_length, header_content, discard,
  payload, SubscriberSession, connection_failed_handler, on_payload, on_resolved, on_connected,
  on_completed, Event, cancel_call, callback_call, operation_ends, strand_runs, step, Callback,
  set_callback, resolve_endpoint, set_synchronous_callback, cancel, Posted, deliver, next_message,
  read_header_length, on_posted,
}
use tcp_pubsub.Asio.{Completion, failed, done}
use tcp_pubsub.Wire.Endian.{Host}
use tcp_pubsub.SubscriberSession.Strand.{nexts, nexts-append}
use tcp_pubsub.SubscriberSession.RetryTimer.{waits}
use tcp_pubsub.SubscriberSession.Closing.{Inv}

-- The session goes on with something else than a wait.
abbrev pub goes_on : SubscriberSession → Bool
goes_on s =
    not s.canceled && (ltb 0 (length s.operations + nexts s.strand) && waits s.operations == 0)

-- A handler whose operation was the only one: it cancels nothing, and starts no wait if canceled.
record NoWait (s t : SubscriberSession) : Type 0 where
  canceled : t.canceled ≡ s.canceled
  none_begins : s.canceled ≡ true → waits t.operations ≡ 0

failed-NoWait : (s : SubscriberSession) → s.operations ≡ [] → NoWait s (connection_failed_handler s)
unfolding connection_failed_handler
failed-NoWait s e = ground arith

payload-NoWait :
    (m bytes : List ℕ) (s : SubscriberSession) → s.operations ≡ [] → NoWait s (on_payload m bytes s)
unfolding on_payload connection_failed_handler
payload-NoWait m bytes s e = ground arith

completed-NoWait :
    (h : Host) (o : Operation) (c : Completion) (s : SubscriberSession)
    → s.operations ≡ []
    → NoWait s (on_completed h o c s)
unfolding on_completed on_resolved on_connected
completed-NoWait h (resolve i) failed s e = ground arith
completed-NoWait h (resolve i) (done b) s e = ground arith
completed-NoWait h (connect i) failed s e = failed-NoWait s e
completed-NoWait h (connect i) (done b) s e = ground arith
completed-NoWait h (write_handshake b) failed s e = failed-NoWait s e
completed-NoWait h (write_handshake b) (done bytes) s e = ground arith
completed-NoWait h retry_wait failed s e = ground arith
completed-NoWait h retry_wait (done b) s e = ground arith
completed-NoWait h (header_length m) failed s e = failed-NoWait s e
completed-NoWait h (header_length m) (done b) s e = ground arith
completed-NoWait h (header_content m n d) failed s e = failed-NoWait s e
completed-NoWait h (header_content m n d) (done b) s e = ground arith
completed-NoWait h (discard m n) failed s e = failed-NoWait s e
completed-NoWait h (discard m n) (done b) s e = ground arith
completed-NoWait h (payload m n) failed s e = failed-NoWait s e
completed-NoWait h (payload m n) (done bytes) s e = payload-NoWait m bytes s e

-- The event is the success of a wait.
pub record Succeeded (e : Event) (s : SubscriberSession) : Type 0 where
  pub index : ℕ
  pub bytes : List ℕ
  pub ends : e ≡ operation_ends index (done bytes)
  pub of_wait : get_elem? s.operations index ≡ some retry_wait

-- What an event does: it starts a wait only where the session went on with something else, and
-- the session goes on so afterwards only if it did before or a wait has ended well.
pub record Moves (h : Host) (e : Event) (s : SubscriberSession) : Type 0 where
  pub begins : waits s.operations < waits (step h e s).operations → goes_on s ≡ true
  pub goes : goes_on (step h e s) ≡ true → (goes_on s ≡ true) ⊎ Succeeded e s

cancel-Moves : (h : Host) (s : SubscriberSession) → Moves h cancel_call s
unfolding step cancel
cancel-Moves h s = record {
  begins = λ l. absurd (ground (arith, l));
  goes = λ g. absurd (ground (arith, g));
}

callback-Moves : (h : Host) (c : Callback) (s : SubscriberSession) → Moves h (callback_call c) s
unfolding step set_synchronous_callback
callback-Moves h c s = record {
  begins = λ l. absurd (ground (arith, l));
  goes = λ g. inl (ground (arith, g, nexts-append s.strand (set_callback c ∷ [])));
}

wait_or_not : (o : Operation) → (o ≡ retry_wait) ⊎ (waits (o ∷ []) ≡ 0)
wait_or_not (resolve i) = inr refl
wait_or_not (connect i) = inr refl
wait_or_not (write_handshake b) = inr refl
wait_or_not retry_wait = inl refl
wait_or_not (header_length m) = inr refl
wait_or_not (header_content m n d) = inr refl
wait_or_not (discard m n) = inr refl
wait_or_not (payload m n) = inr refl

wait-Moves :
    (h : Host) (i : ℕ) (c : Completion) (s : SubscriberSession)
    → Inv s
    → get_elem? s.operations i ≡ some retry_wait
    → s.operations ≡ retry_wait ∷ []
    → remove_at s.operations i ≡ []
    → Moves h (operation_ends i c) s
unfolding step on_completed resolve_endpoint connection_failed_handler
wait-Moves h i failed s v e only none_left = record {
  begins = λ l. absurd (ground (arith, l));
  goes = λ g. absurd (ground (arith, g, v.one_chain));
}
wait-Moves h i (done bytes) s v e only none_left = record {
  begins = λ l. absurd (ground (arith, l));
  goes = λ g. inr (record { index = i; bytes = bytes; ends = refl; of_wait = e });
}

other-Moves :
    (h : Host) (i : ℕ) (o : Operation) (c : Completion) (s : SubscriberSession)
    → get_elem? s.operations i ≡ some o
    → s.operations ≡ o ∷ []
    → remove_at s.operations i ≡ []
    → waits (o ∷ []) ≡ 0
    → Moves h (operation_ends i c) s
unfolding step
other-Moves h i o c s e only none_left other =
    let x : SubscriberSession = record s { operations = remove_at s.operations i } in
    let n = completed-NoWait h o c x none_left in
    let after : step h (operation_ends i c) s ≡ on_completed h o c x = rw (e, step) refl in
    let up : s.canceled ≡ false → goes_on s ≡ true = λ u. ground (arith, u, only, other) in
    record {
      begins = λ l. elim (Bool-cases s.canceled) [
        | inl gone ↦
            absurd (omega (arith, l, ap (λ t. waits t.operations) after, n.none_begins gone))
        | inr u ↦ up u
      ];
      goes = λ g. elim (Bool-cases s.canceled) [
        | inl gone ↦ absurd (ground (arith, g, ap (λ t. t.canceled) after, n.canceled, gone))
        | inr u ↦ inl (up u)
      ];
    }

strand-Moves :
    (h : Host) (ps : List Posted) (s : SubscriberSession)
    → s.strand ≡ ps
    → Inv s
    → Moves h strand_runs s
unfolding step on_posted connection_failed_handler read_header_length
strand-Moves h [] s e v = record {
  begins = λ l. absurd (ground (arith, l, e));
  goes = λ g. inl (ground (arith, g, e));
}
strand-Moves h (next_message ∷ ps) s e v =
    let none_left : s.operations ≡ [] = ground (arith, e, v.one_chain) in
    let up : s.canceled ≡ false → goes_on s ≡ true = λ u. ground (arith, u, e, none_left) in
    elim (Bool-cases s.canceled) [
      | inl gone ↦ record {
        begins = λ l. absurd (ground (arith, l, e, gone, none_left));
        goes = λ g. absurd (ground (arith, g, e, gone, none_left));
      }
      | inr u ↦ record { begins = λ l. up u; goes = λ g. inl (up u) }
    ]
strand-Moves h (deliver b m ∷ ps) s e v = record {
  begins = λ l. absurd (ground (arith, l, e));
  goes = λ g. inl (ground (arith, g, e));
}
strand-Moves h (set_callback c ∷ ps) s e v = record {
  begins = λ l. absurd (ground (arith, l, e));
  goes = λ g. inl (ground (arith, g, e));
}

pub step-Moves : (h : Host) (e : Event) (s : SubscriberSession) → Inv s → Moves h e s
unfolding step
step-Moves h cancel_call s v = cancel-Moves h s
step-Moves h (callback_call c) s v = callback-Moves h c s
step-Moves h (operation_ends i c) s v = elim (Option-cases (get_elem? s.operations i)) [
  | inl gone ↦ record {
    begins = λ l. absurd (ground (arith, l, gone));
    goes = λ g. inl (ground (arith, g, gone));
  }
  | inr (o, e) ↦
      let few : length s.operations ≤ 1 = omega (arith, v.one_chain) in
      let only = remove_at_only s.operations i few e in
      elim (wait_or_not o) [
        | inl w ↦ wait-Moves h i c s v (e ∙ ap some w) (rw (sym w) only.0) only.1
        | inr other ↦ other-Moves h i o c s e only.0 only.1 other
      ]
]
step-Moves h strand_runs s v = strand-Moves h s.strand s refl v
