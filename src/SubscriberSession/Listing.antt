-- ===== src/SubscriberSession/Listing.antt =====
-- SubscriberSession: which publishers of its list a session tries.
use tcp_pubsub.Base.{
  Option-cases, length, get_elem?, remove_at, All, remove_at_only, All-get_elem?, ℕ, ◌≤◌, ◌≡◌, inl,
  inr, some, List, [], ◌∷◌, arith, All-append, ℤ, refl, ◌++◌,
}
use tcp_pubsub.SubscriberSession.{
  Operation, resolve, connect, write_handshake, retry_wait, header_length, header_content, discard,
  payload, Posted, deliver, next_message, set_callback, SubscriberSession,
  connection_failed_handler, read_header_length, on_payload, on_resolved, on_connected,
  on_completed, on_posted, Event, cancel_call, callback_call, operation_ends, strand_runs, step,
  Endpoint, new, resolve_endpoint, start, set_synchronous_callback, cancel, run,
}
use tcp_pubsub.Asio.{Completion, failed, done}
use tcp_pubsub.Wire.Endian.{Host}
use tcp_pubsub.SubscriberSession.Closing.{Inv, step-Inv, start-Inv}
use tcp_pubsub.Wire.Header.{new_header}

-- An operation on the first publisher of the list, or on none of the list.
abbrev pub AtFirst : Operation → Type 0
AtFirst (resolve i) = i ≡ 0
AtFirst (connect i) = i ≡ 0
AtFirst (write_handshake b) = Unit
AtFirst retry_wait = Unit
AtFirst (header_length m) = Unit
AtFirst (header_content m n d) = Unit
AtFirst (discard m n) = Unit
AtFirst (payload m n) = Unit

-- The end of an operation, other than the failure of a resolve.
abbrev pub Resolved : Operation → Completion → Type 0
Resolved (resolve i) failed = ⊥
Resolved (resolve i) (done b) = Unit
Resolved (connect i) c = Unit
Resolved (write_handshake b) c = Unit
Resolved retry_wait c = Unit
Resolved (header_length m) c = Unit
Resolved (header_content m n d) c = Unit
Resolved (discard m n) c = Unit
Resolved (payload m n) c = Unit

-- No event is the failure of a resolve.
abbrev Fine : Event → SubscriberSession → Type 0
Fine cancel_call s = Unit
Fine (callback_call c) s = Unit
Fine (operation_ends i c) s = (o : Operation) → get_elem? s.operations i ≡ some o → Resolved o c
Fine strand_runs s = Unit

abbrev pub AllResolved : Host → List Event → SubscriberSession → Type 0
AllResolved h [] s = Unit
AllResolved h (e ∷ es) s = Fine e s × AllResolved h es (step h e s)

failed-AtFirst :
    (s : SubscriberSession)
    → s.operations ≡ []
    → All AtFirst (connection_failed_handler s).operations
unfolding connection_failed_handler
failed-AtFirst s e = ground arith

payload-AtFirst :
    (m bytes : List ℕ) (s : SubscriberSession)
    → s.operations ≡ []
    → All AtFirst (on_payload m bytes s).operations
unfolding on_payload connection_failed_handler
payload-AtFirst m bytes s e = ground arith

completed-AtFirst :
    (h : Host) (o : Operation) (c : Completion) (s : SubscriberSession)
    → s.operations ≡ []
    → AtFirst o
    → Resolved o c
    → All AtFirst (on_completed h o c s).operations
unfolding on_completed on_resolved on_connected
completed-AtFirst h (resolve i) failed s e f r = elim r [ ]
completed-AtFirst h (resolve i) (done b) s e f r = ground (arith, f)
completed-AtFirst h (connect i) failed s e f r = failed-AtFirst s e
completed-AtFirst h (connect i) (done b) s e f r = ground arith
completed-AtFirst h (write_handshake b) failed s e f r = failed-AtFirst s e
completed-AtFirst h (write_handshake b) (done bytes) s e f r = ground arith
completed-AtFirst h retry_wait failed s e f r = ground arith
completed-AtFirst h retry_wait (done b) s e f r = ground arith
completed-AtFirst h (header_length m) failed s e f r = failed-AtFirst s e
completed-AtFirst h (header_length m) (done b) s e f r = ground arith
completed-AtFirst h (header_content m n d) failed s e f r = failed-AtFirst s e
completed-AtFirst h (header_content m n d) (done b) s e f r = ground arith
completed-AtFirst h (discard m n) failed s e f r = failed-AtFirst s e
completed-AtFirst h (discard m n) (done b) s e f r = ground arith
completed-AtFirst h (payload m n) failed s e f r = failed-AtFirst s e
completed-AtFirst h (payload m n) (done bytes) s e f r = payload-AtFirst m bytes s e

operation-AtFirst :
    (h : Host) (i : ℕ) (c : Completion) (s : SubscriberSession)
    → Inv s
    → Fine (operation_ends i c) s
    → All AtFirst s.operations
    → All AtFirst (step h (operation_ends i c) s).operations
unfolding step
operation-AtFirst h i c s v fine all = elim (Option-cases (get_elem? s.operations i)) [
  | inl gone ↦ rw (gone, step) all
  | inr (o, e) ↦
      let few : length s.operations ≤ 1 = omega (arith, v.one_chain) in
      let only = remove_at_only s.operations i few e in
      rw (e, step)
        (completed-AtFirst h o c (record s { operations = remove_at s.operations i }) only.1
          (All-get_elem? AtFirst s.operations i all e) (fine o e))
]

appended-AtFirst :
    (o : Operation) (os : List Operation) → AtFirst o → All AtFirst os → All AtFirst (os ++ o ∷ [])
appended-AtFirst o os f all = All-append AtFirst os (o ∷ []) all (f, tt)

strand-AtFirst :
    (h : Host) (ps : List Posted) (s : SubscriberSession)
    → s.strand ≡ ps
    → All AtFirst s.operations
    → All AtFirst (step h strand_runs s).operations
unfolding step on_posted connection_failed_handler read_header_length
strand-AtFirst h [] s e all = ground (arith, e, all)
strand-AtFirst h (next_message ∷ ps) s e all = ground (
  arith,
  e,
  all,
  appended-AtFirst (header_length new_header) s.operations tt all,
  appended-AtFirst retry_wait s.operations tt all,
)
strand-AtFirst h (deliver b m ∷ ps) s e all =
    ground (arith, e, all, appended-AtFirst retry_wait s.operations tt all)
strand-AtFirst h (set_callback c ∷ ps) s e all = ground (arith, e, all)

step-AtFirst :
    (h : Host) (e : Event) (s : SubscriberSession)
    → Inv s
    → Fine e s
    → All AtFirst s.operations
    → All AtFirst (step h e s).operations
unfolding step cancel set_synchronous_callback
step-AtFirst h cancel_call s v fine all = ground (arith, all)
step-AtFirst h (callback_call c) s v fine all = ground (arith, all)
step-AtFirst h (operation_ends i c) s v fine all = operation-AtFirst h i c s v fine all
step-AtFirst h strand_runs s v fine all = strand-AtFirst h s.strand s refl all

run-AtFirst :
    (h : Host) (es : List Event) (s : SubscriberSession)
    → Inv s
    → AllResolved h es s
    → All AtFirst s.operations
    → All AtFirst (run h es s).operations
unfolding run
run-AtFirst h [] s v fine all = all
run-AtFirst h (e ∷ es) s v fine all =
    run-AtFirst h es (step h e s) (step-Inv h e s v) fine.1 (step-AtFirst h e s v fine.0 all)

-- A publisher behind the first of the list is tried only when the resolve of one before it fails.
-- From the constructor and start(), through any events of which none is the failure of a resolve,
-- connections, writes and reads failing any number of times: what the session has in flight
-- resolves and connects no publisher but the first.
pub run-start-AtFirst :
    (h : Host) (es : List Event) (p : Endpoint) (more : List Endpoint) (attempts : ℤ)
    {s : SubscriberSession}
    → new (p ∷ more) attempts ≡ some s
    → AllResolved h es (start s)
    → All AtFirst (run h es (start s)).operations
unfolding new start resolve_endpoint
run-start-AtFirst h es p more attempts {s} e fine =
    run-AtFirst h es (start s) (start-Inv p more attempts e) fine (ground (arith, e))
