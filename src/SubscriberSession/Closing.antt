-- ===== src/SubscriberSession/Closing.antt =====
-- SubscriberSession: how often the closed handler runs.
use tcp_pubsub.Base.{
  length, ℕ, ◌+◌, ◌≤◌, ◌<◌, ◌≡◌, false, List, [], ◌∷◌, ◌++◌, arith, ltb, ◌==◌, Bool-cases,
  Option-cases, get_elem?, remove_at, refl, inl, inr, append_assoc, length-append, remove_at_only,
  ℤ, some,
}
use tcp_pubsub.Asio.{Completion, failed, done}
use tcp_pubsub.Wire.Endian.{Host}
use tcp_pubsub.SubscriberSession.{
  Callback, Operation, resolve, connect, write_handshake, retry_wait, header_length, header_content,
  discard, payload, Posted, deliver, next_message, set_callback, SubscriberSession,
  connection_failed_handler, on_payload, on_resolved, on_connected, on_completed, protocol_version,
  on_posted, set_synchronous_callback, cancel, Event, cancel_call, callback_call, operation_ends,
  strand_runs, step, run, Endpoint, new, start,
}
use tcp_pubsub.Wire.Header.{regular_payload, protocol_handshake, type_of, new_header}
use tcp_pubsub.SubscriberSession.Strand.{
  nexts, delivers, InOrder, nexts-append, delivers-append, append-InOrder, callback-InOrder,
  delivers-le-nexts,
}

pub record Inv (s : SubscriberSession) : Type 0 where
  pub in_order : InOrder s.strand
  -- one operation in flight or one reading posted, not both
  pub one_chain : length s.operations + nexts s.strand ≤ 1
  pub open_while_busy : 0 < length s.operations → s.closed_calls ≡ 0
  -- until the session is canceled it either goes on or has been closed, once
  pub alive : s.canceled ≡ false → length s.operations + nexts s.strand + s.closed_calls ≡ 1
  -- it is never left with nothing to do and not closed
  pub not_lost : 1 ≤ length s.operations + nexts s.strand + s.closed_calls
  pub at_most_two : length s.operations + nexts s.strand + s.closed_calls + delivers s.strand ≤ 2

-- A session whose operation in flight has just ended.
record Ended (s : SubscriberSession) : Type 0 where
  none_left : s.operations ≡ []
  no_next : nexts s.strand ≡ 0
  no_delivery : delivers s.strand ≡ 0
  not_closed : s.closed_calls ≡ 0
  in_order : InOrder s.strand

failed-Inv : (s : SubscriberSession) → Ended s → Inv (connection_failed_handler s)
unfolding connection_failed_handler
failed-Inv s e = ground arith

-- Handlers posted to the strand of such a session.
posted_next-Inv :
    (s : SubscriberSession) → Ended s → Inv (record s { strand = s.strand ++ next_message ∷ [] })
posted_next-Inv s e = ground (
  arith,
  nexts-append s.strand (next_message ∷ []),
  delivers-append s.strand (next_message ∷ []),
  append-InOrder s.strand (next_message ∷ []) e.no_next e.no_delivery (refl, refl, tt),
)

posted_both-Inv :
    (b m : List ℕ) (s : SubscriberSession)
    → Ended s
    → Inv (record s { strand = (s.strand ++ deliver b m ∷ []) ++ next_message ∷ [] })
posted_both-Inv b m s e =
    let both : List Posted = deliver b m ∷ next_message ∷ [] in
    rw (append_assoc s.strand (deliver b m ∷ []) (next_message ∷ [])) (
      ground (
        arith,
        nexts-append s.strand both,
        delivers-append s.strand both,
        append-InOrder s.strand both e.no_next e.no_delivery (refl, refl, (refl, refl, tt)),
      ))

payload-Inv :
    (m : List ℕ) (bytes : List ℕ) (s : SubscriberSession) → Ended s → Inv (on_payload m bytes s)
unfolding on_payload
payload-Inv m bytes s e =
    let t : SubscriberSession = record s { retries_left = s.max_reconnection_attempts } in
    let f : Ended t = record {
      none_left = e.none_left;
      no_next = e.no_next;
      no_delivery = e.no_delivery;
      not_closed = e.not_closed;
      in_order = e.in_order;
    } in
    elim (Bool-cases (type_of m == protocol_handshake)) [
      | inl shake ↦ elim (Bool-cases (ltb 0 (protocol_version bytes))) [
        | inl newer ↦ rw (shake, newer) (failed-Inv t f)
        | inr fine ↦ rw (shake, fine) (posted_next-Inv t f)
      ]
      | inr other ↦ elim (Bool-cases (type_of m == regular_payload)) [
        | inl regular ↦ rw (other, regular) (posted_both-Inv bytes m t f)
        | inr unknown ↦ rw (other, unknown) (posted_next-Inv t f)
      ]
    ]

completed-Inv :
    (h : Host) (o : Operation) (c : Completion) (s : SubscriberSession)
    → Ended s
    → Inv (on_completed h o c s)
unfolding on_completed on_resolved on_connected
completed-Inv h (resolve i) failed s e = ground arith
completed-Inv h (resolve i) (done b) s e = ground arith
completed-Inv h (connect i) failed s e = failed-Inv s e
completed-Inv h (connect i) (done b) s e = ground arith
completed-Inv h (write_handshake b) failed s e = failed-Inv s e
completed-Inv h (write_handshake b) (done bytes) s e = ground arith
completed-Inv h retry_wait failed s e = ground arith
completed-Inv h retry_wait (done b) s e = ground arith
completed-Inv h (header_length m) failed s e = failed-Inv s e
completed-Inv h (header_length m) (done b) s e = ground arith
completed-Inv h (header_content m n d) failed s e = failed-Inv s e
completed-Inv h (header_content m n d) (done b) s e = ground arith
completed-Inv h (discard m n) failed s e = failed-Inv s e
completed-Inv h (discard m n) (done b) s e = ground arith
completed-Inv h (payload m n) failed s e = failed-Inv s e
completed-Inv h (payload m n) (done bytes) s e = payload-Inv m bytes s e

ended :
    (i : ℕ) (o : Operation) (s : SubscriberSession)
    → Inv s
    → get_elem? s.operations i ≡ some o
    → Ended (record s { operations = remove_at s.operations i })
ended i o s v e =
    let few : length s.operations ≤ 1 = omega (arith, v.one_chain) in
    let only = remove_at_only s.operations i few e in
    ground (arith, only, delivers-le-nexts s.strand v.in_order)

operation-Inv :
    (h : Host) (i : ℕ) (c : Completion) (s : SubscriberSession)
    → Inv s
    → Inv (step h (operation_ends i c) s)
unfolding step
operation-Inv h i c s v = elim (Option-cases (get_elem? s.operations i)) [
  | inl gone ↦ rw (gone, step) v
  | inr (o, e) ↦
      rw (e, step)
        (completed-Inv h o c (record s { operations = remove_at s.operations i }) (ended i o s v e))
]

strand-Inv :
    (h : Host) (ps : List Posted) (s : SubscriberSession)
    → s.strand ≡ ps
    → Inv s
    → Inv (step h strand_runs s)
unfolding step on_posted connection_failed_handler
strand-Inv h [] s e v = ground arith
strand-Inv h (next_message ∷ ps) s e v = ground (
  arith,
  length-append s.operations (header_length new_header ∷ []),
  length-append s.operations (retry_wait ∷ []),
)
strand-Inv h (deliver b m ∷ ps) s e v = ground (arith, length-append s.operations (retry_wait ∷ []))
strand-Inv h (set_callback c ∷ ps) s e v = ground arith

pub callback-Inv :
    (c : Callback) (s : SubscriberSession) → Inv s → Inv (set_synchronous_callback c s)
unfolding set_synchronous_callback
callback-Inv c s v = ground (
  arith,
  nexts-append s.strand (set_callback c ∷ []),
  delivers-append s.strand (set_callback c ∷ []),
  callback-InOrder s.strand c v.in_order,
)

pub cancel-Inv : (s : SubscriberSession) → Inv s → Inv (cancel s)
unfolding cancel
cancel-Inv s v = ground arith

pub step-Inv : (h : Host) (e : Event) (s : SubscriberSession) → Inv s → Inv (step h e s)
unfolding step
step-Inv h cancel_call s v = cancel-Inv s v
step-Inv h (callback_call c) s v = callback-Inv c s v
step-Inv h (operation_ends i c) s v = operation-Inv h i c s v
step-Inv h strand_runs s v = strand-Inv h s.strand s refl v

run-Inv : (h : Host) (es : List Event) (s : SubscriberSession) → Inv s → Inv (run h es s)
unfolding run
run-Inv h [] s v = v
run-Inv h (e ∷ es) s v = run-Inv h es (step h e s) (step-Inv h e s v)

pub start-Inv :
    (p : Endpoint) (more : List Endpoint) (attempts : ℤ) {s : SubscriberSession}
    → new (p ∷ more) attempts ≡ some s
    → Inv (start s)
unfolding new start
start-Inv p more attempts e = ground arith

-- The same for a session that is given a callback in between.
pub given-Inv :
    (ps : List Endpoint) (attempts : ℤ) (s : SubscriberSession) (callback : Callback)
    → new ps attempts ≡ some s
    → Inv (start (set_synchronous_callback callback s))
unfolding new start set_synchronous_callback
given-Inv [] attempts s callback e = cc
given-Inv (p ∷ more) attempts s callback e = ground arith

-- From the constructor and start(), through any events: while the session is not canceled, either
-- one thing of it is in flight or posted and it has not been closed, or it has been closed once
-- and nothing is left. Canceled or not, it is closed at most twice, never left idle without
-- being closed, and never reads while a delivery waits behind the reading.
pub run_started-Inv :
    (h : Host) (es : List Event) (p : Endpoint) (more : List Endpoint) (attempts : ℤ)
    {s : SubscriberSession}
    → new (p ∷ more) attempts ≡ some s
    → Inv (run h es (start s))
run_started-Inv h es p more attempts e = run-Inv h es _ (start-Inv p more attempts e)

-- Cancelled between the payload of a message and its delivery, a session calls its closed handler
-- twice: the delivery fails, and so does the reading of the next message.
pub cancel_closes_twice :
    (h : Host) (b m : List ℕ) (s : SubscriberSession)
    → s.canceled ≡ false
    → s.strand ≡ deliver b m ∷ next_message ∷ []
    → (run h (cancel_call ∷ strand_runs ∷ strand_runs ∷ []) s).closed_calls ≡ s.closed_calls + 2
unfolding run step cancel on_posted connection_failed_handler
cancel_closes_twice h b m s up posted = ground arith
