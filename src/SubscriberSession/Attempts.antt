-- ===== src/SubscriberSession/Attempts.antt =====
-- SubscriberSession: the ways in which one attempt on the list of publishers fails.
use tcp_pubsub.Base.{
  ltb, if◌then◌else◌, lt→ltb, le→ltb, length, replicate, ℕ, zero, suc, ◌+◌, ◌<◌, ◌≡◌, refl, ap, ◌∙◌,
  false, List, [], ◌∷◌, ◌++◌, arith,
}
use tcp_pubsub.SubscriberSession.{
  Endpoint, Operation, resolve, connect, write_handshake, retry_wait, header_length, header_content,
  discard, payload, SubscriberSession, connection_failed_handler, resolve_endpoint,
  connect_to_endpoint, send_protokol_handshake_request, read_header_length, on_resolved,
  on_connected, on_completed, Event, operation_ends, step, run,
}
use tcp_pubsub.SubscriberSession.Runs.{run-append}
use tcp_pubsub.Asio.{failed, done}
use tcp_pubsub.Wire.Endian.{Host}

-- A resolve of the endpoint at an index is in flight.
pub record Resolves (i : ℕ) (s : SubscriberSession) : Type 0 where
  pub alive : s.canceled ≡ false
  pub one : s.operations ≡ resolve i ∷ []

abbrev pub fails : Event
fails = operation_ends 0 failed

pub resolve_fails :
    (h : Host) (i : ℕ) (s : SubscriberSession)
    → Resolves i s
    → step h fails s ≡ (
        if ltb (i + 1) (length s.publisher_list)
        then record s { operations = resolve (i + 1) ∷ [] }
        else connection_failed_handler (record s { operations = [] }))
unfolding step on_completed on_resolved resolve_endpoint
resolve_fails h i s r = ground arith

-- When every endpoint behind an index fails to resolve, each is tried once, in order, and then the
-- connection has failed.
all_fail :
    (h : Host) (k i : ℕ) (s : SubscriberSession)
    → Resolves i s
    → i + suc k ≡ length s.publisher_list
    → run h (replicate (suc k) fails) s ≡ connection_failed_handler (record s { operations = [] })
unfolding run
all_fail h zero i s r e =
    rw (resolve_fails h i s r, le→ltb (i + 1) (length s.publisher_list) (omega arith))
all_fail h (suc k) i s r e =
    rw (resolve_fails h i s r, lt→ltb (i + 1) (length s.publisher_list) (omega arith), run)
      (all_fail h k (i + 1) (record s { operations = resolve (i + 1) ∷ [] })
        (record { alive = r.alive; one = refl }) (omega arith))

-- An operation on the connection.
abbrev pub OnConnection : Operation → Type 0
OnConnection (resolve i) = ⊥
OnConnection (connect i) = Unit
OnConnection (write_handshake b) = Unit
OnConnection retry_wait = ⊥
OnConnection (header_length m) = Unit
OnConnection (header_content m n d) = Unit
OnConnection (discard m d) = Unit
OnConnection (payload m n) = Unit

pub connection_fails :
    (h : Host) (o : Operation) (s : SubscriberSession)
    → OnConnection o
    → s.operations ≡ o ∷ []
    → step h fails s ≡ connection_failed_handler (record s { operations = [] })
unfolding step on_completed on_connected
connection_fails h (resolve i) s c one = elim c [ ]
connection_fails h retry_wait s c one = elim c [ ]
connection_fails h (connect i) s c one = ground arith
connection_fails h (write_handshake b) s c one = ground arith
connection_fails h (header_length m) s c one = ground arith
connection_fails h (header_content m n d) s c one = ground arith
connection_fails h (discard m d) s c one = ground arith
connection_fails h (payload m n) s c one = ground arith

-- The publishers before an index are tried in vain.
some_fail :
    (h : Host) (k i : ℕ) (s : SubscriberSession)
    → Resolves i s
    → i + k < length s.publisher_list
    → run h (replicate k fails) s ≡ record s { operations = resolve (i + k) ∷ [] }
unfolding run
some_fail h zero i s r l = ground (arith, r.one)
some_fail h (suc k) i s r l =
    rw (resolve_fails h i s r, lt→ltb (i + 1) (length s.publisher_list) (omega arith), run)
      (some_fail h k (i + 1) (record s { operations = resolve (i + 1) ∷ [] })
          (record { alive = r.alive; one = refl }) (omega arith)
        ∙ ap (λ j. record s { operations = resolve j ∷ [] }) (omega arith))

pub first_fail :
    (h : Host) (k : ℕ) (s : SubscriberSession)
    → Resolves 0 s
    → k < length s.publisher_list
    → run h (replicate k fails) s ≡ record s { operations = resolve k ∷ [] }
first_fail h k s r l =
    let e : 0 + k ≡ k = omega arith in
    some_fail h k 0 s r (omega arith) ∙ ap (λ j. record s { operations = resolve j ∷ [] }) e

pub resolved :
    (h : Host) (i : ℕ) (s : SubscriberSession)
    → s.canceled ≡ false
    → s.operations ≡ resolve i ∷ []
    → step h (operation_ends 0 (done [])) s ≡ record s { operations = connect i ∷ [] }
unfolding step on_completed on_resolved connect_to_endpoint
resolved h i s up one = ground arith

-- Where an attempt on a publisher that was resolved fails, before the answer to its handshake.
pub data Stage : Type 0 where
  connecting sending_handshake awaiting_answer : Stage

-- An attempt fails as no publisher is resolved, or as the publisher at an index is the first that is
-- resolved, and the attempt on it fails.
pub data Failure : Type 0 where
  none_resolved : Failure
  first_resolved : (index : ℕ) → Stage → Failure

abbrev pub Among : List Endpoint → Failure → Type 0
Among ps none_resolved = Unit
Among ps (first_resolved i stage) = i < length ps

abbrev succeeds : Event
succeeds = operation_ends 0 (done [])

abbrev fails_at : Stage → List Event
fails_at connecting = fails ∷ []
fails_at sending_handshake = succeeds ∷ fails ∷ []
fails_at awaiting_answer = succeeds ∷ succeeds ∷ fails ∷ []

abbrev pub attempt : Failure → List Endpoint → List Event
attempt none_resolved ps = replicate (length ps) fails
attempt (first_resolved i stage) ps = replicate i fails ++ succeeds ∷ fails_at stage

stage_fails :
    (h : Host) (i : ℕ) (stage : Stage) (s : SubscriberSession)
    → s.canceled ≡ false
    → s.operations ≡ connect i ∷ []
    → run h (fails_at stage) s ≡ connection_failed_handler (record s { operations = [] })
unfolding run step on_completed on_connected send_protokol_handshake_request read_header_length
    connection_failed_handler
stage_fails h i connecting s up one = ground arith
stage_fails h i sending_handshake s up one = ground arith
stage_fails h i awaiting_answer s up one = ground arith

-- However an attempt fails, the connection has failed then, and the session has begun nothing else.
pub attempt_fails :
    (h : Host) (f : Failure) (p : Endpoint) (more : List Endpoint) (s : SubscriberSession)
    → Among (p ∷ more) f
    → Resolves 0 s
    → s.publisher_list ≡ p ∷ more
    → run h (attempt f (p ∷ more)) s ≡ connection_failed_handler (record s { operations = [] })
unfolding run
attempt_fails h none_resolved p more s within r e =
    all_fail h (length more) 0 s r (omega (arith, ap length e))
attempt_fails h (first_resolved i stage) p more s within r e =
    let at : SubscriberSession = record s { operations = resolve i ∷ [] } in
    run-append h (replicate i fails) (succeeds ∷ fails_at stage) s
    ∙ ap (run h (succeeds ∷ fails_at stage))
        (first_fail h i s r (omega (arith, within, ap length e)))
    ∙ ap (run h (fails_at stage)) (resolved h i at r.alive refl)
    ∙ stage_fails h i stage (record s { operations = connect i ∷ [] }) r.alive refl
