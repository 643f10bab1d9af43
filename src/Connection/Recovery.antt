-- ===== src/Connection/Recovery.antt =====
-- A SubscriberSession_Impl whose connection fails, and a publisher that can be reached again
-- (subscriber_session_impl.cpp).
use tcp_pubsub.SubscriberSession.{
  SubscriberSession, Operation, resolve, connect, operation_ends, step, run, Endpoint, Event,
}
use tcp_pubsub.Base.{
  length, replicate, ℕ, suc, ◌<◌, ◌≡◌, refl, ap, ◌∙◌, false, [], ◌∷◌, arith, get_or, sym, some,
  List, ◌++◌, get_elem?, All,
}
use tcp_pubsub.Wire.Endian.{Host}
use tcp_pubsub.Asio.{done}
use tcp_pubsub.SubscriberSession.Runs.{run-append}
use tcp_pubsub.SubscriberSession.Receive.{Waits}
use tcp_pubsub.Connection.{connected_to, request_and_answer, connects, subst}
use tcp_pubsub.SubscriberSession.Known.{get_or-IsEntry}
use tcp_pubsub.SubscriberSession.Attempts.{
  fails, OnConnection, connection_fails, first_fail, resolved, Failure, Among,
}
use tcp_pubsub.SubscriberSession.Rounds.{
  disconnected, Round, spend, waits_then_resolves, rounds, spent, Lasts, rounds_survived,
}

one_step : (h : Host) (e : Event) (s : SubscriberSession) → run h (e ∷ []) s ≡ step h e s
unfolding run
one_step h e s = refl

-- The connection fails, the wait ends, some attempts fail, and then the publisher at an index is
-- the first that is resolved, is connected and answers.
abbrev pub comes_back : Host → List Failure → ℕ → List Endpoint → List Event
comes_back publisher fs i publishers =
    fails ∷ operation_ends 0 (done []) ∷ rounds fs publishers
    ++ (replicate i fails
        ++ operation_ends 0 (done []) ∷ operation_ends 0 (done []) ∷ request_and_answer publisher)

module _ (publisher subscriber : Host) (fs : List Failure) (i : ℕ) (p : Endpoint)
    (more : List Endpoint) (o : Operation) (s : SubscriberSession) (up : s.canceled ≡ false)
    (one : s.operations ≡ o ∷ []) (transfer : OnConnection o) (quiet : s.strand ≡ [])
    (list : s.publisher_list ≡ p ∷ more) (failures : All (Among (p ∷ more)) fs)
    (left : Lasts (suc (length fs)) s.retries_left) (within : i < length (p ∷ more)) where
  abbrev waited : SubscriberSession
  waited = record (disconnected (spend s.retries_left) s) { operations = resolve 0 ∷ [] }

  abbrev tried : SubscriberSession
  tried = run subscriber (rounds fs (p ∷ more)) waited

  first_wait : run subscriber (fails ∷ operation_ends 0 (done []) ∷ []) s ≡ waited
  first_wait =
      run-append subscriber (fails ∷ []) (operation_ends 0 (done []) ∷ []) s
      ∙ ap (run subscriber (operation_ends 0 (done []) ∷ []))
          (one_step subscriber fails s ∙ connection_fails subscriber o s transfer one)
      ∙ waits_then_resolves subscriber s up left.0

  round : Round (p ∷ more) (spent (length fs) (spend s.retries_left)) waited tried
  round =
      rounds_survived subscriber fs p more waited failures (record { alive = up; one = refl }) list
        left.1

  last_round :
      run subscriber
        (replicate i fails
          ++ operation_ends 0 (done []) ∷ operation_ends 0 (done []) ∷ request_and_answer publisher)
        tried
      ≡ connected_to i (record tried { operations = connect i ∷ [] })
  unfolding run
  last_round =
      let rest = operation_ends 0 (done []) ∷ request_and_answer publisher in
      let at : SubscriberSession = record tried { operations = resolve i ∷ [] } in
      let here : SubscriberSession = record tried { operations = connect i ∷ [] } in
      run-append subscriber (replicate i fails) (operation_ends 0 (done []) ∷ rest) tried
      ∙ ap (run subscriber (operation_ends 0 (done []) ∷ rest))
          (first_fail subscriber i tried round.resolves (omega (arith, ap length round.list)))
      ∙ ap (run subscriber rest) (resolved subscriber i at round.resolves.alive refl)
      ∙ connects publisher subscriber i here round.resolves.alive refl (round.strand ∙ quiet)

  comes_back-eq :
      run subscriber (comes_back publisher fs i (p ∷ more)) s
      ≡ connected_to i (record tried { operations = connect i ∷ [] })
  comes_back-eq =
      let last =
        replicate i fails
        ++ operation_ends 0 (done []) ∷ operation_ends 0 (done []) ∷ request_and_answer publisher in
      run-append subscriber (fails ∷ operation_ends 0 (done []) ∷ []) (rounds fs (p ∷ more) ++ last)
        s
      ∙ ap (run subscriber (rounds fs (p ∷ more) ++ last)) first_wait
      ∙ run-append subscriber (rounds fs (p ∷ more)) last waited
      ∙ last_round

  -- Whatever a session was doing with its connection when it failed: its retries last for some
  -- attempts and one more. Each of the attempts fails, as no publisher is resolved, or as the first
  -- one that is resolved cannot be connected, does not take the handshake or does not answer it. In
  -- the one more, the publishers before the one at index i are not resolved, and that one is
  -- resolved, is connected and answers. Then the session waits for messages again. It is connected to the publisher at index i, has all its retries again, and has called
  -- neither its callback nor its closed handler.
  pub recovers :
      let t = run subscriber (comes_back publisher fs i (p ∷ more)) s in
      Waits t
      × (get_elem? (p ∷ more) i ≡ some t.connected_publisher_endpoint)
      × (t.retries_left ≡ s.max_reconnection_attempts)
      × (t.synchronous_callback ≡ s.synchronous_callback)
      × (t.delivered ≡ s.delivered)
      × (t.closed_calls ≡ s.closed_calls)
  recovers =
      let r = round in
      let here = comes_back-eq in
      (
        subst Waits (sym here)
            (record { alive = r.resolves.alive; one_read = refl; quiet = r.strand ∙ quiet }),
        get_or-IsEntry (p ∷ more) i tried.connected_publisher_endpoint within
            ∙ ap (λ l. some (get_or l i tried.connected_publisher_endpoint)) (sym r.list)
            ∙ ap (λ (t : SubscriberSession). some t.connected_publisher_endpoint) (sym here),
        ap (λ (t : SubscriberSession). t.retries_left) here ∙ r.attempts,
        ap (λ (t : SubscriberSession). t.synchronous_callback) here ∙ r.callback,
        ap (λ (t : SubscriberSession). t.delivered) here ∙ r.delivered,
        ap (λ (t : SubscriberSession). t.closed_calls) here ∙ r.calls,
      )
