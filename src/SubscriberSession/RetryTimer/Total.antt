-- ===== src/SubscriberSession/RetryTimer/Total.antt =====
-- SubscriberSession_Impl: how long all waits for the retry timer take together.
use tcp_pubsub.Base.{
  ltb, if◌then◌else◌, Bool-cases, ℤ, ℕ, ◌+◌, ◌≤◌, ◌≡◌, refl, inl, inr, true, some, List, [], ◌∷◌,
  arith,
}
use tcp_pubsub.SubscriberSession.{Endpoint, SubscriberSession, new, Event, step}
use tcp_pubsub.Wire.Endian.{Host}
use tcp_pubsub.SubscriberSession.Closing.{Inv, step-Inv, start-Inv}
use tcp_pubsub.SubscriberSession.RetryTimer.{
  SteadyTimer, waits, Timed, timed_start, timed_step, Possible, timed_run, AllPossible,
}
use tcp_pubsub.SubscriberSession.RetryTimer.Waits.{goes_on, step-Moves}

module _ (asio : SteadyTimer) (created : ℕ) where
  record Kept (t : Timed asio) : Type 0 where
    inv : Inv t.session
    timer : t.retry_timer ≡ asio.construct created 1000
    ready : goes_on t.session ≡ true → t.wait_until ≤ t.clock
    since : created ≤ t.clock
    so_far : created + t.waited ≤ t.wait_until
    bound : t.waited ≤ 1000

  step-Kept :
      (h : Host) (now : ℕ) (e : Event) (t : Timed asio)
      → Possible asio now e t
      → Kept t
      → Kept (timed_step asio h now e t)
  unfolding timed_step
  step-Kept h now e t p k =
      let s = step h e t.session in
      let m = step-Moves h e t.session k.inv in
      let later = p.in_time in
      elim (Bool-cases (ltb (waits t.session.operations) (waits s.operations))) [
        | inl begun ↦
            let ends : asio.wait_ends t.retry_timer now
                ≡ (if ltb now (created + 1000) then created + 1000 else now) =
              rw (k.timer) (asio.expires created 1000 now) in
            let free : t.wait_until ≤ now =
              omega (arith, k.ready (m.begins (ground (arith, begun))), later) in
            rw begun (record {
              inv = step-Inv h e t.session k.inv;
              timer = k.timer;
              ready = λ g. absurd (ground (arith, g, begun));
              since = omega (arith, k.since, later);
              so_far = ground (arith, ends, k.so_far, free);
              bound = ground (arith, ends, k.so_far, k.bound, free);
            })
        | inr quiet ↦ rw quiet (record {
          inv = step-Inv h e t.session k.inv;
          timer = k.timer;
          ready = λ g. elim (m.goes g) [
            | inl before ↦ omega (arith, k.ready before, later)
            | inr o ↦ p.expired o.index o.bytes o.ends o.of_wait
          ];
          since = omega (arith, k.since, later);
          so_far = k.so_far;
          bound = k.bound;
        })
      ]

  run-Kept :
      (h : Host) (es : List (ℕ × Event)) (t : Timed asio)
      → AllPossible asio h es t
      → Kept t
      → Kept (timed_run asio h es t)
  unfolding timed_run
  run-Kept h [] t p k = k
  run-Kept h ((now, e) ∷ es) t p k =
      run-Kept h es (timed_step asio h now e t) p.1 (step-Kept h now e t p.0 k)

-- However often it retries, all the waits of a session between its attempts to connect take one
-- second together at most: with the timer as asio specifies it, for a session that is constructed
-- and started at a time, through any events at any later times, no wait succeeding before its end.
pub waits_one_second :
    (asio : SteadyTimer) (h : Host) (created : ℕ) (publisher : Endpoint) (more : List Endpoint)
    (attempts : ℤ) (es : List (ℕ × Event)) {s : SubscriberSession}
    → new (publisher ∷ more) attempts ≡ some s
    → AllPossible asio h es (timed_start asio created s)
    → (timed_run asio h es (timed_start asio created s)).waited ≤ 1000
unfolding timed_start
waits_one_second asio h created publisher more attempts es {s} e p =
    (run-Kept asio created h es (timed_start asio created s) p (record {
      inv = start-Inv publisher more attempts e;
      timer = refl;
      ready = λ g. omega arith;
      since = omega arith;
      so_far = omega arith;
      bound = omega arith;
    })).bound
