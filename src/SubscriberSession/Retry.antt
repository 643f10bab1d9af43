-- ===== src/SubscriberSession/Retry.antt =====
-- SubscriberSession: the number of reconnection attempts.
use mathlib.Core.Path.{subst}
use tcp_pubsub.Base.{length, All, pos, negsuc, ℕ, suc, ◌+◌, ◌≡◌, ap, ◌∙◌, List, [], ◌∷◌, arith}
use tcp_pubsub.SubscriberSession.{Endpoint, SubscriberSession, connection_failed_handler, run}
use tcp_pubsub.SubscriberSession.Attempts.{Resolves, Failure, Among, attempt, attempt_fails}
use tcp_pubsub.SubscriberSession.Rounds.{
  Round, rounds, spent, rounds_survived, Lasts-pos, spent-pos, Lasts-negsuc, spent-negsuc,
}
use tcp_pubsub.Wire.Endian.{Host}

-- A session whose attempts all fail: each as no publisher is resolved, or as the first one that is
-- resolved cannot be connected, does not take the handshake or does not answer it. With n retries
-- left it is not closed by n attempts, each with the wait behind it; after one more attempt it has
-- called its closed handler once, and nothing of it is in flight.
pub retries_exhausted :
    (h : Host) (fs : List Failure) (last : Failure) (p : Endpoint) (more : List Endpoint)
    (s : SubscriberSession)
    → All (Among (p ∷ more)) fs
    → Among (p ∷ more) last
    → Resolves 0 s
    → s.publisher_list ≡ p ∷ more
    → s.retries_left ≡ pos (length fs)
    → let t = run h (rounds fs (p ∷ more)) s in
      let u = run h (attempt last (p ∷ more)) t in
      (t.closed_calls ≡ s.closed_calls)
      × (u.closed_calls ≡ suc s.closed_calls)
      × (u.operations ≡ [])
unfolding connection_failed_handler
retries_exhausted h fs last p more s within ends r e left =
    let n = length fs in
    let all : s.retries_left ≡ pos (n + 0) = left ∙ ap pos (omega arith) in
    let f = rounds_survived h fs p more s within r e (rw all (Lasts-pos n 0)) in
    let none_left = f.retries ∙ ap (spent n) all ∙ spent-pos n 0 in
    let t = run h (rounds fs (p ∷ more)) s in
    rw (attempt_fails h last p more t ends f.resolves f.list) (
      f.calls,
      ground (arith, f.calls, none_left, f.resolves),
      ground (arith, f.calls, none_left, f.resolves),
    )

-- With a negative number of retries no number of failed attempts closes the session.
retries_unlimited :
    (h : Host) (fs : List Failure) (n : ℕ) (p : Endpoint) (more : List Endpoint)
    (s : SubscriberSession)
    → All (Among (p ∷ more)) fs
    → Resolves 0 s
    → s.publisher_list ≡ p ∷ more
    → s.retries_left ≡ negsuc n
    → Round (p ∷ more) (negsuc n) s (run h (rounds fs (p ∷ more)) s)
retries_unlimited h fs n p more s within r e left =
    subst (λ q. Round (p ∷ more) q s (run h (rounds fs (p ∷ more)) s))
      (ap (spent (length fs)) left ∙ spent-negsuc (length fs) n)
      (rounds_survived h fs p more s within r e (rw left (Lasts-negsuc (length fs) n)))
