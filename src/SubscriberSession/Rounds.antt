-- ===== src/SubscriberSession/Rounds.antt =====
-- SubscriberSession: attempts on the list of publishers that fail, and the retries behind them.
use mathlib.Core.Path.{subst}
use tcp_pubsub.Base.{
  if◌then◌else◌, length, ℤ, ℕ, zero, suc, ◌+◌, ◌≡◌, refl, false, List, [], ◌∷◌, ◌++◌, arith, pos,
  negsuc, is_negative, is_positive, decrement, ap, ◌∙◌, true, ◌||◌, All,
}
use tcp_pubsub.SubscriberSession.Runs.{run-append}
use tcp_pubsub.Asio.{done}
use tcp_pubsub.Wire.Endian.{Host}
use tcp_pubsub.SubscriberSession.{
  Endpoint, resolve, SubscriberSession, connection_failed_handler, on_completed, Event,
  operation_ends, step, run,
}
use tcp_pubsub.SubscriberSession.Attempts.{Resolves, Failure, Among, attempt, attempt_fails}

-- One attempt that fails, and the wait before the next.
abbrev pub attempt_and_wait : Failure → List Endpoint → List Event
attempt_and_wait f publishers = attempt f publishers ++ operation_ends 0 (done []) ∷ []

abbrev pub disconnected : ℤ → SubscriberSession → SubscriberSession
disconnected retries s = record s {
  connected_publisher_endpoint = ("", 0);
  socket_open = false;
  retries_left = retries;
}

-- What one round leaves as it was, but for the count of retries.
pub record Round (ps : List Endpoint) (r : ℤ) (s t : SubscriberSession) : Type 0 where
  pub resolves : Resolves 0 t
  pub list : t.publisher_list ≡ ps
  pub calls : t.closed_calls ≡ s.closed_calls
  pub retries : t.retries_left ≡ r
  pub attempts : t.max_reconnection_attempts ≡ s.max_reconnection_attempts
  pub delivered : t.delivered ≡ s.delivered
  pub strand : t.strand ≡ s.strand
  pub callback : t.synchronous_callback ≡ s.synchronous_callback

-- What is left of the retries after one of them is used.
abbrev pub spend : ℤ → ℤ
spend i = if is_positive i then decrement i else i

pub waits_then_resolves :
    (h : Host) (s : SubscriberSession)
    → s.canceled ≡ false
    → is_negative s.retries_left || is_positive s.retries_left ≡ true
    → run h
        (operation_ends 0 (done []) ∷ [])
        (connection_failed_handler (record s { operations = [] }))
      ≡ record (disconnected (spend s.retries_left) s) { operations = resolve 0 ∷ [] }
unfolding run step connection_failed_handler on_completed
waits_then_resolves h s up left = ground arith

round_lem :
    (h : Host) (f : Failure) (p : Endpoint) (more : List Endpoint) (s : SubscriberSession)
    → Among (p ∷ more) f
    → Resolves 0 s
    → s.publisher_list ≡ p ∷ more
    → is_negative s.retries_left || is_positive s.retries_left ≡ true
    → Round (p ∷ more) (spend s.retries_left) s (run h (attempt_and_wait f (p ∷ more)) s)
round_lem h f p more s within r e left =
    rw
      (run-append h (attempt f (p ∷ more)) (operation_ends 0 (done []) ∷ []) s
        ∙ ap (run h (operation_ends 0 (done []) ∷ [])) (attempt_fails h f p more s within r e)
        ∙ waits_then_resolves h s r.alive left)
      (record {
        resolves = record { alive = r.alive; one = refl };
        list = e;
        calls = refl;
        retries = refl;
        attempts = refl;
        delivered = refl;
        strand = refl;
        callback = refl;
      })

abbrev pub rounds : List Failure → List Endpoint → List Event
rounds [] ps = []
rounds (f ∷ fs) ps = attempt_and_wait f ps ++ rounds fs ps

Round-trans :
    {ps : List Endpoint} {q r : ℤ} {s t u : SubscriberSession}
    → Round ps q s t
    → Round ps r t u
    → Round ps r s u
Round-trans f g = record {
  resolves = g.resolves;
  list = g.list;
  calls = g.calls ∙ f.calls;
  retries = g.retries;
  attempts = g.attempts ∙ f.attempts;
  delivered = g.delivered ∙ f.delivered;
  strand = g.strand ∙ f.strand;
  callback = g.callback ∙ f.callback;
}

-- What is left of the retries after some of them, and that there are as many.
abbrev pub spent : ℕ → ℤ → ℤ
spent zero r = r
spent (suc k) r = spent k (spend r)

abbrev pub Lasts : ℕ → ℤ → Type 0
Lasts zero r = Unit
Lasts (suc k) r = (is_negative r || is_positive r ≡ true) × Lasts k (spend r)

pub rounds_survived :
    (h : Host) (fs : List Failure) (p : Endpoint) (more : List Endpoint) (s : SubscriberSession)
    → All (Among (p ∷ more)) fs
    → Resolves 0 s
    → s.publisher_list ≡ p ∷ more
    → Lasts (length fs) s.retries_left
    → Round (p ∷ more) (spent (length fs) s.retries_left) s (run h (rounds fs (p ∷ more)) s)
unfolding run
rounds_survived h [] p more s within r e left = record {
  resolves = r;
  list = e;
  calls = refl;
  retries = refl;
  attempts = refl;
  delivered = refl;
  strand = refl;
  callback = refl;
}
rounds_survived h (f ∷ fs) p more s within r e (some_left, left) =
    let t = run h (attempt_and_wait f (p ∷ more)) s in
    let now = round_lem h f p more s within.0 r e some_left in
    let later =
      rounds_survived h fs p more t within.1 now.resolves now.list (rw now.retries left) in
    rw (run-append h (attempt_and_wait f (p ∷ more)) (rounds fs (p ∷ more)) s) (
      Round-trans now (
        subst (λ r. Round (p ∷ more) (spent (length fs) r) t (run h (rounds fs (p ∷ more)) t))
          now.retries later))

pub Lasts-pos : (k n : ℕ) → Lasts k (pos (k + n))
Lasts-pos zero n = tt
Lasts-pos (suc k) n =
    let e : suc (k + n) ≡ suc k + n = omega arith in
    subst (Lasts (suc k)) (ap pos e) (refl, Lasts-pos k n)

pub spent-pos : (k n : ℕ) → spent k (pos (k + n)) ≡ pos n
spent-pos zero n = ap pos (omega arith)
spent-pos (suc k) n =
    let e : suc k + n ≡ suc (k + n) = omega arith in
    ap (λ m. spent (suc k) (pos m)) e ∙ spent-pos k n

pub Lasts-negsuc : (k n : ℕ) → Lasts k (negsuc n)
Lasts-negsuc zero n = tt
Lasts-negsuc (suc k) n = (refl, Lasts-negsuc k n)

pub spent-negsuc : (k n : ℕ) → spent k (negsuc n) ≡ negsuc n
spent-negsuc zero n = refl
spent-negsuc (suc k) n = spent-negsuc k n
