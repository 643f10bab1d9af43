-- ===== src/Connection/Open.antt =====
-- A Publisher_Impl whose session stays open, and the subscriber at the other end: the session is
-- given what each call of `send` prepares (publisher_impl.cpp, publisher_session.cpp).
use mathlib.Core.Path.{subst}
use tcp_pubsub.PublisherSession
use tcp_pubsub.PublisherSession.{PublisherSession, canceled, read_ends, write_ends}
use tcp_pubsub.Publisher
use tcp_pubsub.Publisher.{Publisher}
use tcp_pubsub.Publisher.Serial.{
  SerialEvent, accepts, cancels, sends, read_of, write_of, steps, serial, steps-Inv, run-append,
}
use tcp_pubsub.Base.{
  ◌==◌, ==→≡, Bool-cases, ℕ, ◌≡◌, refl, ap, ◌∙◌, inl, inr, true, List, [], ◌∷◌, arith,
  if◌then◌else◌, sym, ap₂, Bool, false, append-nil, ◌++◌,
}
use tcp_pubsub.Base.Ids.{contains, Distinct}
use tcp_pubsub.Publisher.Invariant.{Inv}
use tcp_pubsub.Publisher.Calls.{cancel-Inv}
use tcp_pubsub.Publisher.Own.{handed, on_session-Became, own}
use tcp_pubsub.Publisher.Own.Running.{send-running, accept-running, joining-running}
use tcp_pubsub.PublisherSession.SendOrder.{submitted}
use tcp_pubsub.PublisherSession.SendQueue.{Live}
use tcp_pubsub.PublisherSession.Mailbox.{Live-Implements}
use tcp_pubsub.Connection.System.{
  handed_none, not_fresh, call_of, calls_of, prepared-append, submitted-append, own-append,
  cancels_submit_none, Live-Exists,
}
use tcp_pubsub.Wire.Endian.{Host}
use tcp_pubsub.Asio.{failed, done}
use tcp_pubsub.Publisher.Own.Runs.{run-own}
use tcp_pubsub.Publisher.Message.{prepare_buffer}
use tcp_pubsub.SubscriberSession.Receive.{prepared}
use tcp_pubsub.PublisherSession.Cancel.{run_canceled}

-- A session in a list of distinct ones gets a buffer exactly once.
handed_exactly :
    (id : ℕ) (b : List ℕ) (js : List ℕ)
    → Distinct js
    → contains id js ≡ true
    → submitted (handed id (PublisherSession.send_call b) js) ≡ b ∷ []
unfolding contains
handed_exactly id b [] d here = ground arith
handed_exactly id b (j ∷ js) d here = elim (Bool-cases (id == j)) [
  | inl same ↦
      let e = PublisherSession.send_call b in
      let none_more : handed id e js ≡ [] =
        handed_none id e js (ap (λ k. contains k js) (==→≡ id j same) ∙ d.0) in
      rw (same, none_more) refl
  | inr other ↦ rw other (handed_exactly id b js d.1 (ground arith))
]

run-Live :
    (h : Host) (es : List PublisherSession.Event) (s : PublisherSession)
    → Live s
    → Live (PublisherSession.run h es s)
unfolding PublisherSession.run
run-Live h [] s v = v
run-Live h (e ∷ es) s v = run-Live h es (PublisherSession.step h e s) (Live-Implements h e s v).0

-- A publisher that runs, with an open session in its list whose handshake is over.
pub record Serves (i : ℕ) (p : Publisher) : Type 0 where
  pub inv : Inv p
  pub live : Live (p.session i)
  pub listed : contains i p.publisher_sessions ≡ true
  pub running : p.is_running ≡ true

-- A session that is not closed is still listed.
pub still_listed :
    (i : ℕ) (p : Publisher)
    → Inv p
    → Live (p.session i)
    → ¬ ((p.session i).state ≡ canceled)
    → contains i p.publisher_sessions ≡ true
still_listed i p v live up = elim (Bool-cases (contains i p.publisher_sessions)) [
  | inl here ↦ here
  | inr gone ↦ elim (v.unlisted i gone) [
    | inl untouched ↦ absurd (not_fresh (p.session i) live untouched)
    | inr ended ↦ absurd (up ended)
  ]
]

-- After cancel() no session is open.
cancel_closes :
    (h : Host) (i : ℕ) (p : Publisher)
    → Inv p
    → Live ((Publisher.step h Publisher.cancel_call p).session i)
    → ((Publisher.step h Publisher.cancel_call p).session i).state ≡ canceled
unfolding Publisher.step contains
cancel_closes h i p v live =
    let (after, empty) = cancel-Inv p v in
    elim (after.unlisted i (ap (contains i) empty)) [
      | inl untouched ↦ absurd (not_fresh ((Publisher.cancel p).session i) live untouched)
      | inr ended ↦ ended
    ]

runs_on :
    (h : Host) (i : ℕ) (e : SerialEvent) (p : Publisher)
    → Serves i p
    → Live ((Publisher.run h (steps e) p).session i)
    → ¬ (((Publisher.run h (steps e) p).session i).state ≡ canceled)
    → (Publisher.run h (steps e) p).is_running ≡ true
unfolding Publisher.run Publisher.step
runs_on h i (accepts k failed) p v live up = accept-running h k failed p ∙ v.running
runs_on h i (accepts k (done bytes)) p v live up =
    let q = Publisher.step h (Publisher.accept_ends k (done bytes)) p in
    joining-running h 0 q ∙ accept-running h k (done bytes) p ∙ v.running
runs_on h i cancels p v live up = absurd (up (cancel_closes h i p v.inv live))
runs_on h i (sends stale ps) p v live up = send-running h stale ps p ∙ v.running
runs_on h i (read_of j k c) p v live up =
    (on_session-Became j (PublisherSession.step h (read_ends k c)) 0 p).running ∙ v.running
runs_on h i (write_of j k c) p v live up =
    (on_session-Became j (PublisherSession.step h (write_ends k c)) 0 p).running ∙ v.running

session_after :
    (h : Host) (i : ℕ) (es : List Publisher.Event) (p : Publisher)
    → Inv p
    → Live (p.session i)
    → Live ((Publisher.run h es p).session i)
session_after h i es p v live =
    subst Live (sym (run-own h es i p (Live-Exists i p v live)))
      (run-Live h (own h i es p) (p.session i) live)

stays_open :
    (h : Host) (i : ℕ) (e : SerialEvent) (p : Publisher)
    → Serves i p
    → ¬ (((Publisher.run h (steps e) p).session i).state ≡ canceled)
    → Serves i (Publisher.run h (steps e) p)
stays_open h i e p v up =
    let inv = steps-Inv h e p v.inv in
    let live = session_after h i (steps e) p v.inv v.live in
    record {
      inv = inv;
      live = live;
      listed = still_listed i (Publisher.run h (steps e) p) inv live up;
      running = runs_on h i e p v live up;
    }

none_if :
    (c : Bool) (es : List PublisherSession.Event)
    → submitted es ≡ []
    → submitted (if c then es else []) ≡ []
none_if true es e = e
none_if false es e = refl

gets_calls :
    (h : Host) (i : ℕ) (e : SerialEvent) (p : Publisher)
    → Serves i p
    → submitted (own h i (steps e) p) ≡ prepared h (call_of e)
gets_calls h i (accepts k failed) p v = refl
gets_calls h i (accepts k (done bytes)) p v = refl
gets_calls h i cancels p v =
    ap submitted (append-nil (handed i PublisherSession.cancel_call p.publisher_sessions))
    ∙ cancels_submit_none i p.publisher_sessions
gets_calls h i (sends stale ps) p v =
    rw (append-nil, v.running)
      (handed_exactly i (prepare_buffer h stale ps) p.publisher_sessions v.inv.distinct v.listed)
gets_calls h i (read_of j k c) p v = rw append-nil (none_if (i == j) _ refl)
gets_calls h i (write_of j k c) p v = rw append-nil (none_if (i == j) _ refl)

-- A session that was closed before is closed.
closed_for_good :
    (h : Host) (i : ℕ) (es : List Publisher.Event) (p : Publisher)
    → Inv p
    → Live (p.session i)
    → (p.session i).state ≡ canceled
    → ((Publisher.run h es p).session i).state ≡ canceled
closed_for_good h i es p v live gone =
    ap (λ (r : PublisherSession). r.state) (run-own h es i p (Live-Exists i p v live))
    ∙ (run_canceled h (own h i es p) (p.session i) gone).state

-- A session that is open in the end was given what every call of send prepared.
pub gets_all_calls :
    (h : Host) (i : ℕ) (es : List SerialEvent) (p : Publisher)
    → Serves i p
    → ¬ (((Publisher.run h (serial es) p).session i).state ≡ canceled)
    → submitted (own h i (serial es) p) ≡ prepared h (calls_of es)
gets_all_calls h i [] p v up = refl
gets_all_calls h i (e ∷ es) p v up =
    let q = Publisher.run h (steps e) p in
    let whole = run-append h (steps e) (serial es) p in
    let inv = steps-Inv h e p v.inv in
    let live = session_after h i (steps e) p v.inv v.live in
    let up_later : ¬ (((Publisher.run h (serial es) q).session i).state ≡ canceled) =
      λ gone. up (ap (λ (r : Publisher). (r.session i).state) whole ∙ gone) in
    let up_now : ¬ ((q.session i).state ≡ canceled) =
      λ gone. up_later (closed_for_good h i (serial es) q inv live gone) in
    ap submitted (own-append h i (steps e) (serial es) p)
    ∙ submitted-append (own h i (steps e) p) (own h i (serial es) q)
    ∙ ap₂ ◌++◌ (gets_calls h i e p v)
        (gets_all_calls h i es q (stays_open h i e p v up_now) up_later)
    ∙ sym (prepared-append h (call_of e) (calls_of es))
