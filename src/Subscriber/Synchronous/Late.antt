-- ===== src/Subscriber/Synchronous/Late.antt =====
-- Subscriber_Impl::cancel: synchronous callbacks that are under way while it runs.
use tcp_pubsub.Base.Ids.{contains}
use tcp_pubsub.Subscriber.Synchronous.{
  put, StrandAt, idle, admitted, locked, calling, setting, OwnerAt, before_cancel, canceling,
  returned, Shared, move, Step, Reach, here, next, cancel_returns, tests_canceled, locks,
  calls_user, calls_nothing, returns, calls_set_callback, set_callback_locks, cancel_begins,
  cancels_session,
}
use tcp_pubsub.Base.{
  ℕ, suc, ◌≡◌, refl, Bool, true, false, ◌||◌, none, some, List, [], ◌∷◌, arith, ◌+◌, ◌≤◌, ◌∙◌,
}

-- Where cancel has got to, its steps alone being taken from t on.
record Returned (s t : Shared) : Type 0 where
  after : Shared
  reach : Reach s after
  at : after.owner ≡ returned
  strand : after.strand ≡ t.strand
  mutex : after.last_callback_data_mutex ≡ t.last_callback_data_mutex
  sync : after.user_callback_is_synchronous ≡ true

-- The loop of cancel waits for nothing.
finish : {s t : Shared} (left : List ℕ) → Reach s t → t.owner ≡ canceling left → Returned s t
finish {s} {t} [] r e = record {
  after = record t { owner = returned; user_callback_is_synchronous = true };
  reach = next r (cancel_returns e refl);
  at = refl;
  strand = refl;
  mutex = refl;
  sync = refl;
}
finish {s} {t} (id ∷ left) r e =
    let u = record t { owner = canceling left; canceled = put t.canceled id true } in
    let rest = finish {t = u} left (next r (cancels_session id left e refl)) refl in
    record {
      after = rest.after;
      reach = rest.reach;
      at = rest.at;
      strand = rest.strand;
      mutex = rest.mutex;
      sync = rest.sync;
    }

-- A delivery that has passed the test of canceled_ calls the user's callback.
goes_on :
    (t : Shared) (id : ℕ)
    → t.strand id ≡ admitted
    → t.last_callback_data_mutex ≡ none
    → t.user_callback_is_synchronous ≡ true
    → (u : Shared) × Reach t u × (u.calls id ≡ suc (t.calls id))
goes_on t id at free sync =
    let c = record (move id locked t) { last_callback_data_mutex = some id } in
    let u = record (move id calling c) { calls = put c.calls id (suc (c.calls id)) } in
    (
      u,
      next (next here (locks id at free refl)) (calls_user id (ground arith) sync refl),
      ground arith,
    )

-- cancel does not wait for a synchronous callback: from a state in which the lock is free,
-- cancel has not begun and session id has no delivery and is not canceled, there are steps to a state in which cancel has returned, and from there to one in which the session has
-- called the user's callback once more.
pub late_call :
    (s : Shared) (id : ℕ)
    → s.strand id ≡ idle
    → s.last_callback_data_mutex ≡ none
    → s.owner ≡ before_cancel
    → s.canceled id ≡ false
    → (t u : Shared) × Reach s t
      × (t.owner ≡ returned)
      × Reach t u
      × (u.calls id ≡ suc (t.calls id))
late_call s id at free owner up =
    let a = move id admitted s in
    let b = record a { owner = canceling a.session_list } in
    let r = next (next here (tests_canceled id at up refl)) (cancel_begins owner refl) in
    let f = finish {t = b} b.session_list r refl in
    let late = goes_on f.after id (ground (arith, f.strand)) (f.mutex ∙ free) f.sync in
    (f.after, late.0, f.reach, f.at, late.1, late.2)

-- The calls of the user's callback that a strand still makes once its session is canceled.
abbrev pub in_flight : StrandAt → ℕ
in_flight idle = 0
in_flight admitted = 1
in_flight locked = 1
in_flight calling = 0
in_flight setting = 0

-- Whether the loop of cancel has session id in front of it.
abbrev ahead : ℕ → Shared → OwnerAt → Bool
ahead id s before_cancel = contains id s.session_list
ahead id s (canceling left) = contains id left
ahead id s returned = false

Caught : ℕ → Shared → Type 0
Caught id s = ahead id s s.owner || s.canceled id ≡ true

Step-Caught : (id : ℕ) (s t : Shared) → Step s t → Caught id s → Caught id t
unfolding contains Caught
Step-Caught id s t (tests_canceled j at up e) v = ground (arith, e, v)
Step-Caught id s t (locks j at free e) v = ground (arith, e, v)
Step-Caught id s t (calls_user j at sync e) v = ground (arith, e, v)
Step-Caught id s t (calls_nothing j at sync e) v = ground (arith, e, v)
Step-Caught id s t (returns j at e) v = ground (arith, e, v)
Step-Caught id s t (calls_set_callback j at e) v = ground (arith, e, v)
Step-Caught id s t (set_callback_locks j at free e) v = ground (arith, e, v)
Step-Caught id s t (cancel_begins at e) v = ground (arith, e, at, v)
Step-Caught id s t (cancels_session j left at e) v = ground (arith, e, at, v)
Step-Caught id s t (cancel_returns at e) v = ground (arith, e, at, v)

-- What is to be called is called at most once.
Step-canceled :
    (id : ℕ) (s t : Shared)
    → Step s t
    → s.canceled id ≡ true
    → (t.canceled id ≡ true)
      × (t.calls id + in_flight (t.strand id) ≤ s.calls id + in_flight (s.strand id))
Step-canceled id s t (tests_canceled j at up e) v = ground (arith, e, at, up, v)
Step-canceled id s t (locks j at free e) v = ground (arith, e, at, v)
Step-canceled id s t (calls_user j at sync e) v = ground (arith, e, at, v)
Step-canceled id s t (calls_nothing j at sync e) v = ground (arith, e, at, v)
Step-canceled id s t (returns j at e) v = ground (arith, e, at, v)
Step-canceled id s t (calls_set_callback j at e) v = ground (arith, e, at, v)
Step-canceled id s t (set_callback_locks j at free e) v = ground (arith, e, at, v)
Step-canceled id s t (cancel_begins at e) v = ground (arith, e, v)
Step-canceled id s t (cancels_session j left at e) v = ground (arith, e, v)
Step-canceled id s t (cancel_returns at e) v = ground (arith, e, v)

Reach-Caught : {s t : Shared} (id : ℕ) → Reach s t → Caught id s → Caught id t
Reach-Caught id here v = v
Reach-Caught id (next {t = t} {u = u} r a) v = Step-Caught id t u a (Reach-Caught id r v)

Reach-canceled :
    {s t : Shared} (id : ℕ)
    → Reach s t
    → s.canceled id ≡ true
    → (t.canceled id ≡ true)
      × (t.calls id + in_flight (t.strand id) ≤ s.calls id + in_flight (s.strand id))
Reach-canceled id here v = (v, ground arith)
Reach-canceled {s} id (next {t = t} {u = u} r a) v =
    let before = Reach-canceled id r v in
    let after = Step-canceled id t u a before.0 in (after.0, ground (arith, before.1, after.1))

-- After cancel each session of the list calls the user's callback at most once more, and only when
-- its delivery had passed the test of canceled_ by then: from a state in front of cancel whose list
-- has session id, whatever steps lead to a state in which cancel has returned and whatever steps
-- come after it.
pub calls_after_cancel :
    {s t u : Shared} (id : ℕ)
    → s.owner ≡ before_cancel
    → contains id s.session_list ≡ true
    → Reach s t
    → t.owner ≡ returned
    → Reach t u
    → u.calls id ≤ t.calls id + in_flight (t.strand id)
unfolding Caught
calls_after_cancel {s} {t} id at mem r over later =
    let caught = Reach-Caught id r (ground (arith, at, mem)) in
    let f = Reach-canceled id later (ground (arith, over, caught)) in ground (arith, f.1)
