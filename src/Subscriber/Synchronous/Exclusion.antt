-- ===== src/Subscriber/Synchronous/Exclusion.antt =====
-- Subscriber_Impl: what last_callback_data_mutex_ does to synchronous callbacks.
use tcp_pubsub.Base.{ℕ, ◌≡◌, Bool, true, false, some, arith, refl, ◌∙◌}
use tcp_pubsub.Subscriber.Synchronous.{
  StrandAt, idle, admitted, locked, calling, setting, Shared, Step, calls_set_callback,
  tests_canceled, locks, calls_user, calls_nothing, returns, set_callback_locks, cancel_begins,
  cancels_session, cancel_returns, Reach, here, next,
}

-- The strand is inside the scope of the lock.
abbrev pub holds : StrandAt → Bool
holds idle = false
holds admitted = false
holds locked = true
holds calling = true
holds setting = true

pub record Inv (s : Shared) : Type 0 where
  pub holder : (id : ℕ) → holds (s.strand id) ≡ true → s.last_callback_data_mutex ≡ some id

Step-Inv : (s t : Shared) → Step s t → Inv s → Inv t
Step-Inv s t (tests_canceled id at up e) v = record {
  holder = λ j h. ground (arith, e, at, v.holder j);
}
Step-Inv s t (locks id at free e) v = record {
  holder = λ j h. ground (arith, e, at, free, v.holder j);
}
Step-Inv s t (calls_user id at sync e) v = record {
  holder = λ j h. ground (arith, e, at, v.holder j, v.holder id);
}
Step-Inv s t (calls_nothing id at sync e) v = record {
  holder = λ j h. ground (arith, e, at, v.holder j, v.holder id);
}
Step-Inv s t (returns id at e) v = record {
  holder = λ j h. ground (arith, e, at, v.holder j, v.holder id);
}
Step-Inv s t (calls_set_callback id at e) v = record {
  holder = λ j h. ground (arith, e, at, v.holder j, v.holder id);
}
Step-Inv s t (set_callback_locks id at free e) v = record {
  holder = λ j h. ground (arith, e, at, free, v.holder j, v.holder id);
}
Step-Inv s t (cancel_begins at e) v = record { holder = λ j h. ground (arith, e, v.holder j) }
Step-Inv s t (cancels_session id left at e) v = record {
  holder = λ j h. ground (arith, e, v.holder j);
}
Step-Inv s t (cancel_returns at e) v = record { holder = λ j h. ground (arith, e, v.holder j) }

Reach-Inv : {s t : Shared} → Reach s t → Inv s → Inv t
Reach-Inv here v = v
Reach-Inv (next {t} {u} r a) v = Step-Inv t u a (Reach-Inv r v)

pub Idle-Inv : (s : Shared) → ((id : ℕ) → s.strand id ≡ idle) → Inv s
Idle-Inv s all = record { holder = λ id h. ground (arith, all id) }

-- Synchronous callbacks never run at the same time, however many sessions deliver: from strands
-- without a delivery, whatever steps the strands and the owner take, two strands that are both in
-- the user's callback are the same strand.
pub never_in_parallel :
    {s t : Shared} (i j : ℕ)
    → ((id : ℕ) → s.strand id ≡ idle)
    → Reach s t
    → t.strand i ≡ calling
    → t.strand j ≡ calling
    → i ≡ j
never_in_parallel {s} {t} i j all r at_i at_j =
    let v = Reach-Inv r (Idle-Inv s all) in ground (arith, v.holder i, v.holder j)

-- A strand that calls setCallback from the callback has the lock that it asks for, and so no strand
-- takes a step that needs it.
setting_stays :
    (id : ℕ) (t u : Shared) → Inv t → t.strand id ≡ setting → Step t u → u.strand id ≡ setting
setting_stays id t u v w (tests_canceled j at up e) = ground (arith, e, at, w)
setting_stays id t u v w (locks j at free e) = ground (arith, e, at, w, free, v.holder id)
setting_stays id t u v w (calls_user j at sync e) = ground (arith, e, at, w)
setting_stays id t u v w (calls_nothing j at sync e) = ground (arith, e, at, w)
setting_stays id t u v w (returns j at e) = ground (arith, e, at, w)
setting_stays id t u v w (calls_set_callback j at e) = ground (arith, e, at, w)
setting_stays id t u v w (set_callback_locks j at free e) =
    ground (arith, e, at, w, free, v.holder id)
setting_stays id t u v w (cancel_begins at e) = ground (arith, e, w)
setting_stays id t u v w (cancels_session j left at e) = ground (arith, e, w)
setting_stays id t u v w (cancel_returns at e) = ground (arith, e, w)

setting_silences :
    (id : ℕ) (t u : Shared)
    → Inv t
    → t.strand id ≡ setting
    → Step t u
    → (k : ℕ) → u.calls k ≡ t.calls k
setting_silences id t u v w (tests_canceled j at up e) k = ground (arith, e)
setting_silences id t u v w (locks j at free e) k = ground (arith, e)
setting_silences id t u v w (calls_user j at sync e) k =
    ground (arith, at, w, v.holder id, v.holder j)
setting_silences id t u v w (calls_nothing j at sync e) k = ground (arith, e)
setting_silences id t u v w (returns j at e) k = ground (arith, e)
setting_silences id t u v w (calls_set_callback j at e) k = ground (arith, e)
setting_silences id t u v w (set_callback_locks j at free e) k = ground (arith, e)
setting_silences id t u v w (cancel_begins at e) k = ground (arith, e)
setting_silences id t u v w (cancels_session j left at e) k = ground (arith, e)
setting_silences id t u v w (cancel_returns at e) k = ground (arith, e)

-- The first half of set_callback_deadlocks, from a state in which the lock is where it belongs.
stuck :
    {t u : Shared} (id : ℕ)
    → Inv t
    → t.strand id ≡ setting
    → Reach t u
    → (u.strand id ≡ setting) × ((k : ℕ) → u.calls k ≡ t.calls k)
stuck id v w here = (w, λ k. refl)
stuck id v w (next {t = u} {u = x} r a) =
    let before = stuck id v w r in
    let at = Reach-Inv r v in
    (setting_stays id u x at before.0 a, λ k. setting_silences id u x at before.0 a k ∙ before.1 k)

-- setCallback for a synchronous callback, called from a running synchronous callback, never returns:
-- from strands without a delivery, whatever steps lead to such a call and whatever steps come after
-- it, the strand stays in front of the lock, and no session calls the user's callback any more.
pub set_callback_deadlocks :
    {s t u : Shared} (id : ℕ)
    → ((i : ℕ) → s.strand i ≡ idle)
    → Reach s t
    → t.strand id ≡ setting
    → Reach t u
    → (u.strand id ≡ setting) × ((k : ℕ) → u.calls k ≡ t.calls k)
set_callback_deadlocks {s} id all r w later = stuck id (Reach-Inv r (Idle-Inv s all)) w later
