-- ===== src/Subscriber/Synchronous/Examples.antt =====
-- Synchronous callbacks, at small inputs.
use tcp_pubsub.Base.Ids.{contains}
use tcp_pubsub.Base.{◌≡◌, refl, true, false, none, [], ◌∷◌, ℕ, suc, ◌+◌, ◌≤◌, some}
use tcp_pubsub.Subscriber.Synchronous.{
  idle, admitted, locked, calling, setting, before_cancel, canceling, returned, Shared, put, move,
  Reach, here, next, tests_canceled, locks, calls_set_callback, cancel_begins, calls_user,
  cancels_session, cancel_returns,
}
use tcp_pubsub.Subscriber.Synchronous.Exclusion.{never_in_parallel, set_callback_deadlocks}
use tcp_pubsub.Subscriber.Synchronous.Late.{late_call, in_flight, calls_after_cancel}

-- Two sessions, and nothing has begun.
abbrev start : Shared
start = record {
  last_callback_data_mutex = none;
  user_callback_is_synchronous = true;
  session_list = 7 ∷ 8 ∷ [];
  canceled = λ id. false;
  strand = λ id. idle;
  owner = before_cancel;
  calls = λ id. 0;
}

abbrev passed : Shared
passed = move 7 admitted start

abbrev behind : Shared
behind = record (move 7 locked passed) { last_callback_data_mutex = some 7 }

abbrev called : Shared
called = record (move 7 calling behind) { calls = put behind.calls 7 1 }

abbrev asked : Shared
asked = record (move 7 setting called) { user_callback_is_synchronous = true }

to_passed : Reach start passed
to_passed = next here (tests_canceled 7 refl refl refl)

to_called : Reach start called
to_called = next (next to_passed (locks 7 refl refl refl)) (calls_user 7 refl refl refl)

to_asked : Reach start asked
to_asked = next to_called (calls_set_callback 7 refl refl)

never_in_parallel_example : ◌≡◌ {A = ℕ} 7 7
never_in_parallel_example = never_in_parallel 7 7 (λ id. refl) to_called refl refl

abbrev other : Shared
other = move 8 admitted asked

to_other : Reach asked other
to_other = next here (tests_canceled 8 refl refl refl)

set_callback_deadlocks_example :
    (other.strand 7 ≡ setting) × ((k : ℕ) → other.calls k ≡ asked.calls k)
set_callback_deadlocks_example = set_callback_deadlocks 7 (λ id. refl) to_asked refl to_other

late_call_example :
    (t u : Shared) × Reach start t
    × (t.owner ≡ returned)
    × Reach t u
    × (u.calls 8 ≡ suc (t.calls 8))
late_call_example = late_call start 8 refl refl refl refl

abbrev begun : Shared
begun = record passed { owner = canceling (7 ∷ 8 ∷ []) }

abbrev first : Shared
first = record begun { owner = canceling (8 ∷ []); canceled = put begun.canceled 7 true }

abbrev second : Shared
second = record first { owner = canceling []; canceled = put first.canceled 8 true }

abbrev over : Shared
over = record second { owner = returned; user_callback_is_synchronous = true }

abbrev late : Shared
late = record (move 7 locked over) { last_callback_data_mutex = some 7 }

to_over : Reach start over
to_over =
    next
      (next (next (next to_passed (cancel_begins refl refl)) (cancels_session 7 (8 ∷ []) refl refl))
        (cancels_session 8 [] refl refl))
      (cancel_returns refl refl)

to_late : Reach over late
to_late = next here (locks 7 refl refl refl)

calls_after_cancel_example : late.calls 7 ≤ over.calls 7 + in_flight (over.strand 7)
unfolding contains
calls_after_cancel_example = calls_after_cancel 7 refl refl to_over refl to_late
