-- ===== src/SubscriberSession/Runs.antt =====
-- SubscriberSession: runs in a row.
use tcp_pubsub.Base.{◌≡◌, refl, List, [], ◌∷◌, ◌++◌}
use tcp_pubsub.SubscriberSession.{SubscriberSession, Event, step, run}
use tcp_pubsub.Wire.Endian.{Host}

pub run-append :
    (h : Host) (xs ys : List Event) (s : SubscriberSession)
    → run h (xs ++ ys) s ≡ run h ys (run h xs s)
unfolding run
run-append h [] ys s = refl
run-append h (x ∷ xs) ys s = run-append h xs ys (step h x s)
