-- ===== src/Publisher/Alike.antt =====
-- Publisher_Impl: publishers that are the same but for the order of publisher_sessions_, which is the
-- order in which the accept handlers entered the sessions.
pub mod Commute
pub mod Steps
use mathlib.Core.List.{Permᴰ}
use tcp_pubsub.Base.{Bool-cases, ℕ, zero, suc, ◌-◌, ◌≡◌, sym, ap, inl, inr, List, [], ◌∷◌, arith}
use tcp_pubsub.Base.Ids.{contains}
use tcp_pubsub.Base.Ids.Order.{contains-Permᴰ, erase-Permᴰ}
use tcp_pubsub.Publisher.{Publisher, update, publisher_session_closed_handler, notify, on_session}
use tcp_pubsub.PublisherSession.{PublisherSession}

-- The second publisher is the first, but for the order of its list.
pub record Alike (p q : Publisher) : Type 0 where
  pub order : Permᴰ p.publisher_sessions q.publisher_sessions
  pub rest : q ≡ record p { publisher_sessions = q.publisher_sessions }

closed-Alike :
    (id : ℕ) (p q : Publisher)
    → Alike p q
    → Alike (publisher_session_closed_handler id p) (publisher_session_closed_handler id q)
unfolding publisher_session_closed_handler
closed-Alike id p q a = elim (Bool-cases (contains id p.publisher_sessions)) [
  | inl t ↦
      rw (sym (contains-Permᴰ id a.order), t)
        record { order = erase-Permᴰ id a.order; rest = ground (arith, a.rest) }
  | inr t ↦
      rw (sym (contains-Permᴰ id a.order), t)
        record { order = a.order; rest = ground (arith, a.rest) }
]

pub notify-Alike : (n id : ℕ) (p q : Publisher) → Alike p q → Alike (notify n id p) (notify n id q)
unfolding notify
notify-Alike zero id p q a = a
notify-Alike (suc n) id p q a =
    closed-Alike id (notify n id p) (notify n id q) (notify-Alike n id p q a)

pub on_session-Alike :
    (id : ℕ) (operation : PublisherSession → PublisherSession) (p q : Publisher)
    → Alike p q
    → Alike (on_session id operation p) (on_session id operation q)
unfolding on_session
on_session-Alike id operation p q a =
    let objects : q.session ≡ p.session = ap (λ x. x.session) a.rest in
    let s = operation (p.session id) in
    rw objects (
      notify-Alike (s.closed_calls - (p.session id).closed_calls) id
        (record p { session = update p.session id s })
        (record q { session = update p.session id s })
        record { order = a.order; rest = ground (arith, a.rest) })

-- The loops of send and cancel over one list.
unfoldable pub over : (PublisherSession → PublisherSession) → List ℕ → Publisher → Publisher
over operation [] p = p
over operation (id ∷ ids) p = over operation ids (on_session id operation p)

pub over-Alike :
    (operation : PublisherSession → PublisherSession) (ids : List ℕ) (p q : Publisher)
    → Alike p q
    → Alike (over operation ids p) (over operation ids q)
unfolding over
over-Alike operation [] p q a = a
over-Alike operation (id ∷ ids) p q a =
    over-Alike operation ids (on_session id operation p) (on_session id operation q)
      (on_session-Alike id operation p q a)
