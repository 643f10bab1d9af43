-- ===== src/Publisher/Alike/Commute.antt =====
-- Publisher_Impl: one operation on two sessions, in either order.
use mathlib.Core.Path.{fun_ext}
use tcp_pubsub.Base.{
  ◌==◌, ==→≡, Bool-cases, ℕ, zero, suc, ◌-◌, ◌≡◌, refl, ap, ◌∙◌, inl, inr, false, arith, sym, List,
}
use tcp_pubsub.Base.Ids.Order.{contains-erase-ne, erase_comm}
use tcp_pubsub.Publisher.{Publisher, update, publisher_session_closed_handler, notify, on_session}
use tcp_pubsub.PublisherSession.{PublisherSession}
use tcp_pubsub.Publisher.Alike.{over, Permᴰ}

-- The closed handlers of two sessions can run in either order.
closed_comm :
    (i j : ℕ) (p : Publisher)
    → publisher_session_closed_handler i (publisher_session_closed_handler j p)
      ≡ publisher_session_closed_handler j (publisher_session_closed_handler i p)
unfolding publisher_session_closed_handler
closed_comm i j p = elim (Bool-cases (i == j)) [
  | inl t ↦ rw (==→≡ i j t) refl
  | inr t ↦ ground (
    arith,
    t,
    contains-erase-ne i j p.publisher_sessions,
    contains-erase-ne j i p.publisher_sessions,
    erase_comm i j p.publisher_sessions,
  )
]

closed-notify :
    (n i j : ℕ) (p : Publisher)
    → publisher_session_closed_handler i (notify n j p)
      ≡ notify n j (publisher_session_closed_handler i p)
unfolding notify
closed-notify zero i j p = refl
closed-notify (suc n) i j p =
    closed_comm i j (notify n j p) ∙ ap (publisher_session_closed_handler j) (closed-notify n i j p)

notify_comm : (m n i j : ℕ) (p : Publisher) → notify m i (notify n j p) ≡ notify n j (notify m i p)
unfolding notify
notify_comm zero n i j p = refl
notify_comm (suc m) n i j p =
    ap (publisher_session_closed_handler i) (notify_comm m n i j p)
    ∙ closed-notify n i j (notify m i p)

-- The closed handler does not look at the session objects.
notify-session :
    (n id : ℕ) (objects : ℕ → PublisherSession) (p : Publisher)
    → notify n id (record p { session = objects }) ≡ record (notify n id p) { session = objects }
unfolding notify publisher_session_closed_handler
notify-session zero id objects p = refl
notify-session (suc n) id objects p = ground (arith, notify-session n id objects p)

-- How often an operation on a session calls the closed handler.
abbrev closes : (PublisherSession → PublisherSession) → ℕ → Publisher → ℕ
closes operation id p = (operation (p.session id)).closed_calls - (p.session id).closed_calls

on_session_twice :
    (i j : ℕ) (operation : PublisherSession → PublisherSession) (p : Publisher)
    → i == j ≡ false
    → on_session i operation (on_session j operation p)
      ≡ notify (closes operation i p) i (
          notify (closes operation j p) j (record p {
            session =
                update (update p.session j (operation (p.session j))) i (operation (p.session i));
          }))
unfolding on_session update
on_session_twice i j operation p n =
    let calls = closes operation j p in
    let first = update p.session j (operation (p.session j)) in
    let both = update first i (operation (p.session i)) in
    rw (notify-session calls j first p, notify-session calls j both p, n) refl

update_comm :
    (i j : ℕ) (a b : PublisherSession) (objects : ℕ → PublisherSession)
    → i == j ≡ false
    → update (update objects j b) i a ≡ update (update objects i a) j b
unfolding update
update_comm i j a b objects n = fun_ext (λ k. ground (arith, n))

-- One operation on two sessions has the same effect in either order.
pub on_session_comm :
    (i j : ℕ) (operation : PublisherSession → PublisherSession) (p : Publisher)
    → on_session i operation (on_session j operation p)
      ≡ on_session j operation (on_session i operation p)
on_session_comm i j operation p = elim (Bool-cases (i == j)) [
  | inl t ↦ rw (==→≡ i j t) refl
  | inr n ↦
      let m : j == i ≡ false = ground (arith, n) in
      let a = operation (p.session i) in
      let b = operation (p.session j) in
      rw
        (
          on_session_twice i j operation p n,
          on_session_twice j i operation p m,
          sym (update_comm i j a b p.session n),
        )
        (notify_comm (closes operation i p) (closes operation j p) i j
          (record p { session = update (update p.session j b) i a }))
]

-- A loop over the sessions has the same effect for any order of its list.
pub over-Permᴰ :
    (operation : PublisherSession → PublisherSession) {xs ys : List ℕ} (p : Publisher)
    → Permᴰ xs ys
    → over operation xs p ≡ over operation ys p
unfolding over
over-Permᴰ operation p Permᴰ.nil = refl
over-Permᴰ operation p (Permᴰ.cons {a} {b} e h) =
    rw (sym e) (over-Permᴰ operation (on_session a operation p) h)
over-Permᴰ operation p (Permᴰ.swap {a} {b} {l = l} e f) =
    rw (sym e, sym f) (ap (over operation l) (on_session_comm b a operation p))
over-Permᴰ operation p (Permᴰ.trans g h) = over-Permᴰ operation p g ∙ over-Permᴰ operation p h
