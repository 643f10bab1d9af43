-- ===== src/Publisher/Accept.antt =====
-- Publisher: a connection is accepted, and the handler runs to its end.
use tcp_pubsub.PublisherSession
use tcp_pubsub.PublisherSession.{PublisherSession, canceled, is_canceled}
use tcp_pubsub.PublisherSession.Lifecycle
use tcp_pubsub.Base.{
  ◌==◌, if◌then◌else◌, get_elem?, remove_at, ℕ, suc, ◌<◌, ◌≡◌, refl, ap, ap₂, ◌∙◌, false, ◌||◌,
  some, List, [], ◌∷◌, ◌++◌, arith, Bool-cases, inl, inr, true,
}
use tcp_pubsub.Asio.{done}
use tcp_pubsub.Wire.Endian.{Host}
use tcp_pubsub.Publisher.{
  Publisher, new, update, accept_ends, accept_goes_on, run, accept_client, on_accept, add_session,
  step,
}
use tcp_pubsub.Publisher.Sessions.{on_session_open}
use tcp_pubsub.Publisher.Invariant.{IsFresh, Inv}
use tcp_pubsub.Base.Ids.{
  contains, contains-append, append-Distinct, contains-get, contains-remove_at, remove_at-Distinct,
}

fresh_is_up : is_canceled PublisherSession.new.state ≡ false
unfolding PublisherSession.new
fresh_is_up = refl

start_is_up : is_canceled (PublisherSession.start PublisherSession.new).state ≡ false
unfolding PublisherSession.new PublisherSession.start
start_is_up = refl

start_keeps_calls :
    (s : PublisherSession) → (PublisherSession.start s).closed_calls ≡ s.closed_calls
unfolding PublisherSession.start
start_keeps_calls s = ground arith

contains_one : (j id : ℕ) → contains j (id ∷ []) ≡ (id == j)
unfolding contains
contains_one j id = ground arith

-- The publisher behind the handler that accepted the session `id`.
abbrev pub joined : ℕ → ℕ → Publisher → Publisher
joined id i p = record p {
  session =
      update (update p.session id (PublisherSession.start PublisherSession.new)) p.next_id
        PublisherSession.new;
  accepting = remove_at p.accepting i ++ p.next_id ∷ [];
  next_id = suc p.next_id;
  publisher_sessions = p.publisher_sessions ++ id ∷ [];
}

module _ (p : Publisher) (v : Inv p) (id i : ℕ) (here : get_elem? p.accepting i ≡ some id) where
  waits : (id < p.next_id) × (contains id p.publisher_sessions ≡ false) × IsFresh (p.session id)
  waits = v.accepting_fresh id (contains-get p.accepting i here)

  in_list :
      (j : ℕ)
      → contains j (p.publisher_sessions ++ id ∷ []) ≡ contains j p.publisher_sessions || (id == j)
  in_list j =
      contains-append j p.publisher_sessions (id ∷ [])
      ∙ ap (◌||◌ (contains j p.publisher_sessions)) (contains_one j id)

  in_accepting :
      (j : ℕ)
      → contains j (remove_at p.accepting i ++ p.next_id ∷ [])
        ≡ (if id == j then false else contains j p.accepting) || (p.next_id == j)
  in_accepting j =
      contains-append j (remove_at p.accepting i) (p.next_id ∷ [])
      ∙ ap₂ ◌||◌ (contains-remove_at p.accepting i j v.accepting_distinct here)
          (contains_one j p.next_id)

  not_waiting : contains p.next_id (remove_at p.accepting i) ≡ false
  not_waiting = ground (
    arith,
    contains-remove_at p.accepting i p.next_id v.accepting_distinct here,
    v.accepting_fresh p.next_id,
  )

  joined_listed :
      (j : ℕ)
      → contains j (p.publisher_sessions ++ id ∷ []) ≡ true
      → Lifecycle.Inv ((joined id i p).session j)
        × (is_canceled ((joined id i p).session j).state ≡ false)
  unfolding update
  joined_listed j m = elim (Bool-cases (j == p.next_id)) [
    | inl next ↦ absurd (ground (arith, in_list j, v.known j, waits))
    | inr known ↦ elim (Bool-cases (j == id)) [
      | inl new ↦ rw (known, new) (Lifecycle.start-Inv, start_is_up)
      | inr old ↦ rw (known, old) (v.listed j (ground (arith, in_list j)))
    ]
  ]

  pub joined-Inv : Inv (joined id i p)
  unfolding update
  joined-Inv = record {
    distinct = append-Distinct p.publisher_sessions id v.distinct waits.1;
    listed = joined_listed;
    unlisted = λ j m. ground (arith, in_list j, v.unlisted j);
    known = λ j m. ground (arith, in_list j, v.known j, waits);
    unused = λ j m. ground (arith, v.unused j, waits);
    accepting_distinct =
        append-Distinct (remove_at p.accepting i) p.next_id
          (remove_at-Distinct p.accepting i v.accepting_distinct) not_waiting;
    accepting_fresh =
        λ j m. ground (arith, in_list j, in_accepting j, v.accepting_fresh j, v.known j, waits);
    none_accepted = v.none_accepted;
    none_missing = v.none_missing;
  }

  first_half :
      (h : Host) (bytes : List ℕ)
      → step h (accept_ends i (done bytes)) p ≡ record p {
        session = update p.session id (PublisherSession.start PublisherSession.new);
        accepting = remove_at p.accepting i;
        accepted = id ∷ [];
      }
  unfolding step on_accept
  first_half h bytes =
      let q : Publisher = record p {
        accepting = remove_at p.accepting i;
        accepted = p.accepted ++ id ∷ [];
      } in
      rw (
        here,
        step,
        on_session_open id PublisherSession.start q (start_keeps_calls (p.session id)),
        waits.2,
        v.none_accepted,
      )

  -- The two steps of the handler have that result.
  pub joined-eq :
      (h : Host) (bytes : List ℕ)
      → run h (accept_ends i (done bytes) ∷ accept_goes_on 0 ∷ []) p ≡ joined id i p
  unfolding run
  joined-eq h bytes =
      rw (first_half h bytes, run)
        (unfold step add_session accept_client in ground (arith, v.none_accepted))
