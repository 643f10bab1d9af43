-- ===== src/Publisher/Invariant.antt =====
-- Publisher: what holds as long as each accept handler runs to its end before anything else does.
use tcp_pubsub.PublisherSession
use tcp_pubsub.PublisherSession.{PublisherSession, not_started, canceled, is_canceled}
use tcp_pubsub.PublisherSession.Lifecycle
use tcp_pubsub.Base.{
  ℕ, ◌≤◌, ◌<◌, ◌≡◌, ◌⊎◌, true, false, not, [], ◌==◌, if◌then◌else◌, Bool-cases, inl, inr, ◌&&◌,
  List, arith, sym, ap, ◌∙◌, Bool,
}
use tcp_pubsub.Publisher.{Publisher, update, new, publisher_session_closed_handler, on_session}
use tcp_pubsub.Publisher.Sessions.{on_session_open, on_session_closing}
use tcp_pubsub.Base.Ids.{contains, erase, Distinct, contains-erase, erase-Distinct}

-- A session object that nobody has started, and that no handler belongs to.
abbrev pub IsFresh : PublisherSession → Type 0
IsFresh s = s ≡ PublisherSession.new

pub record Inv (p : Publisher) : Type 0 where
  pub distinct : Distinct p.publisher_sessions
  -- a listed session is started and not closed
  pub listed :
      (id : ℕ)
      → contains id p.publisher_sessions ≡ true
      → Lifecycle.Inv (p.session id) × (is_canceled (p.session id).state ≡ false)
  -- any other session is not started, or closed
  pub unlisted :
      (id : ℕ)
      → contains id p.publisher_sessions ≡ false
      → IsFresh (p.session id) ⊎ ((p.session id).state ≡ canceled)
  pub known : (id : ℕ) → contains id p.publisher_sessions ≡ true → id < p.next_id
  pub unused : (id : ℕ) → p.next_id ≤ id → IsFresh (p.session id)
  pub accepting_distinct : Distinct p.accepting
  pub accepting_fresh :
      (id : ℕ)
      → contains id p.accepting ≡ true
      → (id < p.next_id) × (contains id p.publisher_sessions ≡ false) × IsFresh (p.session id)
  pub none_accepted : p.accepted ≡ []
  pub none_missing : p.missing ≡ 0

-- No part of the invariant looks at the two flags.
pub flags-Inv :
    (p : Publisher)
    → Inv p
    → (running opened : Bool) → Inv (record p { is_running = running; acceptor_open = opened })
flags-Inv p v running opened = record {
  distinct = v.distinct;
  listed = v.listed;
  unlisted = v.unlisted;
  known = v.known;
  unused = v.unused;
  accepting_distinct = v.accepting_distinct;
  accepting_fresh = v.accepting_fresh;
  none_accepted = v.none_accepted;
  none_missing = v.none_missing;
}

-- What an operation on a session may do: keep a started session in order, and do nothing to one
-- that is not started or is closed, but for taking finished operations off its lists.
pub record Gentle (operation : PublisherSession → PublisherSession) : Type 0 where
  pub started : (s : PublisherSession) → Lifecycle.Inv s → Lifecycle.Inv (operation s)
  pub fresh : operation PublisherSession.new ≡ PublisherSession.new
  pub closed :
      (s : PublisherSession)
      → s.state ≡ canceled
      → ((operation s).state ≡ canceled) × ((operation s).closed_calls ≡ s.closed_calls)

-- The publisher after the session `id` has become `t` and the list `xs`.
module _ (p : Publisher) (v : Inv p) (id : ℕ) (t : PublisherSession) (xs : List ℕ)
    (distinct : Distinct xs)
    (entries : (j : ℕ)
      → contains j xs ≡ (
          if id == j
          then contains id p.publisher_sessions && not (is_canceled t.state)
          else contains j p.publisher_sessions))
    (started : contains id p.publisher_sessions ≡ true → Lifecycle.Inv t)
    (idle : contains id p.publisher_sessions ≡ false
      → (IsFresh (p.session id) → IsFresh t)
        × ((p.session id).state ≡ canceled → t.state ≡ canceled)) where
  replaced_listed :
      (j : ℕ)
      → contains j xs ≡ true
      → Lifecycle.Inv (update p.session id t j)
        × (is_canceled (update p.session id t j).state ≡ false)
  unfolding update
  replaced_listed j m = elim (Bool-cases (j == id)) [
    | inl same ↦ rw same (ground (arith, entries j))
    | inr other ↦ rw other (v.listed j (ground (arith, entries j)))
  ]

  replaced_unlisted :
      (j : ℕ)
      → contains j xs ≡ false
      → IsFresh (update p.session id t j) ⊎ ((update p.session id t j).state ≡ canceled)
  unfolding update
  replaced_unlisted j m = ground (arith, entries j, v.unlisted j, v.unlisted id)

  replaced-Inv : Inv (record p { session = update p.session id t; publisher_sessions = xs })
  unfolding update
  replaced-Inv = record {
    distinct = distinct;
    listed = replaced_listed;
    unlisted = replaced_unlisted;
    known = λ j m. ground (arith, entries j, v.known j);
    unused = λ j m. ground (arith, v.unused j, v.known id, v.unused id);
    accepting_distinct = v.accepting_distinct;
    accepting_fresh = λ j m. ground (arith, entries j, v.accepting_fresh j);
    none_accepted = v.none_accepted;
    none_missing = v.none_missing;
  }

module _ (operation : PublisherSession → PublisherSession)
    (started : (s : PublisherSession) → Lifecycle.Inv s → Lifecycle.Inv (operation s))
    (p : Publisher) (v : Inv p) (id : ℕ) (mem : contains id p.publisher_sessions ≡ true) where
  closing-Inv :
      is_canceled (operation (p.session id)).state ≡ true → Inv (on_session id operation p)
  unfolding publisher_session_closed_handler
  closing-Inv gone =
      let s = p.session id in
      let t = operation s in
      let (ok, up) = v.listed id mem in
      let after = started s ok in
      rw
        (on_session_closing id operation p (ground (arith, ok.closed_once, after.closed_once)), mem)
        (replaced-Inv p v id t (erase id p.publisher_sessions)
          (erase-Distinct id p.publisher_sessions v.distinct)
          (λ j. ground (arith, contains-erase id j p.publisher_sessions v.distinct)) (λ _. after)
          (λ m. ground arith))

  staying-Inv :
      is_canceled (operation (p.session id)).state ≡ false → Inv (on_session id operation p)
  staying-Inv up_still =
      let s = p.session id in
      let t = operation s in
      let (ok, up) = v.listed id mem in
      let after = started s ok in
      rw (on_session_open id operation p (ground (arith, ok.closed_once, after.closed_once))) (
        replaced-Inv p v id t p.publisher_sessions v.distinct (λ j. ground arith) (λ _. after)
          (λ m. ground arith))

  -- An operation on a listed session that keeps it in order, by closing it or not.
  pub on_listed-Inv : Inv (on_session id operation p)
  on_listed-Inv = elim (Bool-cases (is_canceled (operation (p.session id)).state)) [
    | inl gone ↦ closing-Inv gone
    | inr up ↦ staying-Inv up
  ]

module _ (operation : PublisherSession → PublisherSession) (g : Gentle operation) (p : Publisher)
    (v : Inv p) (id : ℕ) where
  idle-Inv : contains id p.publisher_sessions ≡ false → Inv (on_session id operation p)
  idle-Inv out =
      let s = p.session id in
      let t = operation s in
      let same : t.closed_calls ≡ s.closed_calls = elim (v.unlisted id out) [
        | inl new ↦
            ap (λ (r : PublisherSession). r.closed_calls) (ap operation new ∙ g.fresh ∙ sym new)
        | inr gone ↦ (g.closed s gone).1
      ] in
      rw (on_session_open id operation p same) (
        replaced-Inv p v id t p.publisher_sessions v.distinct (λ j. ground arith)
          (λ m. ground arith) (λ m. ((λ e. ap operation e ∙ g.fresh), λ e. (g.closed s e).0)))

  -- Every such operation, on any session, keeps the list in order.
  pub on_session-Inv : Inv (on_session id operation p)
  on_session-Inv = elim (Bool-cases (contains id p.publisher_sessions)) [
    | inr out ↦ idle-Inv out
    | inl mem ↦ on_listed-Inv operation g.started p v id mem
  ]
