-- ===== src/Publisher/Delivery.antt =====
-- Publisher_Impl::send and cancel: what they do to the sessions, and what an accept handler that is
-- interrupted does to the list.
use tcp_pubsub.PublisherSession
use tcp_pubsub.PublisherSession.{PublisherSession, canceled, handshaking, is_canceled}
use tcp_pubsub.Base.{
  if◌then◌else◌, get_elem?, ℕ, suc, ◌<◌, ◌≡◌, refl, ◌∙◌, true, false, some, List, [], ◌∷◌, arith,
  ap, Bool, not, ◌++◌,
}
use tcp_pubsub.Asio.{failed, done}
use tcp_pubsub.Wire.Endian.{Host, store}
use tcp_pubsub.Publisher.{
  Publisher, update, cancel, send_to_sessions, send, cancel_call, accept_ends, accept_goes_on,
  session_read_ends, run, is_empty, step, publisher_session_closed_handler, on_session,
  accept_client, add_session, Event, read_ends,
}
use tcp_pubsub.Publisher.Message.{Payload, prepare_buffer}
use tcp_pubsub.Publisher.Sessions.{on_session_open, on_session_closing}
use tcp_pubsub.Publisher.Invariant.{Inv, flags-Inv}
use tcp_pubsub.Publisher.Accept.{joined-eq, joined}
use tcp_pubsub.Publisher.Calls.{send_keeps_calls}
use tcp_pubsub.Base.Ids.{contains, Distinct, contains-append, contains-get}

-- The session at the front of the list is not met again behind it.
sent_once :
    (op : PublisherSession → PublisherSession) (p : Publisher) (j id : ℕ) (ids : List ℕ)
    → Distinct (id ∷ ids)
    → (if contains j ids
        then op (update p.session id (op (p.session id)) j)
        else update p.session id (op (p.session id)) j)
      ≡ (if contains j (id ∷ ids) then op (p.session j) else p.session j)
unfolding contains update
sent_once op p j id ids d = ground arith

-- One buffer handed to each session of a list of distinct ones.
sent_to :
    (buffer : List ℕ) (ids : List ℕ) (p : Publisher) (j : ℕ)
    → Distinct ids
    → (send_to_sessions buffer ids p).session j ≡ (
        if contains j ids
        then PublisherSession.send_data_buffer buffer (p.session j)
        else p.session j)
unfolding send_to_sessions contains
sent_to buffer [] p j d = refl
sent_to buffer (id ∷ ids) p j d =
    let op = PublisherSession.send_data_buffer buffer in
    let same = on_session_open id op p (send_keeps_calls buffer (p.session id)) in
    ap (λ q. (send_to_sessions buffer ids q).session j) same
    ∙ sent_to buffer ids (record p { session = update p.session id (op (p.session id)) }) j d.1
    ∙ sent_once op p j id ids d

-- The ways through send of a running publisher.
way_out :
    (ids : List ℕ) (running : Bool) (p q : Publisher) (j : ℕ) (t : PublisherSession)
    → running ≡ true
    → q.session j ≡ (if contains j ids then t else p.session j)
    → let r =
        if◌then◌else◌ {A = Publisher × Bool}
          (not running)
          (p, false)
          (if is_empty ids then (p, true) else (q, true)) in
      (r.1 ≡ true) × (r.0.session j ≡ (if contains j ids then t else p.session j))
unfolding contains
way_out ids false p q j t on e = cc
way_out [] true p q j t on e = (refl, refl)
way_out (id ∷ ids) true p q j t on e = (refl, e)

-- A running publisher hands the same prepared buffer to every session in its list, once, and to no
-- other session, and send returns true.
send_reaches_listed :
    (h : Host) (stale : List ℕ) (ps : List Payload) (p : Publisher) (j : ℕ)
    → Distinct p.publisher_sessions
    → p.is_running ≡ true
    → ((send h stale ps p).1 ≡ true)
      × ((send h stale ps p).0.session j ≡ (
          if contains j p.publisher_sessions
          then PublisherSession.send_data_buffer (prepare_buffer h stale ps) (p.session j)
          else p.session j))
unfolding send
send_reaches_listed h stale ps p j d on =
    way_out p.publisher_sessions p.is_running p _ j _ on
      (sent_to (prepare_buffer h stale ps) p.publisher_sessions p j d)

cancel_unlisted :
    (p : Publisher)
    → p.publisher_sessions ≡ []
    → cancel p ≡ record p { acceptor_open = false; is_running = false }
unfolding cancel
cancel_unlisted p e = ground arith

late_eq :
    (h : Host) (bytes : List ℕ) (p : Publisher) (id : ℕ)
    → Inv p
    → p.publisher_sessions ≡ []
    → get_elem? p.accepting 0 ≡ some id
    → run h (cancel_call ∷ accept_ends 0 (done bytes) ∷ accept_goes_on 0 ∷ []) p
      ≡ joined id 0 (record p { acceptor_open = false; is_running = false })
late_eq h bytes p id v none_listed here =
    let off : Publisher = record p { acceptor_open = false; is_running = false } in
    let rest : List Event = accept_ends 0 (done bytes) ∷ accept_goes_on 0 ∷ [] in
    let stopped : step h cancel_call p ≡ off = unfold step in cancel_unlisted p none_listed in
    let first : run h (cancel_call ∷ rest) p ≡ run h rest (step h cancel_call p) =
      unfold run in refl in
    first ∙ ap (run h rest) stopped ∙ joined-eq off (flags-Inv p v false false) id 0 here h bytes

joined_session :
    (p : Publisher) (id : ℕ) → id < p.next_id → ((joined id 0 p).session id).state ≡ handshaking
unfolding update PublisherSession.start PublisherSession.new
joined_session p id known = ground arith

-- A connection that is accepted after cancel() is listed all the same.
pub accepted_after_cancel :
    (h : Host) (bytes : List ℕ) (p : Publisher) (id : ℕ)
    → Inv p
    → p.publisher_sessions ≡ []
    → get_elem? p.accepting 0 ≡ some id
    → let q = run h (cancel_call ∷ accept_ends 0 (done bytes) ∷ accept_goes_on 0 ∷ []) p in
      (q.is_running ≡ false)
      × (q.publisher_sessions ≡ id ∷ [])
      × ((q.session id).state ≡ handshaking)
accepted_after_cancel h bytes p id v none_listed here =
    rw (late_eq h bytes p id v none_listed here) (
      refl,
      ap (λ l. l ++ id ∷ []) none_listed,
      joined_session (record p { acceptor_open = false; is_running = false }) id
          (v.accepting_fresh id (contains-get p.accepting 0 here)).0,
    )

failed_start :
    (h : Host)
    → let s =
        PublisherSession.step h
          (read_ends 0 failed)
          (PublisherSession.start PublisherSession.new) in
      (s.state ≡ canceled)
      × (s.closed_calls ≡ suc (PublisherSession.start PublisherSession.new).closed_calls)
unfolding PublisherSession.step PublisherSession.start PublisherSession.new
failed_start h = (refl, refl)

contains_self : (id : ℕ) → contains id (id ∷ []) ≡ true
unfolding contains
contains_self id = ground arith

updated_self :
    (store : ℕ → PublisherSession) (id : ℕ) (s : PublisherSession) → update store id s id ≡ s
unfolding update
updated_self store id s = ground arith

entered :
    (h : Host) (p : Publisher) (id : ℕ)
    → p.accepted ≡ id ∷ []
    → id < p.next_id
    → (p.session id).state ≡ canceled
    → let q = step h (accept_goes_on 0) p in
      (contains id q.publisher_sessions ≡ true)
      × ((q.session id).state ≡ canceled)
      × (q.missing ≡ p.missing)
unfolding step add_session accept_client update
entered h p id one known dead =
    ground (arith, contains-append id p.publisher_sessions (id ∷ []), contains_self id)

closed_eq :
    (h : Host) (p : Publisher) (id : ℕ)
    → contains id p.publisher_sessions ≡ false
    → p.session id ≡ PublisherSession.start PublisherSession.new
    → step h (session_read_ends id 0 failed) p ≡ record p {
      session = update p.session id (PublisherSession.step h (read_ends 0 failed) (p.session id));
      missing = suc p.missing;
    }
unfolding publisher_session_closed_handler
closed_eq h p id out started =
    let op = PublisherSession.step h (read_ends 0 failed) in
    let closes : (op (p.session id)).closed_calls ≡ suc (p.session id).closed_calls =
      rw started (failed_start h).1 in
    let opened : step h (session_read_ends id 0 failed) p ≡ on_session id op p =
      unfold step in refl in
    opened ∙ on_session_closing id op p closes ∙ rw out

-- A session that fails between session->start() and the list is entered after it was closed.
pub closed_before_listed :
    (h : Host) (p : Publisher) (id : ℕ)
    → p.accepted ≡ id ∷ []
    → contains id p.publisher_sessions ≡ false
    → id < p.next_id
    → p.session id ≡ PublisherSession.start PublisherSession.new
    → let q = run h (session_read_ends id 0 failed ∷ accept_goes_on 0 ∷ []) p in
      (contains id q.publisher_sessions ≡ true)
      × ((q.session id).state ≡ canceled)
      × (q.missing ≡ suc p.missing)
closed_before_listed h p id one out known started =
    let s = PublisherSession.step h (read_ends 0 failed) (p.session id) in
    let dead : s.state ≡ canceled = rw started (failed_start h).0 in
    let mid : Publisher = record p { session = update p.session id s; missing = suc p.missing } in
    let first : run h (session_read_ends id 0 failed ∷ accept_goes_on 0 ∷ []) p
        ≡ step h (accept_goes_on 0) (step h (session_read_ends id 0 failed) p) =
      unfold run in refl in
    rw (first, closed_eq h p id out started)
      (entered h mid id one known (rw (updated_self p.session id s) dead))
