-- ===== src/Connection/Accepting.antt =====
-- A Publisher_Impl accepts a connection, and the new session answers the subscriber's handshake
-- (publisher_impl.cpp, publisher_session.cpp).
use tcp_pubsub.PublisherSession
use tcp_pubsub.PublisherSession.{PublisherSession, canceled, running}
use tcp_pubsub.Publisher
use tcp_pubsub.Publisher.{Publisher}
use tcp_pubsub.Publisher.Serial.{
  SerialEvent, accepts, read_of, write_of, serial, run-append, serial-Inv,
}
use tcp_pubsub.Connection.{arrives_at_publisher, answers, subst}
use tcp_pubsub.Base.{
  ==_refl, get_elem?, take, drop, remove_at, ℕ, ◌≡◌, refl, ap, ap₂, ◌∙◌, true, some, List, [], ◌∷◌,
  ◌++◌, arith, sym, inl,
}
use tcp_pubsub.Base.Ids.{contains, contains-append, contains-get, contains-remove_at}
use tcp_pubsub.Publisher.Invariant.{Inv}
use tcp_pubsub.Publisher.Accept.{joined, joined-eq}
use tcp_pubsub.Publisher.Own.{own, Exists, on_session-Became}
use tcp_pubsub.Publisher.Own.Runs.{run-own}
use tcp_pubsub.Wire.Header.{sizeof_header, handshake_buffer}
use tcp_pubsub.Wire.Endian.{Host}
use tcp_pubsub.Asio.{done}
use tcp_pubsub.PublisherSession.SendQueue.{Settled, Live}
use tcp_pubsub.PublisherSession.Mailbox.{free, view}
use tcp_pubsub.Connection.Open.{Serves, still_listed}

-- The handshake request comes in three reads, and the answer is written.
abbrev pub handshake_of : ℕ → Host → List SerialEvent
handshake_of id subscriber =
    let request = handshake_buffer subscriber in
    read_of id 0 (done (take 2 request))
    ∷ read_of id 0 (done (drop 2 (take sizeof_header request)))
    ∷ read_of id 0 (done (drop sizeof_header request))
    ∷ write_of id 0 (done [])
    ∷ []

abbrev pub accepted_and_answered : ℕ → ℕ → Host → List SerialEvent
accepted_and_answered i id subscriber = accepts i (done []) ∷ handshake_of id subscriber

-- A session whose answer was written.
abbrev answered : Host → PublisherSession
answered h = record PublisherSession.new { state = running; sent = handshake_buffer h ∷ [] }

session_run-append :
    (h : Host) (xs ys : List PublisherSession.Event) (s : PublisherSession)
    → PublisherSession.run h (xs ++ ys) s ≡ PublisherSession.run h ys (PublisherSession.run h xs s)
unfolding PublisherSession.run
session_run-append h [] ys s = refl
session_run-append h (x ∷ xs) ys s = session_run-append h xs ys (PublisherSession.step h x s)

written_answer :
    (h : Host)
    → PublisherSession.run h
        (PublisherSession.write_ends 0 (done []) ∷ [])
        (record PublisherSession.new {
          state = running;
          writes = handshake_buffer h ∷ [];
          sent = handshake_buffer h ∷ [];
        })
      ≡ answered h
unfolding PublisherSession.run PublisherSession.step PublisherSession.on_written
    PublisherSession.new
written_answer h = refl

handshake_done :
    (h subscriber : Host)
    → PublisherSession.run h
        (arrives_at_publisher (handshake_buffer subscriber)
          ++ PublisherSession.write_ends 0 (done []) ∷ [])
        (PublisherSession.start PublisherSession.new)
      ≡ answered h
handshake_done h subscriber =
    session_run-append h (arrives_at_publisher (handshake_buffer subscriber)) _ _
    ∙ ap (PublisherSession.run h (PublisherSession.write_ends 0 (done []) ∷ []))
        (answers h subscriber)
    ∙ written_answer h

own_handshake :
    (h subscriber : Host) (id : ℕ) (p : Publisher)
    → own h id (serial (handshake_of id subscriber)) p
      ≡ arrives_at_publisher (handshake_buffer subscriber)
        ++ PublisherSession.write_ends 0 (done []) ∷ []
own_handshake h subscriber id p = rw (==_refl id) refl

handshake_keeps_running :
    (h subscriber : Host) (id : ℕ) (p : Publisher)
    → (Publisher.run h (serial (handshake_of id subscriber)) p).is_running ≡ p.is_running
unfolding Publisher.run Publisher.step
handshake_keeps_running h subscriber id p =
    let request = handshake_buffer subscriber in
    let one = PublisherSession.step h (PublisherSession.read_ends 0 (done (take 2 request))) in
    let two =
      PublisherSession.step h
        (PublisherSession.read_ends 0 (done (drop 2 (take sizeof_header request)))) in
    let three =
      PublisherSession.step h (PublisherSession.read_ends 0 (done (drop sizeof_header request))) in
    let four = PublisherSession.step h (PublisherSession.write_ends 0 (done [])) in
    let q = Publisher.on_session id one p in
    let r = Publisher.on_session id two q in
    let s = Publisher.on_session id three r in
    (on_session-Became id four id s).running
    ∙ (on_session-Became id three id r).running
    ∙ (on_session-Became id two id q).running
    ∙ (on_session-Became id one id p).running

module _ (h : Host) (p : Publisher) (v : Inv p) (on : p.is_running ≡ true) (i id : ℕ)
    (here : get_elem? p.accepting i ≡ some id) where
  new_session : (joined id i p).session id ≡ PublisherSession.start PublisherSession.new
  unfolding Publisher.update
  new_session =
      let (known, out, new) = v.accepting_fresh id (contains-get p.accepting i here) in
      ground (arith, known)

  joined-Exists : Exists id (joined id i p)
  unfolding contains
  joined-Exists =
      let (known, out, new) = v.accepting_fresh id (contains-get p.accepting i here) in
      record {
        known = omega (arith, known);
        not_accepting = ground (
          arith,
          known,
          contains-append id (remove_at p.accepting i) (p.next_id ∷ []),
          contains-remove_at p.accepting i id v.accepting_distinct here,
        );
      }

  module _ (subscriber : Host) where
    abbrev after : Publisher
    after = Publisher.run h (serial (accepted_and_answered i id subscriber)) p

    after-eq : after ≡ Publisher.run h (serial (handshake_of id subscriber)) (joined id i p)
    after-eq =
        run-append h (Publisher.accept_ends i (done []) ∷ Publisher.accept_goes_on 0 ∷ [])
          (serial (handshake_of id subscriber)) p
        ∙ ap (Publisher.run h (serial (handshake_of id subscriber))) (joined-eq p v id i here h [])

    after_session : after.session id ≡ answered h
    after_session =
        ap (λ (r : Publisher). r.session id) after-eq
        ∙ run-own h (serial (handshake_of id subscriber)) id (joined id i p) joined-Exists
        ∙ ap₂ (PublisherSession.run h) (own_handshake h subscriber id (joined id i p)) new_session
        ∙ handshake_done h subscriber

    -- The session is running, idle and listed, and its answer is what it has sent.
    pub accepted-Serves :
        Serves id after
        × (view (after.session id) ≡ free)
        × ((after.session id).sent ≡ handshake_buffer h ∷ [])
    unfolding PublisherSession.new
    accepted-Serves =
        let same = after_session in
        let settled : Settled (answered h) = record {
          is_up = refl;
          no_reads = refl;
          one_write = refl;
          idle_empty = λ e. refl;
        } in
        let live = subst Live (sym same) (inl settled) in
        let inv = serial-Inv h (accepted_and_answered i id subscriber) p v in
        let up : ¬ ((after.session id).state ≡ canceled) =
          λ gone. ground (arith, ap (λ (s : PublisherSession). s.state) same, gone) in
        (
          record {
            inv = inv;
            live = live;
            listed = still_listed id after inv live up;
            running =
                ap (λ (r : Publisher). r.is_running) after-eq
                ∙ handshake_keeps_running h subscriber id (joined id i p)
                ∙ on;
          },
          ap view same,
          ap (λ (s : PublisherSession). s.sent) same,
        )
