-- ===== src/PublisherSession/Examples.antt =====
-- The theorems on a publisher's session, at small inputs.
use tcp_pubsub.PublisherSession.Race
use tcp_pubsub.PublisherSession.Race.{
  Shared, Thread, closer, before_exchange, finished, closed_at_most_twice, race_closes_twice,
}
use tcp_pubsub.Base.{◌≤◌, ◌<◌, ◌≡◌, refl, ◌↔◌, inl, true, none, [], ◌∷◌, ◌++◌, arith, map}
use tcp_pubsub.Asio.{done}
use tcp_pubsub.Wire.Endian.{little_endian, big_endian}
use tcp_pubsub.Wire.Header.{handshake_buffer}
use tcp_pubsub.PublisherSession.{
  handshaking, running, canceled, PublisherSession, new, start, send_call, cancel_call, write_ends,
  step, run,
}
use tcp_pubsub.PublisherSession.Interrupted
use tcp_pubsub.PublisherSession.Interrupted.{session_event, handshake_goes_on, started}
use tcp_pubsub.PublisherSession.Interrupted.Bounds.{InvAt, run-started-InvAt}
use tcp_pubsub.PublisherSession.SendQueue.{Settled}
use tcp_pubsub.PublisherSession.Handshake.{message_arrives, first_message, handshake_overlap}
use tcp_pubsub.PublisherSession.Mailbox.{writing, act, run_mailbox, view, view-run}

-- A running session that sends one buffer.
abbrev sending : PublisherSession
sending = record {
  state = running;
  sending_in_progress = true;
  next_buffer_to_send = none;
  socket_open = true;
  reads = [];
  writes = (1 ∷ []) ∷ [];
  sent = (1 ∷ []) ∷ [];
  closed_calls = 0;
}

sending-Settled : Settled sending
sending-Settled = record { is_up = refl; no_reads = refl; one_write = refl; idle_empty = λ e. cc }

run-started-InvAt_example :
    let t =
      Interrupted.run little_endian
        (map session_event (message_arrives 1 1 (0 ∷ []))
          ++ session_event cancel_call
            ∷ handshake_goes_on
            ∷ session_event cancel_call
            ∷ handshake_goes_on
            ∷ [])
        started in
    InvAt t.stage t.session
run-started-InvAt_example = run-started-InvAt little_endian (
    map session_event (message_arrives 1 1 (0 ∷ []))
    ++ session_event cancel_call
      ∷ handshake_goes_on
      ∷ session_event cancel_call
      ∷ handshake_goes_on
      ∷ [])

first_message_example : run big_endian (message_arrives 1 1 (0 ∷ [])) (start new) ≡ record new {
  state = running;
  writes = handshake_buffer big_endian ∷ [];
  sent = handshake_buffer big_endian ∷ [];
}
first_message_example = first_message big_endian 1 1 (0 ∷ []) (omega arith) (omega arith)

abbrev at_handshake : Shared
at_handshake = record { pc = before_exchange; state = handshaking; closed_calls = 0 }

closed_at_most_twice_example :
    let t = Race.run (Thread.handshake ∷ closer ∷ []) at_handshake in
    (t.closed_calls ≤ 2) × (t.pc ≡ finished → (0 < t.closed_calls) ↔ (t.state ≡ canceled))
closed_at_most_twice_example =
    closed_at_most_twice (Thread.handshake ∷ closer ∷ []) at_handshake refl refl refl

race_closes_twice_example :
    let t = Race.run (closer ∷ Thread.handshake ∷ closer ∷ Thread.handshake ∷ []) at_handshake in
    (t.closed_calls ≡ 2) × (t.state ≡ canceled)
race_closes_twice_example = race_closes_twice at_handshake refl refl

handshake_overlap_example :
    let up = run little_endian (send_call (2 ∷ []) ∷ message_arrives 1 1 (0 ∷ [])) (start new) in
    let both = step little_endian (send_call (3 ∷ [])) up in
    (both.writes ≡ handshake_buffer little_endian ∷ (3 ∷ []) ∷ [])
    × ((run little_endian (write_ends 0 (done []) ∷ write_ends 0 (done []) ∷ []) both).sent
        ≡ handshake_buffer little_endian ∷ (3 ∷ []) ∷ (2 ∷ []) ∷ [])
handshake_overlap_example =
    handshake_overlap little_endian 1 (0 ∷ []) (2 ∷ []) (3 ∷ []) (omega arith) (omega arith)

view-run_example :
    let es = send_call (2 ∷ []) ∷ send_call (3 ∷ []) ∷ write_ends 0 (done []) ∷ [] in
    (view (run little_endian es sending) ≡ writing none)
    × ((run little_endian es sending).sent ≡ (1 ∷ []) ∷ (3 ∷ []) ∷ [])
unfolding run_mailbox act
view-run_example =
    view-run little_endian (send_call (2 ∷ []) ∷ send_call (3 ∷ []) ∷ write_ends 0 (done []) ∷ [])
      sending (inl sending-Settled)
