-- ===== src/PublisherSession/Interrupted/Bounds.antt =====
-- PublisherSession: what holds between any two events of a started session, with the end of its
-- handshake in steps of single accesses.
use tcp_pubsub.PublisherSession
use tcp_pubsub.Base.{
  length, get_elem?, remove_at, remove_at_only, length-append, ℕ, ◌+◌, ◌≤◌, ◌<◌, ◌≡◌, ◌⊎◌, Bool,
  true, false, not, ◌||◌, none, some, List, [], ◌∷◌, arith, Option-cases, length-remove_at, suc,
  refl, inl, inr, Option,
}
use tcp_pubsub.PublisherSession.{
  Buffer, State, handshaking, running, canceled, is_canceled, is_running, is_handshaking, Read,
  header_length, header_content, discard, payload, PublisherSession, session_closed_handler, start,
  send_buffer_to_client, send_data_buffer, on_read, send_call, cancel_call, read_ends, write_ends,
  on_written,
}
use tcp_pubsub.PublisherSession.Lifecycle.{count}
use tcp_pubsub.Asio.{Completion, failed, done}
use tcp_pubsub.Wire.Endian.{Host}
use tcp_pubsub.PublisherSession.Interrupted.{
  Stage, idle, before_exchange, exchanged, Interrupted, begin_answer, go_on, answers, read_handler,
  Event, session_event, handshake_goes_on, step, run, started,
}

-- How often the closed handler has run, and in which states the session can be.
abbrev Closed : Stage → State → ℕ → Type 0
Closed idle st n =
    (((st ≡ handshaking) ⊎ (st ≡ running)) × (n ≡ 0)) ⊎ ((st ≡ canceled) × (0 < n) × (n ≤ 2))
Closed before_exchange st n = ((st ≡ handshaking) ⊎ (st ≡ canceled)) × (n ≡ count (is_canceled st))
Closed (exchanged old) st n =
    ((old ≡ handshaking) ⊎ (old ≡ canceled))
    × ((st ≡ running) ⊎ (st ≡ canceled))
    × (n ≡ count (is_canceled old) + count (is_canceled st))

abbrev over : Stage → State → Bool
over idle st = is_canceled st
over before_exchange st = is_canceled st
over (exchanged old) st = is_canceled old || is_canceled st

abbrev reading : Stage → State → Bool
reading idle st = not (is_running st)
reading before_exchange st = false
reading (exchanged old) st = false

abbrev unanswered : Stage → State → Bool
unanswered idle st = is_handshaking st
unanswered before_exchange st = false
unanswered (exchanged old) st = false

pub record InvAt (p : Stage) (s : PublisherSession) : Type 0 where
  pub closed : Closed p s.state s.closed_calls
  pub socket : s.socket_open ≡ not (over p s.state)
  pub one_read : length s.reads ≤ 1
  pub none_read : reading p s.state ≡ false → s.reads ≡ []
  pub nothing_sent :
      unanswered p s.state ≡ true
      → (s.writes ≡ []) × (s.sent ≡ []) × (s.sending_in_progress ≡ false)
  pub few_writes : length s.writes ≤ 1 + count s.sending_in_progress

close-InvAt :
    (p : Stage) (s : PublisherSession)
    → InvAt p s
    → InvAt p (PublisherSession.session_closed_handler s)
unfolding PublisherSession.session_closed_handler
close-InvAt idle s v = ground arith
close-InvAt before_exchange s v = ground arith
close-InvAt (exchanged old) s v = ground arith

send-InvAt :
    (p : Stage) (b : Buffer) (s : PublisherSession)
    → InvAt p s
    → InvAt p (PublisherSession.send_data_buffer b s)
unfolding PublisherSession.send_data_buffer
send-InvAt idle b s v = ground (arith, length-append s.writes (b ∷ []))
send-InvAt before_exchange b s v = ground (arith, length-append s.writes (b ∷ []))
send-InvAt (exchanged old) b s v = ground (arith, length-append s.writes (b ∷ []))

go_on-InvAt :
    (p : Stage) (s : PublisherSession) → InvAt p s → InvAt (go_on p s).stage (go_on p s).session
unfolding go_on
go_on-InvAt idle s v = v
go_on-InvAt before_exchange s v = ground arith
go_on-InvAt (exchanged old) s v = ground arith

written-InvAt :
    (p : Stage) (c : Completion) (next : Option Buffer) (s : PublisherSession)
    → s.next_buffer_to_send ≡ next
    → InvAt p s
    → suc (length s.writes) ≤ 1 + count s.sending_in_progress
    → unanswered p s.state ≡ false
    → InvAt p (PublisherSession.on_written c s)
unfolding PublisherSession.on_written PublisherSession.session_closed_handler
written-InvAt p failed next s e v w a = close-InvAt p s v
written-InvAt idle (done b) none s e v w a = ground arith
written-InvAt before_exchange (done b) none s e v w a = ground arith
written-InvAt (exchanged old) (done b) none s e v w a = ground arith
written-InvAt idle (done b) (some n) s e v w a = ground (arith, length-append s.writes (n ∷ []))
written-InvAt before_exchange (done b) (some n) s e v w a =
    ground (arith, length-append s.writes (n ∷ []))
written-InvAt (exchanged old) (done b) (some n) s e v w a =
    ground (arith, length-append s.writes (n ∷ []))

-- A session whose handshake is not answered has no write that could end.
answered :
    (p : Stage) (i : ℕ) (b : Buffer) (s : PublisherSession)
    → InvAt p s
    → get_elem? s.writes i ≡ some b
    → unanswered p s.state ≡ false
answered idle i b s v e = ground (arith, length-remove_at s.writes i e)
answered before_exchange i b s v e = refl
answered (exchanged old) i b s v e = refl

remove_write-InvAt :
    (p : Stage) (i : ℕ) (s : PublisherSession)
    → InvAt p s
    → unanswered p s.state ≡ false
    → length (remove_at s.writes i) ≤ length s.writes
    → InvAt p (record s { writes = remove_at s.writes i })
remove_write-InvAt p i s v a shorter = record {
  closed = v.closed;
  socket = v.socket;
  one_read = v.one_read;
  none_read = v.none_read;
  nothing_sent = λ u. cc;
  few_writes = omega (arith, shorter, v.few_writes);
}

write_ends-InvAt :
    (h : Host) (p : Stage) (i : ℕ) (c : Completion) (s : PublisherSession)
    → InvAt p s
    → InvAt p (PublisherSession.step h (write_ends i c) s)
unfolding PublisherSession.step
write_ends-InvAt h p i c s v = elim (Option-cases (get_elem? s.writes i)) [
  | inl gone ↦ rw (gone, PublisherSession.step) v
  | inr (b, e) ↦
      let x : PublisherSession = record s { writes = remove_at s.writes i } in
      let shorter = length-remove_at s.writes i e in
      let a = answered p i b s v e in
      rw (e, PublisherSession.step)
        (written-InvAt p c s.next_buffer_to_send x refl
          (remove_write-InvAt p i s v a (omega (arith, shorter)))
          (omega (arith, shorter, v.few_writes)) a)
]

-- A handler of a read runs when no other is in flight, and never while the answer is under way.
read-InvAt :
    (h : Host) (r : Read) (c : Completion) (s : PublisherSession)
    → InvAt idle s
    → s.reads ≡ []
    → is_running s.state ≡ false
    → InvAt (read_handler h r c idle s).stage (read_handler h r c idle s).session
unfolding read_handler answers begin_answer PublisherSession.on_read
read-InvAt h (header_length m) failed s v e n = close-InvAt idle s v
read-InvAt h (header_length m) (done b) s v e n = ground arith
read-InvAt h (header_content m k d) failed s v e n = close-InvAt idle s v
read-InvAt h (header_content m k d) (done b) s v e n = ground arith
read-InvAt h (discard m k) failed s v e n = close-InvAt idle s v
read-InvAt h (discard m k) (done b) s v e n = ground arith
read-InvAt h (payload m k) failed s v e n = close-InvAt idle s v
read-InvAt h (payload m k) (done b) s v e n = ground arith

reading_ends-InvAt :
    (h : Host) (i : ℕ) (c : Completion) (p : Stage) (s : PublisherSession) (r : Read)
    → InvAt p s
    → get_elem? s.reads i ≡ some r
    → let t = read_handler h r c p (record s { reads = remove_at s.reads i }) in
      InvAt t.stage t.session
reading_ends-InvAt h i c idle s r v e =
    read-InvAt h r c (record s { reads = remove_at s.reads i })
      (ground (arith, remove_at_only s.reads i v.one_read e))
      (remove_at_only s.reads i v.one_read e).1
      (ground (arith, remove_at_only s.reads i v.one_read e))
reading_ends-InvAt h i c before_exchange s r v e = ground (arith, length-remove_at s.reads i e)
reading_ends-InvAt h i c (exchanged old) s r v e = ground (arith, length-remove_at s.reads i e)

step-InvAt :
    (h : Host) (e : Event) (t : Interrupted)
    → InvAt t.stage t.session
    → InvAt (step h e t).stage (step h e t).session
unfolding step PublisherSession.step PublisherSession.cancel
step-InvAt h (session_event (read_ends i c)) t v =
    elim (Option-cases (get_elem? t.session.reads i)) [
      | inl gone ↦ rw (gone, step) v
      | inr (r, e) ↦ rw (e, step) (reading_ends-InvAt h i c t.stage t.session r v e)
    ]
step-InvAt h (session_event (write_ends i c)) t v = write_ends-InvAt h t.stage i c t.session v
step-InvAt h (session_event (send_call b)) t v = send-InvAt t.stage b t.session v
step-InvAt h (session_event cancel_call) t v = close-InvAt t.stage t.session v
step-InvAt h handshake_goes_on t v = go_on-InvAt t.stage t.session v

run-InvAt :
    (h : Host) (es : List Event) (t : Interrupted)
    → InvAt t.stage t.session
    → InvAt (run h es t).stage (run h es t).session
unfolding run
run-InvAt h [] t v = v
run-InvAt h (e ∷ es) t v = run-InvAt h es (step h e t) (step-InvAt h e t v)

started-InvAt : InvAt idle started.session
unfolding started start PublisherSession.new
started-InvAt = ground arith

-- From start(), through any events, with calls and ends of writes between any two of the steps of
-- sendProtocolHandshakeResponse: while that is not under way, the session is Handshaking or Running
-- and has not run its closed handler, or is Canceled and has run it once or twice; in front of the
-- exchange it has run it once if it is Canceled, and behind it once for each of the two states, the
-- old and the new, that is Canceled. The socket is open until the first time. At most one read is in
-- flight, and none while the answer is under way or the session runs; before that nothing is sent;
-- and at most one write is in flight beside the one that sending_in_progress_ stands for.
pub run-started-InvAt :
    (h : Host) (es : List Event) → let t = run h es started in InvAt t.stage t.session
unfolding started
run-started-InvAt h es = run-InvAt h es started started-InvAt
