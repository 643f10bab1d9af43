-- ===== src/PublisherSession/Lifecycle.antt =====
-- PublisherSession: what holds between any two events of a started session, each handler and call
-- being one step (Interrupted has the end of the handshake in steps of single accesses).
use tcp_pubsub.Base.{
  ℕ, ◌+◌, ◌≤◌, ◌≡◌, [], ◌∷◌, Bool, true, false, not, if◌then◌else◌, length, length-append, arith,
  ◌≢◌, suc, List, Option, some, Option-cases, get_elem?, inl, inr, remove_at, remove_at_only,
  length-remove_at, none, refl,
}
use tcp_pubsub.Asio.{Completion, failed, done}
use tcp_pubsub.Wire.Endian.{Host}
use tcp_pubsub.PublisherSession.{
  PublisherSession, is_canceled, is_running, is_handshaking, Read, header_length, header_content,
  discard, payload, Buffer, new, start, session_closed_handler, send_data_buffer, on_read,
  on_written, not_started, step, read_ends, write_ends, cancel, Event, send_call, cancel_call,
}

abbrev pub count : Bool → ℕ
count b = if b then 1 else 0

pub record Inv (s : PublisherSession) : Type 0 where
  -- the closed handler runs when the session is canceled, and only then
  pub closed_once : s.closed_calls ≡ count (is_canceled s.state)
  pub started : s.state ≢ not_started
  pub socket_follows : s.socket_open ≡ not (is_canceled s.state)
  pub one_read : length s.reads ≤ 1
  pub running_reads : is_running s.state ≡ true → s.reads ≡ []
  pub handshake_quiet :
      is_handshaking s.state ≡ true
      → (s.writes ≡ []) × (s.sent ≡ []) × (s.sending_in_progress ≡ false)
  pub few_writes : length s.writes ≤ 1 + count s.sending_in_progress

pub start-Inv : Inv (start new)
unfolding start new
start-Inv = ground arith

pub session_closed_handler-Inv : (s : PublisherSession) → Inv s → Inv (session_closed_handler s)
unfolding session_closed_handler
session_closed_handler-Inv s v = ground arith

pub send_data_buffer-Inv : (b : Buffer) (s : PublisherSession) → Inv s → Inv (send_data_buffer b s)
unfolding send_data_buffer
send_data_buffer-Inv b s v = ground (arith, length-append s.writes (b ∷ []))

on_read-Inv :
    (h : Host) (r : Read) (c : Completion) (s : PublisherSession)
    → Inv s
    → s.reads ≡ []
    → is_running s.state ≡ false
    → Inv (on_read h r c s)
unfolding on_read
on_read-Inv h (header_length header) failed s v e n = session_closed_handler-Inv s v
on_read-Inv h (header_length header) (done bytes) s v e n = ground arith
on_read-Inv h (header_content header m d) failed s v e n = session_closed_handler-Inv s v
on_read-Inv h (header_content header m d) (done bytes) s v e n = ground arith
on_read-Inv h (discard header m) failed s v e n = session_closed_handler-Inv s v
on_read-Inv h (discard header m) (done bytes) s v e n = ground arith
on_read-Inv h (payload header m) failed s v e n = session_closed_handler-Inv s v
on_read-Inv h (payload header m) (done bytes) s v e n = ground arith

sent_next-Inv :
    (bytes : List ℕ) (next : Option Buffer) (s : PublisherSession)
    → s.next_buffer_to_send ≡ next
    → Inv s
    → suc (length s.writes) ≤ 1 + count s.sending_in_progress
    → is_handshaking s.state ≡ false
    → Inv (on_written (done bytes) s)
unfolding on_written
sent_next-Inv bytes none s e v w n = ground arith
sent_next-Inv bytes (some b) s e v w n = ground (arith, length-append s.writes (b ∷ []))

on_written-Inv :
    (c : Completion) (s : PublisherSession)
    → Inv s
    → suc (length s.writes) ≤ 1 + count s.sending_in_progress
    → is_handshaking s.state ≡ false
    → Inv (on_written c s)
unfolding on_written
on_written-Inv failed s v e n = session_closed_handler-Inv s v
on_written-Inv (done bytes) s v e n = sent_next-Inv bytes s.next_buffer_to_send s refl v e n

-- The read that ends was the only one, and a session that reads is not running.
read_ends-Inv :
    (h : Host) (i : ℕ) (c : Completion) (s : PublisherSession)
    → Inv s
    → Inv (step h (read_ends i c) s)
unfolding step
read_ends-Inv h i c s v = elim (Option-cases (get_elem? s.reads i)) [
  | inl gone ↦ rw (gone, step) v
  | inr (r, e) ↦
      rw (e, step)
        (on_read-Inv h r c (record s { reads = remove_at s.reads i })
          (ground (arith, remove_at_only s.reads i v.one_read e))
          (remove_at_only s.reads i v.one_read e).1
          (ground (arith, remove_at_only s.reads i v.one_read e)))
]

write_ends-Inv :
    (h : Host) (i : ℕ) (c : Completion) (s : PublisherSession)
    → Inv s
    → Inv (step h (write_ends i c) s)
unfolding step
write_ends-Inv h i c s v = elim (Option-cases (get_elem? s.writes i)) [
  | inl gone ↦ rw (gone, step) v
  | inr (b, e) ↦
      rw (e, step)
        (on_written-Inv c (record s { writes = remove_at s.writes i })
          (ground (arith, length-remove_at s.writes i e))
          (ground (arith, length-remove_at s.writes i e))
          (ground (arith, length-remove_at s.writes i e)))
]

pub step-Inv : (h : Host) (e : Event) (s : PublisherSession) → Inv s → Inv (step h e s)
unfolding step cancel
step-Inv h (send_call b) s v = send_data_buffer-Inv b s v
step-Inv h cancel_call s v = session_closed_handler-Inv s v
step-Inv h (read_ends i c) s v = read_ends-Inv h i c s v
step-Inv h (write_ends i c) s v = write_ends-Inv h i c s v
