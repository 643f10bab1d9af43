-- ===== src/PublisherSession/SendQueue.antt =====
-- PublisherSession: the one-element send queue of sendDataBuffer and sendBufferToClient.
-- A running session whose handshake response has been written: as many writes are in flight as
-- sending_in_progress_ says, and no buffer waits unless one is being sent.
use tcp_pubsub.Base.{
  Bool-cases, Option-cases, length, get_elem?, remove_at, length-append, remove_at_only, ℕ, ◌≡◌,
  refl, ◌⊎◌, inl, inr, true, false, Option, none, some, List, [], ◌∷◌, ◌++◌, map, append-nil, arith,
}
use tcp_pubsub.Asio.{Completion, failed, done}
use tcp_pubsub.Wire.Endian.{Host}
use tcp_pubsub.PublisherSession.{
  Buffer, running, canceled, PublisherSession, session_closed_handler, cancel,
  send_buffer_to_client, send_data_buffer, on_written, Event, send_call, cancel_call, read_ends,
  write_ends, step, run,
}
use tcp_pubsub.PublisherSession.Lifecycle.{count}

pub record Settled (s : PublisherSession) : Type 0 where
  pub is_up : s.state ≡ running
  pub no_reads : s.reads ≡ []
  pub one_write : length s.writes ≡ count s.sending_in_progress
  pub idle_empty : s.sending_in_progress ≡ false → s.next_buffer_to_send ≡ none

-- Sends of several buffers in a row.
abbrev pub sends : List Buffer → List Event
sends = map send_call

abbrev pub write_succeeds : Event
write_succeeds = write_ends 0 (done [])

pub busy-send :
    (h : Host) (b : Buffer) (s : PublisherSession)
    → s.state ≡ running
    → s.sending_in_progress ≡ true
    → step h (send_call b) s ≡ record s { next_buffer_to_send = some b }
unfolding step send_data_buffer
busy-send h b s up busy = ground arith

-- While a write is in flight every further buffer replaces the one that waits.
busy-sends :
    (h : Host) (bs : List Buffer) (b : Buffer) (s : PublisherSession)
    → s.state ≡ running
    → s.sending_in_progress ≡ true
    → run h (sends (bs ++ b ∷ [])) s ≡ record s { next_buffer_to_send = some b }
unfolding run
busy-sends h [] b s up busy = busy-send h b s up busy
busy-sends h (x ∷ bs) b s up busy = rw (busy-send h x s up busy, run) (busy-sends h bs b _ up busy)

-- The buffers handed to the socket, and then the one that waits.
abbrev pub waiting : Option Buffer → List Buffer
waiting none = []
waiting (some b) = b ∷ []

abbrev pub history : PublisherSession → List Buffer
history s = s.sent ++ waiting s.next_buffer_to_send

-- One burst, then the end of the write in flight: of the burst only the last buffer is sent.
burst_sends_last :
    (h : Host) (bs : List Buffer) (b w : Buffer) (s : PublisherSession)
    → s.state ≡ running
    → s.sending_in_progress ≡ true
    → s.writes ≡ w ∷ []
    → run h (write_succeeds ∷ []) (run h (sends (bs ++ b ∷ [])) s)
      ≡ record s { writes = b ∷ []; sent = s.sent ++ b ∷ []; next_buffer_to_send = none }
unfolding run step on_written send_buffer_to_client
burst_sends_last h bs b w s up busy one = rw (busy-sends h bs b s up busy, run) (ground arith)

abbrev pub Live : PublisherSession → Type 0
Live s = Settled s ⊎ (s.state ≡ canceled)

send-Settled : (b : Buffer) (s : PublisherSession) → Settled s → Settled (send_data_buffer b s)
unfolding send_data_buffer
send-Settled b s v = elim (Bool-cases s.sending_in_progress) [
  | inl busy ↦ ground arith
  | inr idle ↦ ground (arith, length-append s.writes (b ∷ []))
]

written-Settled :
    (bytes : List ℕ) (next : Option Buffer) (s : PublisherSession)
    → s.next_buffer_to_send ≡ next
    → Settled s
    → s.sending_in_progress ≡ true
    → Settled (on_written (done bytes) (record s { writes = [] }))
unfolding on_written
written-Settled bytes none s e v busy = ground arith
written-Settled bytes (some b) s e v busy = ground arith

close_is_canceled : (s : PublisherSession) → (session_closed_handler s).state ≡ canceled
unfolding session_closed_handler
close_is_canceled s = ground arith

written-Live :
    (i : ℕ) (c : Completion) (s : PublisherSession) (b : Buffer)
    → Settled s
    → get_elem? s.writes i ≡ some b
    → Live (on_written c (record s { writes = remove_at s.writes i }))
written-Live i failed s b v e = inr (unfold on_written in close_is_canceled _)
written-Live i (done bytes) s b v e =
    let only = remove_at_only s.writes i (ground arith) e in
    rw only.1 (inl (written-Settled bytes s.next_buffer_to_send s refl v (ground arith)))

pub step-Live : (h : Host) (e : Event) (s : PublisherSession) → Settled s → Live (step h e s)
unfolding step cancel
step-Live h (send_call b) s v = inl (send-Settled b s v)
step-Live h cancel_call s v = inr (close_is_canceled s)
step-Live h (read_ends i c) s v = inl (ground arith)
step-Live h (write_ends i c) s v = elim (Option-cases (get_elem? s.writes i)) [
  | inl gone ↦ inl (rw (gone, step) v)
  | inr (b, e) ↦ rw (e, step) (written-Live i c s b v e)
]

drain_busy :
    (h : Host) (next : Option Buffer) (w : Buffer) (s : PublisherSession)
    → s.next_buffer_to_send ≡ next
    → Settled s
    → s.writes ≡ w ∷ []
    → s.sending_in_progress ≡ true
    → let t = run h (write_succeeds ∷ write_succeeds ∷ []) s in
      (t.sent ≡ history s) × (t.writes ≡ []) × (t.sending_in_progress ≡ false)
unfolding run step on_written
drain_busy h none w s e v one busy = ground (arith, append-nil s.sent)
drain_busy h (some b) w s e v one busy = ground arith

-- When the writes that are owed succeed, a settled session has handed the waiting buffer to
-- the socket after all that it had sent, and is idle.
Settled-drains :
    (h : Host) (ws : List Buffer) (s : PublisherSession)
    → Settled s
    → s.writes ≡ ws
    → let t = run h (write_succeeds ∷ write_succeeds ∷ []) s in
      (t.sent ≡ history s) × (t.writes ≡ []) × (t.sending_in_progress ≡ false)
unfolding run step
Settled-drains h [] s v one = ground (arith, append-nil s.sent)
Settled-drains h (w ∷ []) s v one = drain_busy h s.next_buffer_to_send w s refl v one (ground arith)
Settled-drains h (w ∷ x ∷ ws) s v one = absurd (ground arith)
