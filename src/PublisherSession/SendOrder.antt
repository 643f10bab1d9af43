-- ===== src/PublisherSession/SendOrder.antt =====
-- PublisherSession: the order in which buffers reach the socket.
use mathlib.Core.List.{Sublist, sublist-append_left}
use mathlib.Core.List.Sublist
use tcp_pubsub.Base.{
  Bool-cases, Option-cases, get_elem?, remove_at, ℕ, ◌≡◌, refl, inl, inr, false, Option, none, some,
  List, [], ◌∷◌, ◌++◌, append-nil, append_assoc, arith,
}
use tcp_pubsub.Asio.{Completion, failed, done}
use tcp_pubsub.Wire.Endian.{Host}
use tcp_pubsub.PublisherSession.{
  Buffer, PublisherSession, session_closed_handler, cancel, send_data_buffer, on_written, Event,
  send_call, cancel_call, read_ends, write_ends, step, run,
}
use tcp_pubsub.PublisherSession.SendQueue.{Settled, waiting, history, Live, busy-send, step-Live}
use tcp_pubsub.PublisherSession.Cancel.{step_canceled}

-- The buffers of the calls of sendDataBuffer.
abbrev pub submitted : List Event → List Buffer
submitted [] = []
submitted (send_call b ∷ es) = b ∷ submitted es
submitted (cancel_call ∷ es) = submitted es
submitted (read_ends i c ∷ es) = submitted es
submitted (write_ends i c ∷ es) = submitted es

submitted_cons :
    (e : Event) (es : List Event) → submitted (e ∷ es) ≡ submitted (e ∷ []) ++ submitted es
submitted_cons (send_call b) es = refl
submitted_cons cancel_call es = refl
submitted_cons (read_ends i c) es = refl
submitted_cons (write_ends i c) es = refl

history-close : (s : PublisherSession) → history (session_closed_handler s) ≡ history s
unfolding session_closed_handler
history-close s = ground arith

history-sent_next :
    (bytes : List ℕ) (next : Option Buffer) (s : PublisherSession)
    → s.next_buffer_to_send ≡ next
    → history (on_written (done bytes) s) ≡ history s
unfolding on_written
history-sent_next bytes none s e = ground arith
history-sent_next bytes (some b) s e = ground (arith, append-nil (s.sent ++ b ∷ []))

history-on_written : (c : Completion) (s : PublisherSession) → history (on_written c s) ≡ history s
history-on_written failed s = unfold on_written in history-close s
history-on_written (done bytes) s = history-sent_next bytes s.next_buffer_to_send s refl

history-write_ends :
    (h : Host) (i : ℕ) (c : Completion) (s : PublisherSession)
    → history (step h (write_ends i c) s) ≡ history s
unfolding step
history-write_ends h i c s = elim (Option-cases (get_elem? s.writes i)) [
  | inl gone ↦ rw (gone, step)
  | inr (b, e) ↦ rw (e, step) (history-on_written c (record s { writes = remove_at s.writes i }))
]

history-send_idle :
    (b : Buffer) (s : PublisherSession)
    → Settled s
    → s.sending_in_progress ≡ false
    → history (send_data_buffer b s) ≡ history s ++ b ∷ []
unfolding send_data_buffer
history-send_idle b s v idle = ground (arith, append-nil (s.sent ++ b ∷ []), append-nil s.sent)

step-history :
    (h : Host) (e : Event) (s : PublisherSession)
    → Settled s
    → Sublist (history (step h e s)) (history s ++ submitted (e ∷ []))
unfolding step cancel
step-history h (send_call b) s v = elim (Bool-cases s.sending_in_progress) [
  | inl busy ↦ rw (busy-send h b s v.is_up busy) (
      Sublist.append (sublist-append_left s.sent (waiting s.next_buffer_to_send))
        (Sublist.refl (b ∷ [])))
  | inr idle ↦ rw (history-send_idle b s v idle) (Sublist.refl _)
]
step-history h cancel_call s v = rw (history-close s) (sublist-append_left _ _)
step-history h (read_ends i c) s v = rw (v.no_reads, step) (sublist-append_left _ _)
step-history h (write_ends i c) s v = rw (history-write_ends h i c s) (sublist-append_left _ _)

Live-history :
    (h : Host) (e : Event) (s : PublisherSession)
    → Live s
    → Live (step h e s) × Sublist (history (step h e s)) (history s ++ submitted (e ∷ []))
Live-history h e s (inl v) = (step-Live h e s v, step-history h e s v)
Live-history h e s (inr c) =
    let f = step_canceled h e s c in (inr f.state, rw (f.sent, f.next) (sublist-append_left _ _))

-- Whatever happens, what a settled session hands to its socket is a part of what it was given, in
-- the order in which it was given: nothing is sent twice, made up or overtaken.
run-history :
    (h : Host) (es : List Event) (s : PublisherSession)
    → Live s
    → Sublist (history (run h es s)) (history s ++ submitted es)
unfolding run
run-history h [] s v = rw append-nil (Sublist.refl (history s))
run-history h (e ∷ es) s v =
    let (live, first) = Live-history h e s v in
    Sublist.trans (run-history h es (step h e s) live) (
      rw (submitted_cons e es, ← append_assoc) (Sublist.append first (Sublist.refl (submitted es))))
