-- ===== src/PublisherSession/Mailbox.antt =====
-- PublisherSession: what the send queue promises, as a machine of its own, and that sendDataBuffer,
-- sendBufferToClient and sessionClosedHandler implement it once the handshake is over.
pub mod Order
use tcp_pubsub.Base.{
  if◌then◌else◌, Option-cases, zero, suc, ◌≡◌, inl, inr, Option, none, some, List, [], ◌∷◌, ◌++◌,
  append-nil, arith, ℕ, refl, sym, ap, ap₂, ◌∙◌, map, append_assoc,
}
use tcp_pubsub.PublisherSession.{
  Buffer, canceled, is_canceled, PublisherSession, session_closed_handler, cancel, send_data_buffer,
  on_written, Event, send_call, cancel_call, read_ends, write_ends, step, run,
}
use tcp_pubsub.PublisherSession.SendQueue.{Settled, Live, step-Live}
use tcp_pubsub.Wire.Endian.{Host}
use tcp_pubsub.Asio.{failed, done, Completion}
use tcp_pubsub.PublisherSession.Cancel.{step_canceled}

-- A sender that is free, or writes with perhaps one buffer waiting, or is closed.
pub data Mailbox : Type 0 where
  free : Mailbox
  writing : Option Buffer → Mailbox
  closed : Mailbox

pub data Op : Type 0 where
  put : Buffer → Op
  written : Op
  write_fails : Op
  close : Op
  skip : Op

-- The next mailbox, and what is written: the newest buffer waits, older ones are dropped.
unfoldable pub act : Op → Mailbox → Mailbox × List Buffer
act (put b) free = (writing none, b ∷ [])
act (put b) (writing waits) = (writing (some b), [])
act (put b) closed = (closed, [])
act written (writing none) = (free, [])
act written (writing (some b)) = (writing none, b ∷ [])
act written free = (free, [])
act written closed = (closed, [])
act write_fails free = (free, [])
act write_fails (writing waits) = (closed, [])
act write_fails closed = (closed, [])
act close m = (closed, [])
act skip m = (m, [])

unfoldable pub run_mailbox : List Op → Mailbox → Mailbox × List Buffer
unfolding act
run_mailbox [] m = (m, [])
run_mailbox (o ∷ os) m =
    let (next, first) = act o m in let (last, rest) = run_mailbox os next in (last, first ++ rest)

-- An event of the session as the mailbox sees it. At most one write is in flight, the one at index
-- 0, and no read.
abbrev pub op_of : Event → Op
op_of (send_call b) = put b
op_of cancel_call = close
op_of (read_ends i c) = skip
op_of (write_ends zero failed) = write_fails
op_of (write_ends zero (done b)) = written
op_of (write_ends (suc i) c) = skip

-- A session as a mailbox.
abbrev pub view : PublisherSession → Mailbox
view s =
    if is_canceled s.state
    then closed
    else if s.sending_in_progress
    then writing s.next_buffer_to_send
    else free

abbrev Implements : Op → PublisherSession → PublisherSession → Type 0
Implements o s t = (view t ≡ (act o (view s)).0) × (t.sent ≡ s.sent ++ (act o (view s)).1)

pub act_closed : (o : Op) → act o closed ≡ (closed, [])
unfolding act
act_closed (put b) = refl
act_closed written = refl
act_closed write_fails = refl
act_closed close = refl
act_closed skip = refl

canceled-Implements :
    (h : Host) (e : Event) (s : PublisherSession)
    → s.state ≡ canceled
    → Implements (op_of e) s (step h e s)
canceled-Implements h e s c =
    let f = step_canceled h e s c in
    ground (arith, f.state, f.sent, act_closed (op_of e), append-nil s.sent)

idle_end :
    (h : Host) (c : Completion) (s : PublisherSession)
    → Settled s
    → s.writes ≡ []
    → Implements (op_of (write_ends 0 c)) s (step h (write_ends 0 c) s)
unfolding act step
idle_end h failed s v none_left = ground (arith, append-nil s.sent)
idle_end h (done b) s v none_left = ground (arith, append-nil s.sent)

busy_end :
    (h : Host) (c : Completion) (w : Buffer) (s : PublisherSession)
    → Settled s
    → s.writes ≡ w ∷ []
    → Implements (op_of (write_ends 0 c)) s (step h (write_ends 0 c) s)
unfolding act step on_written session_closed_handler
busy_end h failed w s v one = ground (arith, append-nil s.sent)
busy_end h (done bytes) w s v one = elim (Option-cases s.next_buffer_to_send) [
  | inl e ↦ ground (arith, append-nil s.sent)
  | inr (b, e) ↦ ground (arith, append-nil s.sent)
]

end-Implements :
    (h : Host) (c : Completion) (ws : List Buffer) (s : PublisherSession)
    → Settled s
    → s.writes ≡ ws
    → Implements (op_of (write_ends 0 c)) s (step h (write_ends 0 c) s)
end-Implements h c [] s v e = idle_end h c s v e
end-Implements h c (w ∷ []) s v e = busy_end h c w s v e
end-Implements h c (w ∷ x ∷ ws) s v e = absurd (ground (arith, v.one_write))

beyond-Implements :
    (h : Host) (i : ℕ) (c : Completion) (ws : List Buffer) (s : PublisherSession)
    → Settled s
    → s.writes ≡ ws
    → Implements skip s (step h (write_ends (suc i) c) s)
unfolding act step
beyond-Implements h i c [] s v e = ground (arith, append-nil s.sent)
beyond-Implements h i c (w ∷ []) s v e = ground (arith, append-nil s.sent)
beyond-Implements h i c (w ∷ x ∷ ws) s v e = absurd (ground (arith, v.one_write))

Settled-Implements :
    (h : Host) (e : Event) (s : PublisherSession) → Settled s → Implements (op_of e) s (step h e s)
unfolding act step cancel send_data_buffer session_closed_handler
Settled-Implements h (send_call b) s v = elim (Option-cases s.next_buffer_to_send) [
  | inl e ↦ ground (arith, append-nil s.sent)
  | inr (c, e) ↦ ground (arith, append-nil s.sent)
]
Settled-Implements h cancel_call s v = ground (arith, append-nil s.sent)
Settled-Implements h (read_ends i c) s v = ground (arith, append-nil s.sent)
Settled-Implements h (write_ends zero c) s v = end-Implements h c s.writes s v refl
Settled-Implements h (write_ends (suc i) c) s v = beyond-Implements h i c s.writes s v refl

pub Live-Implements :
    (h : Host) (e : Event) (s : PublisherSession)
    → Live s
    → Live (step h e s) × Implements (op_of e) s (step h e s)
Live-Implements h e s (inl v) = (step-Live h e s v, Settled-Implements h e s v)
Live-Implements h e s (inr c) = (inr (step_canceled h e s c).state, canceled-Implements h e s c)

-- From a session that runs, reads nothing more, has as many writes in flight as sending_in_progress_
-- stands for, and keeps no buffer waiting while that is not set, or from a canceled one: through any
-- events, the session is the mailbox that the operations make, and it has handed to its socket,
-- behind what it had sent, exactly the buffers that the mailbox writes, in the same order.
pub view-run :
    (h : Host) (es : List Event) (s : PublisherSession)
    → Live s
    → let (last, output) = run_mailbox (map op_of es) (view s) in
      (view (run h es s) ≡ last) × ((run h es s).sent ≡ s.sent ++ output)
unfolding run run_mailbox
view-run h [] s v = (refl, sym (append-nil s.sent))
view-run h (e ∷ es) s v =
    let (live, now) = Live-Implements h e s v in
    let (at_end, sent) = view-run h es (step h e s) live in
    let output = (act (op_of e) (view s)).1 in
    let rest = (run_mailbox (map op_of es) (act (op_of e) (view s)).0).1 in
    let at = now.0 in
    (
      at_end ∙ ap (λ m. (run_mailbox (map op_of es) m).0) at,
      sent
          ∙ ap₂ ◌++◌ now.1 (ap (λ m. (run_mailbox (map op_of es) m).1) at)
          ∙ append_assoc s.sent output rest,
    )
