-- ===== src/PublisherSession/Cancel.antt =====
-- PublisherSession: what is left of a session after sessionClosedHandler.
use tcp_pubsub.Base.{
  Option-cases, length, get_elem?, remove_at, length-remove_at, ◌≤◌, ◌≡◌, ◌∙◌, inl, inr, List, [],
  ◌∷◌, arith,
}
use tcp_pubsub.Asio.{Completion, failed, done}
use tcp_pubsub.Wire.Endian.{Host}
use tcp_pubsub.PublisherSession.{
  canceled, Read, header_length, header_content, discard, payload, PublisherSession, on_read,
  on_written, Event, send_call, cancel_call, read_ends, write_ends, step, run,
}

-- What a canceled session keeps through every event.
pub record Frozen (s t : PublisherSession) : Type 0 where
  pub state : t.state ≡ canceled
  pub sent : t.sent ≡ s.sent
  pub next : t.next_buffer_to_send ≡ s.next_buffer_to_send
  pub calls : t.closed_calls ≡ s.closed_calls
  pub reads : length t.reads ≤ length s.reads
  pub writes : length t.writes ≤ length s.writes

-- A handler that ends late finds the session canceled and does nothing.
on_read_canceled :
    (h : Host) (r : Read) (c : Completion) (s : PublisherSession)
    → s.state ≡ canceled
    → on_read h r c s ≡ s
unfolding on_read
on_read_canceled h (header_length header) failed s e = ground arith
on_read_canceled h (header_length header) (done bytes) s e = ground arith
on_read_canceled h (header_content header m d) failed s e = ground arith
on_read_canceled h (header_content header m d) (done bytes) s e = ground arith
on_read_canceled h (discard header m) failed s e = ground arith
on_read_canceled h (discard header m) (done bytes) s e = ground arith
on_read_canceled h (payload header m) failed s e = ground arith
on_read_canceled h (payload header m) (done bytes) s e = ground arith

on_written_canceled :
    (c : Completion) (s : PublisherSession) → s.state ≡ canceled → on_written c s ≡ s
unfolding on_written
on_written_canceled failed s e = ground arith
on_written_canceled (done bytes) s e = ground arith

pub step_canceled :
    (h : Host) (e : Event) (s : PublisherSession) → s.state ≡ canceled → Frozen s (step h e s)
unfolding step
step_canceled h (send_call b) s e = ground arith
step_canceled h cancel_call s e = ground arith
step_canceled h (read_ends i c) s e = elim (Option-cases (get_elem? s.reads i)) [
  | inl gone ↦ ground arith
  | inr (r, found) ↦ ground (
    arith,
    on_read_canceled h r c (record s { reads = remove_at s.reads i }),
    length-remove_at s.reads i found,
  )
]
step_canceled h (write_ends i c) s e = elim (Option-cases (get_elem? s.writes i)) [
  | inl gone ↦ ground arith
  | inr (b, found) ↦ ground (
    arith,
    on_written_canceled c (record s { writes = remove_at s.writes i }),
    length-remove_at s.writes i found,
  )
]

Frozen-trans : {s t u : PublisherSession} → Frozen s t → Frozen t u → Frozen s u
Frozen-trans f g = record {
  state = g.state;
  sent = g.sent ∙ f.sent;
  next = g.next ∙ f.next;
  calls = g.calls ∙ f.calls;
  reads = omega arith;
  writes = omega arith;
}

-- A canceled session stays canceled through any events: it starts no write and no read, takes no
-- buffer, and does not call the closed handler again.
pub run_canceled :
    (h : Host) (es : List Event) (s : PublisherSession) → s.state ≡ canceled → Frozen s (run h es s)
unfolding run
run_canceled h [] s e = ground arith
run_canceled h (x ∷ es) s e =
    let first = step_canceled h x s e in
    Frozen-trans first (run_canceled h es (step h x s) first.state)
