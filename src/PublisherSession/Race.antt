-- ===== src/PublisherSession/Race.antt =====
-- PublisherSession: sendProtocolHandshakeResponse and cancel on two threads. Here the two accesses
-- of state_ in the handshake thread are two steps, and a call of sessionClosedHandler is one:
--
--   const State old_state = state_.exchange(State::Running);
--   if (old_state != State::Handshaking) state_ = old_state;
use tcp_pubsub.PublisherSession.{
  State, handshaking, running, canceled, is_canceled, is_handshaking, PublisherSession,
  finish_handshake,
}
use tcp_pubsub.Base.{
  if◌then◌else◌, ℕ, suc, ◌+◌, ◌≡◌, List, [], ◌∷◌, arith, ◌≤◌, ◌<◌, refl, ◌↔◌, ◌⊎◌,
}
use tcp_pubsub.PublisherSession.Lifecycle.{count}

-- Where the handshake thread stands: in front of the exchange, behind it with what it returned,
-- or behind the assignment.
pub data Pc : Type 0 where
  before_exchange : Pc
  exchanged : State → Pc
  finished : Pc

pub record Shared : Type 0 where
  pub pc : Pc
  pub state : State
  pub closed_calls : ℕ

pub data Thread : Type 0 where
  handshake closer : Thread

-- The next access of the handshake thread.
advance : Pc → Shared → Shared
advance before_exchange s = record s { pc = exchanged s.state; state = running }
advance (exchanged old) s = record s {
  pc = finished;
  state = if is_handshaking old then s.state else old;
}
advance finished s = s

-- sessionClosedHandler: the exchange, and the handler if the session was not canceled before.
close : Shared → Shared
close s =
    let t = record s { state = canceled } in
    if is_canceled s.state then t else record t { closed_calls = suc s.closed_calls }

pub step : Thread → Shared → Shared
unfolding advance close
step handshake s = advance s.pc s
step closer s = close s

-- A schedule names the thread that moves, step by step.
pub run : List Thread → Shared → Shared
run [] s = s
run (t ∷ ts) s = run ts (step t s)

-- Two cancellations, one on each side of the exchange, both find a session that is not canceled.
pub race_closes_twice :
    (s : Shared)
    → s.pc ≡ before_exchange
    → s.state ≡ handshaking
    → let t = run (closer ∷ handshake ∷ closer ∷ handshake ∷ []) s in
      (t.closed_calls ≡ s.closed_calls + 2) × (t.state ≡ canceled)
unfolding run step
race_closes_twice s at up = ground arith

-- What the handler count is at each point, from the states seen.
abbrev Sound : Pc → State → ℕ → Type 0
Sound before_exchange st n = ((st ≡ handshaking) ⊎ (st ≡ canceled)) × (n ≡ count (is_canceled st))
Sound (exchanged old) st n =
    ((old ≡ handshaking) ⊎ (old ≡ canceled))
    × ((st ≡ running) ⊎ (st ≡ canceled))
    × (n ≡ count (is_canceled old) + count (is_canceled st))
Sound finished st n = ((st ≡ running) × (n ≡ 0)) ⊎ ((st ≡ canceled) × (0 < n) × (n ≤ 2))

step-Sound :
    (t : Thread) (p : Pc) (s : Shared)
    → s.pc ≡ p
    → Sound p s.state s.closed_calls
    → Sound (step t s).pc (step t s).state (step t s).closed_calls
unfolding step
step-Sound handshake before_exchange s e v = ground arith
step-Sound handshake (exchanged old) s e v = ground arith
step-Sound handshake finished s e v = ground arith
step-Sound closer before_exchange s e v = ground arith
step-Sound closer (exchanged old) s e v = ground arith
step-Sound closer finished s e v = ground arith

run-Sound :
    (ts : List Thread) (s : Shared)
    → Sound s.pc s.state s.closed_calls
    → Sound (run ts s).pc (run ts s).state (run ts s).closed_calls
unfolding run
run-Sound [] s v = v
run-Sound (t ∷ ts) s v = run-Sound ts (step t s) (step-Sound t s.pc s refl v)

Sound-le : (p : Pc) (st : State) (n : ℕ) → Sound p st n → n ≤ 2
Sound-le before_exchange st n v = ground arith
Sound-le (exchanged old) st n v = ground arith
Sound-le finished st n v = ground arith

-- Under every schedule of one handshake thread and any number of cancellations, the closed handler
-- runs at most twice, and behind the handshake the session is canceled if it ran at all.
pub closed_at_most_twice :
    (ts : List Thread) (s : Shared)
    → s.pc ≡ before_exchange
    → s.state ≡ handshaking
    → s.closed_calls ≡ 0
    → let t = run ts s in
      (t.closed_calls ≤ 2) × (t.pc ≡ finished → (0 < t.closed_calls) ↔ (t.state ≡ canceled))
closed_at_most_twice ts s at up none_yet =
    let v : Sound s.pc s.state s.closed_calls = ground arith in
    let w = run-Sound ts s v in (Sound-le _ _ _ w, λ e. ground arith)

-- With nothing in between, the two accesses are what the atomic handler of the session does.
pub uninterrupted :
    (s : Shared) (session : PublisherSession)
    → s.pc ≡ before_exchange
    → s.state ≡ session.state
    → (run (handshake ∷ handshake ∷ []) s).state ≡ (finish_handshake session).state
unfolding run step finish_handshake
uninterrupted s session at same = ground arith
