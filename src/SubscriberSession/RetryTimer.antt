-- ===== src/SubscriberSession/RetryTimer.antt =====
-- SubscriberSession_Impl: how long it waits between its attempts to connect. The constructor gives
-- retry_timer_ its expiry (subscriber_session_impl.cpp), connectionFailedHandler starts a wait for
-- it, and nothing gives it another expiry.
pub mod Waits
pub mod Total
mod Examples
use tcp_pubsub.SubscriberSession
use tcp_pubsub.Base.{ltb, if◌then◌else◌, get_elem?, ℕ, suc, ◌+◌, ◌-◌, ◌≤◌, ◌≡◌, some, List, [], ◌∷◌}
use tcp_pubsub.SubscriberSession.{
  Operation, retry_wait, SubscriberSession, start, Event, operation_ends, step,
}
use tcp_pubsub.Asio.{done}
use tcp_pubsub.Wire.Endian.{Host}

-- asio::steady_timer: it is constructed at a time with a duration, and a wait for it that is started
-- at a time ends at the expiry, or at once if the timer has expired. Times are in milliseconds.
pub record SteadyTimer : Type 1 where
  pub Timer : Type 0
  pub construct : (now duration : ℕ) → Timer
  pub wait_ends : Timer → (now : ℕ) → ℕ
  pub expires :
      (now duration later : ℕ)
      → wait_ends (construct now duration) later
        ≡ (if ltb later (now + duration) then now + duration else later)

-- The waits for the timer in flight.
abbrev pub waits : List Operation → ℕ
waits [] = 0
waits (retry_wait ∷ os) = suc (waits os)
waits (o ∷ os) = waits os

module _ (asio : SteadyTimer) where
  -- A session, the time of its last event, the end of the wait that was started last, and how long
  -- all its waits take.
  pub record Timed : Type 0 where
    pub session : SubscriberSession
    pub retry_timer : asio.Timer
    pub clock : ℕ
    pub wait_until : ℕ
    pub waited : ℕ

  -- The constructor and start() at a time.
  unfoldable pub timed_start : ℕ → SubscriberSession → Timed
  timed_start now s = record {
    session = SubscriberSession.start s;
    retry_timer = asio.construct now 1000;
    clock = now;
    wait_until = now;
    waited = 0;
  }

  -- An event at a time. If the handler starts a wait, it lasts until the timer lets it end.
  unfoldable pub timed_step : Host → ℕ → Event → Timed → Timed
  timed_step h now e t =
      let s = step h e t.session in
      let ends = asio.wait_ends t.retry_timer now in
      if ltb (waits t.session.operations) (waits s.operations)
      then record t {
        session = s;
        clock = now;
        wait_until = ends;
        waited = t.waited + (ends - now);
      }
      else record t { session = s; clock = now }

  -- Time does not run backwards, and a wait does not succeed before its end.
  pub record Possible (now : ℕ) (e : Event) (t : Timed) : Type 0 where
    pub in_time : t.clock ≤ now
    pub expired :
        (i : ℕ) (bytes : List ℕ)
        → e ≡ operation_ends i (done bytes)
        → get_elem? t.session.operations i ≡ some retry_wait
        → t.wait_until ≤ now

  unfoldable pub timed_run : Host → List (ℕ × Event) → Timed → Timed
  timed_run h [] t = t
  timed_run h ((now, e) ∷ es) t = timed_run h es (timed_step h now e t)

  abbrev pub AllPossible : Host → List (ℕ × Event) → Timed → Type 0
  AllPossible h [] t = Unit
  AllPossible h ((now, e) ∷ es) t = Possible now e t × AllPossible h es (timed_step h now e t)
