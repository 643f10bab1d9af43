-- ===== src/Executor.antt =====
-- tcp_pubsub/src/executor_impl.{h,cpp}, executor.cpp: the threads that run asio's io_context.
--
-- asio's io_context is a parameter: what is used of it is when a call of run() that has nothing to
-- execute returns. Log output is left out, and so is the detaching of the threads in the
-- destructor, which does not end them.
use tcp_pubsub.Base.{
  ltb, ◌==◌, if◌then◌else◌, length, get_elem?, replicate, ℕ, zero, suc, ◌<◌, ◌≡◌, refl, ap, ◌∙◌,
  Bool, true, false, ◌&&◌, ◌||◌, some, List, [], ◌∷◌, ◌++◌, arith, length-replicate, Option, none,
}
use tcp_pubsub.Base.Ids.{contains}

-- Whether run() returns, given whether there is a work guard and whether stop() was called. The
-- documentation of asio says that a work guard keeps run() from returning until stop() is called,
-- and that stop() makes all calls of run() return.
pub record IoContext : Type 0 where
  pub run_returns : (has_work stopped : Bool) → Bool
  pub guarded : run_returns true false ≡ false
  pub released : (has_work : Bool) → run_returns has_work true ≡ true

-- A thread of the pool is in run(), or behind it and at its end.
pub data Thread : Type 0 where
  running finished : Thread

pub record Executor : Type 0 where
  pub thread_pool : List Thread
  pub dummy_work : Bool
  pub stopped : Bool

pub new : Executor
new = record { thread_pool = []; dummy_work = true; stopped = false }

-- start appends threads to the pool.
pub start : ℕ → Executor → Executor
start thread_count e = record e { thread_pool = e.thread_pool ++ replicate thread_count running }

pub stop : Executor → Executor
stop e = record e { dummy_work = false; stopped = true }

look_at : Bool → List Thread → ℕ → List Thread
look_at returns [] i = []
look_at returns (t ∷ ts) zero = (if returns then finished else t) ∷ ts
look_at returns (t ∷ ts) (suc i) = t ∷ look_at returns ts i

module _ (io : IoContext) where
  open io use {run_returns, guarded, released}

  -- The thread at an index has nothing to execute, and run() returns to it or goes on.
  pub look : ℕ → Executor → Executor
  unfolding look_at
  look i e = record e { thread_pool = look_at (run_returns e.dummy_work e.stopped) e.thread_pool i }

  pub looks : List ℕ → Executor → Executor
  unfolding look
  looks [] e = e
  looks (i ∷ is) e = looks is (look i e)

is_finished : Option Thread → Bool
is_finished none = false
is_finished (some running) = false
is_finished (some finished) = true

look_at-false : (ts : List Thread) (i : ℕ) → look_at false ts i ≡ ts
unfolding look_at
look_at-false [] i = refl
look_at-false (t ∷ ts) zero = refl
look_at-false (t ∷ ts) (suc i) = ap (◌∷◌ t) (look_at-false ts i)

look_at-true :
    (ts : List Thread) (i j : ℕ)
    → (get_elem? (look_at true ts i) j
        ≡ (if i == j && ltb j (length ts) then some finished else get_elem? ts j))
      × (length (look_at true ts i) ≡ length ts)
unfolding look_at
look_at-true [] i j = ground arith
look_at-true (t ∷ ts) zero zero = ground arith
look_at-true (t ∷ ts) zero (suc j) = ground arith
look_at-true (t ∷ ts) (suc i) zero = ground (arith, look_at-true ts i 0)
look_at-true (t ∷ ts) (suc i) (suc j) = ground (arith, look_at-true ts i j)

module _ (io : IoContext) where
  serving :
      (is : List ℕ) (e : Executor) → e.dummy_work ≡ true → e.stopped ≡ false → looks io is e ≡ e
  unfolding looks look
  serving [] e work up = refl
  serving (i ∷ is) e work up =
      let same : look io i e ≡ e = ground (arith, look_at-false e.thread_pool i, io.guarded) in
      ap (looks io is) same ∙ serving is e work up

  leaving :
      (is : List ℕ) (j : ℕ) (e : Executor)
      → e.stopped ≡ true
      → j < length e.thread_pool
      → contains j is || is_finished (get_elem? e.thread_pool j) ≡ true
      → get_elem? (looks io is e).thread_pool j ≡ some finished
  unfolding looks look contains is_finished
  leaving [] j e gone l m = ground arith
  leaving (i ∷ is) j e gone l m =
      let t : Executor = record e { thread_pool = look_at true e.thread_pool i } in
      let same : look io i e ≡ t = ground (arith, io.released e.dummy_work) in
      let f = look_at-true e.thread_pool i j in
      ap (λ (x : Executor). get_elem? (looks io is x).thread_pool j) same
      ∙ leaving is j t gone (omega (arith, f.1)) (ground (arith, f.0))

  -- Of a pool of n threads none leaves run() before stop(), however often it has nothing to
  -- execute, and behind stop() each has left once it has nothing to execute.
  pool_runs_until_stop :
      (n : ℕ) (before after : List ℕ) (j : ℕ)
      → j < n
      → contains j after ≡ true
      → let e = looks io before (start n new) in
        (e.thread_pool ≡ replicate n running)
        × (get_elem? (looks io after (stop e)).thread_pool j ≡ some finished)
  unfolding start new stop
  pool_runs_until_stop n before after j l m =
      let e : Executor = record {
        thread_pool = replicate n running;
        dummy_work = true;
        stopped = false;
      } in
      let same = serving before e refl refl in
      rw same (
        refl,
        leaving after j (stop e) refl (omega (arith, length-replicate n running)) (rw m refl),
      )
