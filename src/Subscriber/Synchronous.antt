-- ===== src/Subscriber/Synchronous.antt =====
-- Subscriber_Impl: synchronous callbacks, one access at a time. A delivery on a session's strand
-- tests canceled_ (subscriber_session_impl.cpp, readPayload), and then calls the function that
-- setCallbackToSession made (subscriber_impl.cpp):
--
--   const std::lock_guard<std::mutex> callback_lock(me->last_callback_data_mutex_);
--   if (me->user_callback_is_synchronous_) { ... callback(callback_data); }
--
-- The callback of the user may call setCallback for a synchronous callback, which locks the same
-- mutex. On another thread the owner calls cancel, which cancels the listed sessions one by one.
-- Each constructor of Step is one access, with what it waits for as its hypotheses.
pub mod Exclusion
pub mod Late
mod Examples
use tcp_pubsub.Base.{
  ◌==◌, if◌then◌else◌, ℕ, suc, ◌≡◌, Bool, true, false, Option, none, some, List, [], ◌∷◌,
}

-- Where the strand of a session stands: without a delivery, behind the test of canceled_, behind the
-- lock, in the user's callback, or in a call of setCallback from there, in front of the lock.
pub data StrandAt : Type 0 where
  idle admitted locked calling setting : StrandAt

-- Where the owner stands: in front of cancel, in its loop with the sessions that are left, or
-- behind it.
pub data OwnerAt : Type 0 where
  before_cancel : OwnerAt
  canceling : List ℕ → OwnerAt
  returned : OwnerAt

pub record Shared : Type 0 where
  pub last_callback_data_mutex : Option ℕ
  pub user_callback_is_synchronous : Bool
  pub session_list : List ℕ
  pub canceled : ℕ → Bool
  pub strand : ℕ → StrandAt
  pub owner : OwnerAt
  -- how often each session has called the user's callback
  pub calls : ℕ → ℕ

abbrev pub put {ℓ} : {A : Type ℓ} → (ℕ → A) → ℕ → A → ℕ → A
put f id a other = if other == id then a else f other

abbrev pub move : ℕ → StrandAt → Shared → Shared
move id a s = record s { strand = put s.strand id a }

pub data Step (s t : Shared) : Type 0 where
  tests_canceled :
      (id : ℕ) → s.strand id ≡ idle → s.canceled id ≡ false → t ≡ move id admitted s → Step s t
  locks :
      (id : ℕ)
      → s.strand id ≡ admitted
      → s.last_callback_data_mutex ≡ none
      → t ≡ record (move id locked s) { last_callback_data_mutex = some id }
      → Step s t
  calls_user :
      (id : ℕ)
      → s.strand id ≡ locked
      → s.user_callback_is_synchronous ≡ true
      → t ≡ record (move id calling s) { calls = put s.calls id (suc (s.calls id)) }
      → Step s t
  calls_nothing :
      (id : ℕ)
      → s.strand id ≡ locked
      → s.user_callback_is_synchronous ≡ false
      → t ≡ record (move id idle s) { last_callback_data_mutex = none }
      → Step s t
  returns :
      (id : ℕ)
      → s.strand id ≡ calling
      → t ≡ record (move id idle s) { last_callback_data_mutex = none }
      → Step s t
  calls_set_callback :
      (id : ℕ)
      → s.strand id ≡ calling
      → t ≡ record (move id setting s) { user_callback_is_synchronous = true }
      → Step s t
  set_callback_locks :
      (id : ℕ)
      → s.strand id ≡ setting
      → s.last_callback_data_mutex ≡ none
      → t ≡ move id calling s
      → Step s t
  cancel_begins :
      s.owner ≡ before_cancel → t ≡ record s { owner = canceling s.session_list } → Step s t
  cancels_session :
      (id : ℕ) (left : List ℕ)
      → s.owner ≡ canceling (id ∷ left)
      → t ≡ record s { owner = canceling left; canceled = put s.canceled id true }
      → Step s t
  cancel_returns :
      s.owner ≡ canceling []
      → t ≡ record s { owner = returned; user_callback_is_synchronous = true }
      → Step s t

pub data Reach (s : Shared) : Shared → Type 0 where
  here : Reach s s
  next : {t u : Shared} → Reach s t → Step t u → Reach s u
