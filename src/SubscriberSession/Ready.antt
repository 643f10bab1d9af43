-- ===== src/SubscriberSession/Ready.antt =====
-- SubscriberSession: no message is given to an empty synchronous_callback_, as long as one is set
-- before the session starts.
use tcp_pubsub.Base.{
  if◌then◌else◌, Option-cases, get_elem?, remove_at, ℕ, ◌≡◌, refl, inl, inr, Bool, true, false,
  ◌||◌, Option, none, some, List, [], ◌∷◌, ◌++◌, arith,
}
use tcp_pubsub.SubscriberSession.{
  Callback, Operation, payload, Posted, deliver, next_message, set_callback, SubscriberSession,
  connection_failed_handler, start, on_payload, on_resolved, on_connected, on_completed, on_posted,
  set_synchronous_callback, cancel, Event, cancel_call, callback_call, operation_ends, strand_runs,
  step,
}
use tcp_pubsub.SubscriberSession.Growth.{front_gives, gives, step-Grows}
use tcp_pubsub.Wire.Endian.{Host}
use tcp_pubsub.Asio.{Completion, done}

abbrev pub is_set : Option Callback → Bool
is_set none = false
is_set (some c) = true

-- The next handler on the strand sets the callback.
abbrev pub front_sets : List Posted → Bool
front_sets (set_callback c ∷ ps) = true
front_sets (deliver b m ∷ ps) = false
front_sets (next_message ∷ ps) = false
front_sets [] = false

-- Each call was made to a callback that is set.
abbrev pub AllSet : List (Option Callback × List ℕ) → Type 0
AllSet [] = Unit
AllSet ((c, b) ∷ ds) = (is_set c ≡ true) × AllSet ds

pub record Ready (s : SubscriberSession) : Type 0 where
  pub set_or_next : is_set s.synchronous_callback || front_sets s.strand ≡ true
  pub past : AllSet s.delivered

AllSet-append :
    (xs ys : List (Option Callback × List ℕ)) → AllSet xs → AllSet ys → AllSet (xs ++ ys)
AllSet-append [] ys f g = g
AllSet-append ((c, b) ∷ xs) ys f g = (f.0, AllSet-append xs ys f.1 g)

-- Something is posted behind what is there.
posts :
    (c : Option Callback) (xs ys : List Posted)
    → is_set c || front_sets xs ≡ true
    → is_set c || front_sets (xs ++ ys) ≡ true
posts c [] ys e = ground arith
posts c (set_callback d ∷ xs) ys e = ground arith
posts c (deliver b m ∷ xs) ys e = ground arith
posts c (next_message ∷ xs) ys e = ground arith

-- The callback stays, and the strand grows at its end.
abbrev Extends : SubscriberSession → SubscriberSession → Type 0
Extends s t =
    is_set s.synchronous_callback || front_sets s.strand ≡ true
    → is_set t.synchronous_callback || front_sets t.strand ≡ true

payload-Extends : (m bytes : List ℕ) (s : SubscriberSession) → Extends s (on_payload m bytes s)
unfolding on_payload connection_failed_handler
payload-Extends m bytes s e =
    let c = s.synchronous_callback in
    let one = next_message ∷ [] in
    let front = posts c s.strand (deliver bytes m ∷ []) e in
    ground (arith, posts c s.strand one, posts c (s.strand ++ deliver bytes m ∷ []) one front)

completed-Extends :
    (h : Host) (o : Operation) (c : Completion) (s : SubscriberSession)
    → Extends s (on_completed h o c s)
unfolding on_completed on_resolved on_connected connection_failed_handler
completed-Extends h (payload m n) (done bytes) s e = payload-Extends m bytes s e
completed-Extends h o c s e = ground arith

operation-Extends :
    (h : Host) (i : ℕ) (c : Completion) (s : SubscriberSession)
    → Extends s (step h (operation_ends i c) s)
unfolding step
operation-Extends h i c s e = elim (Option-cases (get_elem? s.operations i)) [
  | inl gone ↦ rw (gone, step) e
  | inr (o, at) ↦
      rw (at, step) (completed-Extends h o c (record s { operations = remove_at s.operations i }) e)
]

strand-Extends :
    (h : Host) (ps : List Posted) (s : SubscriberSession)
    → s.strand ≡ ps
    → Extends s (step h strand_runs s)
unfolding step on_posted connection_failed_handler
strand-Extends h [] s at e = ground arith
strand-Extends h (next_message ∷ ps) s at e = ground arith
strand-Extends h (deliver b m ∷ ps) s at e = ground arith
strand-Extends h (set_callback c ∷ ps) s at e = ground arith

step-Extends : (h : Host) (e : Event) (s : SubscriberSession) → Extends s (step h e s)
unfolding step cancel set_synchronous_callback
step-Extends h cancel_call s e = ground arith
step-Extends h (callback_call c) s e =
    ground (arith, posts s.synchronous_callback s.strand (set_callback c ∷ []))
step-Extends h (operation_ends i c) s e = operation-Extends h i c s e
step-Extends h strand_runs s e = strand-Extends h s.strand s refl e

front-AllSet :
    (ps : List Posted) (s : SubscriberSession)
    → is_set s.synchronous_callback || front_sets ps ≡ true
    → AllSet (front_gives ps s)
front-AllSet [] s e = tt
front-AllSet (next_message ∷ ps) s e = tt
front-AllSet (deliver b m ∷ ps) s e =
    elim s.canceled as (λ x. AllSet (if x then [] else (s.synchronous_callback, b) ∷ [])) [
      | true ↦ tt
      | false ↦ (ground arith, tt)
    ]
front-AllSet (set_callback c ∷ ps) s e = tt

gives-AllSet : (e : Event) (s : SubscriberSession) → Ready s → AllSet (gives e s)
gives-AllSet cancel_call s r = tt
gives-AllSet (callback_call c) s r = tt
gives-AllSet (operation_ends i c) s r = tt
gives-AllSet strand_runs s r = front-AllSet s.strand s r.set_or_next

pub step-Ready : (h : Host) (e : Event) (s : SubscriberSession) → Ready s → Ready (step h e s)
step-Ready h e s r = record {
  set_or_next = step-Extends h e s r.set_or_next;
  past =
      rw (step-Grows h e s).0 (AllSet-append s.delivered (gives e s) r.past (gives-AllSet e s r));
}

-- A new session that is given a callback and started.
pub started-Ready :
    (c : Callback) (s : SubscriberSession)
    → s.canceled ≡ false
    → s.strand ≡ []
    → s.delivered ≡ []
    → Ready (start (set_synchronous_callback c s))
unfolding start set_synchronous_callback
started-Ready c s up none_posted none_yet = ground arith

pub cancel-Ready : (s : SubscriberSession) → Ready s → Ready (cancel s)
unfolding cancel
cancel-Ready s r = ground arith

pub set_synchronous_callback-Ready :
    (c : Callback) (s : SubscriberSession) → Ready s → Ready (set_synchronous_callback c s)
unfolding set_synchronous_callback
set_synchronous_callback-Ready c s r =
    ground (arith, posts s.synchronous_callback s.strand (set_callback c ∷ []))
