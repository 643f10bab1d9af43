-- ===== src/Subscriber/Asynchronous/Box.antt =====
-- Subscriber_Impl: last_callback_data_ as a box for the newest message, and what the callback thread
-- hears through it.
use mathlib.Core.List.{Sublistᴰ}
use mathlib.Core.List.Sublistᴰ
use mathlib.Core.Path.{subst}
use tcp_pubsub.Base.{
  last_or, at_most_one, ℕ, ◌≡◌, refl, ap, ◌∙◌, Option, none, some, List, [], ◌∷◌, ◌++◌,
  append_assoc, arith,
}
use tcp_pubsub.Subscriber.{Subscriber, callback_thread_turn}
use tcp_pubsub.Subscriber.Delivery.{called}
use tcp_pubsub.Subscriber.Asynchronous.{waiting, Threaded}

-- What is heard, and what waits in the end: of what waited and what was stored, in that order.
pub record Hears (c : ℕ) (s t : Subscriber) (stored : List (List ℕ)) : Type 0 where
  pub heard : List (List ℕ)
  pub calls : t.calls ≡ s.calls ++ called c heard
  pub in_order : Sublistᴰ (heard ++ waiting t) (waiting s ++ stored)
  pub newest :
      (d : Option (List ℕ)) → last_or d (heard ++ waiting t) ≡ last_or d (waiting s ++ stored)

-- The box keeps the newest of what is put into it.
kept-Sublistᴰ :
    (o : Option (List ℕ)) (bs more : List (List ℕ))
    → Sublistᴰ (at_most_one (last_or o bs) ++ more) (at_most_one o ++ (bs ++ more))
kept-Sublistᴰ o [] more = Sublistᴰ.refl (at_most_one o ++ more)
kept-Sublistᴰ none (b ∷ bs) more = kept-Sublistᴰ (some b) bs more
kept-Sublistᴰ (some a) (b ∷ bs) more = Sublistᴰ.cons (kept-Sublistᴰ (some b) bs more)

kept_newest :
    (d o : Option (List ℕ)) (bs more : List (List ℕ))
    → last_or d (at_most_one (last_or o bs) ++ more) ≡ last_or d (at_most_one o ++ (bs ++ more))
kept_newest d o [] more = refl
kept_newest d none (b ∷ bs) more = kept_newest d (some b) bs more
kept_newest d (some a) (b ∷ bs) more = kept_newest d (some b) bs more

-- What is stored in front of the rest.
pub stored_first :
    (c : ℕ) (s t u : Subscriber) (bs more : List (List ℕ))
    → t.calls ≡ s.calls
    → t.last_callback_data ≡ last_or s.last_callback_data bs
    → Hears c t u more
    → Hears c s u (bs ++ more)
stored_first c s t u bs more calls last r = record {
  heard = r.heard;
  calls = r.calls ∙ ap (λ ds. ds ++ called c r.heard) calls;
  in_order = Sublistᴰ.trans r.in_order (rw last (kept-Sublistᴰ s.last_callback_data bs more));
  newest = λ d. r.newest d ∙ rw last (kept_newest d s.last_callback_data bs more);
}

-- A turn of the thread in front of the rest, when o waits for it.
pub turn_first :
    (id c : ℕ) (s u : Subscriber) (more : List (List ℕ)) (o : Option (List ℕ))
    → s.last_callback_data ≡ o
    → Threaded id c s
    → Hears c (callback_thread_turn s) u more
    → Hears c s u more
unfolding callback_thread_turn
turn_first id c s u more none e v r =
    let idle : callback_thread_turn s ≡ s = ground (arith, e, v.thread, v.goes_on) in
    subst (λ t. Hears c t u more) idle r
turn_first id c s u more (some b) e v r =
    let t = record s { last_callback_data = none; calls = s.calls ++ (c, b) ∷ [] } in
    let called_back : callback_thread_turn s ≡ t = ground (arith, e, v.thread, v.goes_on) in
    let later = subst (λ t. Hears c t u more) called_back r in
    record {
      heard = b ∷ later.heard;
      calls = later.calls ∙ append_assoc s.calls ((c, b) ∷ []) (called c later.heard);
      in_order = rw e (Sublistᴰ.cons-cons refl later.in_order);
      newest = λ d. rw e (later.newest (some b));
    }
