-- ===== src/SubscriberSession/Strand.antt =====
-- SubscriberSession: what is posted to the strand, and in which order.
use tcp_pubsub.Base.{ℕ, suc, ◌+◌, ◌≤◌, ◌≡◌, List, [], ◌∷◌, ◌++◌, arith}
use tcp_pubsub.SubscriberSession.{Callback, Posted, deliver, next_message, set_callback}

abbrev pub nexts : List Posted → ℕ
nexts [] = 0
nexts (next_message ∷ ps) = suc (nexts ps)
nexts (deliver b m ∷ ps) = nexts ps
nexts (set_callback c ∷ ps) = nexts ps

abbrev pub delivers : List Posted → ℕ
delivers [] = 0
delivers (next_message ∷ ps) = delivers ps
delivers (deliver b m ∷ ps) = suc (delivers ps)
delivers (set_callback c ∷ ps) = delivers ps

-- A delivery stands in front of the reading of the next message, and each is there once at most.
abbrev pub InOrder : List Posted → Type 0
InOrder [] = Unit
InOrder (next_message ∷ ps) = (nexts ps ≡ 0) × (delivers ps ≡ 0) × InOrder ps
InOrder (deliver b m ∷ ps) = (nexts ps ≡ 1) × (delivers ps ≡ 0) × InOrder ps
InOrder (set_callback c ∷ ps) = InOrder ps

pub nexts-append : (xs ys : List Posted) → nexts (xs ++ ys) ≡ nexts xs + nexts ys
nexts-append [] ys = omega arith
nexts-append (next_message ∷ xs) ys = omega (arith, nexts-append xs ys)
nexts-append (deliver b m ∷ xs) ys = nexts-append xs ys
nexts-append (set_callback c ∷ xs) ys = nexts-append xs ys

pub delivers-append : (xs ys : List Posted) → delivers (xs ++ ys) ≡ delivers xs + delivers ys
delivers-append [] ys = omega arith
delivers-append (next_message ∷ xs) ys = delivers-append xs ys
delivers-append (deliver b m ∷ xs) ys = omega (arith, delivers-append xs ys)
delivers-append (set_callback c ∷ xs) ys = delivers-append xs ys

-- Handlers posted behind callbacks alone, and a callback posted behind anything.
pub append-InOrder :
    (xs ys : List Posted) → nexts xs ≡ 0 → delivers xs ≡ 0 → InOrder ys → InOrder (xs ++ ys)
append-InOrder [] ys n d o = o
append-InOrder (next_message ∷ xs) ys n d o = absurd (omega arith)
append-InOrder (deliver b m ∷ xs) ys n d o = absurd (omega arith)
append-InOrder (set_callback c ∷ xs) ys n d o = append-InOrder xs ys n d o

pub callback-InOrder :
    (xs : List Posted) (c : Callback) → InOrder xs → InOrder (xs ++ set_callback c ∷ [])
callback-InOrder [] c o = tt
callback-InOrder (next_message ∷ xs) c o = (
  omega (arith, nexts-append xs (set_callback c ∷ []), o.0),
  omega (arith, delivers-append xs (set_callback c ∷ []), o.1),
  callback-InOrder xs c o.2,
)
callback-InOrder (deliver b m ∷ xs) c o = (
  omega (arith, nexts-append xs (set_callback c ∷ []), o.0),
  omega (arith, delivers-append xs (set_callback c ∷ []), o.1),
  callback-InOrder xs c o.2,
)
callback-InOrder (set_callback d ∷ xs) c o = callback-InOrder xs c o

pub delivers-le-nexts : (ps : List Posted) → InOrder ps → delivers ps ≤ nexts ps
delivers-le-nexts [] o = omega arith
delivers-le-nexts (next_message ∷ ps) o = omega arith
delivers-le-nexts (deliver b m ∷ ps) o = omega arith
delivers-le-nexts (set_callback c ∷ ps) o = delivers-le-nexts ps o
