-- ===== src/Base/Ids/Order.antt =====
-- Lists of numbered objects: what their order does to std::find and erase.
use mathlib.Core.List.{Permᴰ}
use mathlib.Core.List.Permᴰ
use tcp_pubsub.Base.{
  ◌==◌, if◌then◌else◌, Bool-cases, length, ℕ, suc, ◌≡◌, refl, sym, ap, ◌∙◌, inl, inr, Bool, true,
  false, List, [], ◌∷◌, arith,
}
use tcp_pubsub.Base.Ids.{contains, erase}

pub contains-Permᴰ : (id : ℕ) {xs ys : List ℕ} → Permᴰ xs ys → contains id xs ≡ contains id ys
unfolding contains
contains-Permᴰ id Permᴰ.nil = refl
contains-Permᴰ id (Permᴰ.cons e h) = ground (arith, e, contains-Permᴰ id h)
contains-Permᴰ id (Permᴰ.swap e f) = ground (arith, e, f)
contains-Permᴰ id (Permᴰ.trans g h) = contains-Permᴰ id g ∙ contains-Permᴰ id h

erase_cons-Permᴰ :
    (id : ℕ) {a b : ℕ} {xs ys : List ℕ}
    → a ≡ b
    → Permᴰ xs ys
    → Permᴰ (erase id xs) (erase id ys)
    → Permᴰ (erase id (a ∷ xs)) (erase id (b ∷ ys))
unfolding erase
erase_cons-Permᴰ id {a} {b} e h rest = elim (Bool-cases (a == id)) [
  | inl t ↦ rw (sym e, t) h
  | inr t ↦ rw (sym e, t) (Permᴰ.cons refl rest)
]

either_erased :
    (p q : Bool) (a b : ℕ) (xs ys : List ℕ)
    → (p ≡ true → q ≡ true → a ≡ b)
    → Permᴰ
        (if p then b ∷ xs else a ∷ (if q then xs else b ∷ ys))
        (if q then a ∷ xs else b ∷ (if p then xs else a ∷ ys))
either_erased true true a b xs ys same = Permᴰ.cons (sym (same refl refl)) (Permᴰ.refl xs)
either_erased true false a b xs ys same = Permᴰ.refl (b ∷ xs)
either_erased false true a b xs ys same = Permᴰ.refl (a ∷ xs)
either_erased false false a b xs ys same = Permᴰ.swap refl refl

erase_swap-Permᴰ :
    (id a b : ℕ) (xs : List ℕ) → Permᴰ (erase id (a ∷ b ∷ xs)) (erase id (b ∷ a ∷ xs))
unfolding erase
erase_swap-Permᴰ id a b xs =
    either_erased (a == id) (b == id) a b xs (erase id xs) (λ p q. ground (arith, p, q))

pub erase-Permᴰ : (id : ℕ) {xs ys : List ℕ} → Permᴰ xs ys → Permᴰ (erase id xs) (erase id ys)
unfolding erase
erase-Permᴰ id Permᴰ.nil = Permᴰ.nil
erase-Permᴰ id (Permᴰ.cons e h) = erase_cons-Permᴰ id e h (erase-Permᴰ id h)
erase-Permᴰ id (Permᴰ.swap {a} {b} {l = l} e f) = rw (sym e, sym f) (erase_swap-Permᴰ id a b l)
erase-Permᴰ id (Permᴰ.trans g h) = Permᴰ.trans (erase-Permᴰ id g) (erase-Permᴰ id h)

pub length-Permᴰ : {xs ys : List ℕ} → Permᴰ xs ys → length xs ≡ length ys
length-Permᴰ Permᴰ.nil = refl
length-Permᴰ (Permᴰ.cons e h) = ap suc (length-Permᴰ h)
length-Permᴰ (Permᴰ.swap e f) = refl
length-Permᴰ (Permᴰ.trans g h) = length-Permᴰ g ∙ length-Permᴰ h

pub contains-erase-ne :
    (i j : ℕ) (xs : List ℕ) → i == j ≡ false → contains j (erase i xs) ≡ contains j xs
unfolding contains erase
contains-erase-ne i j [] n = refl
contains-erase-ne i j (x ∷ xs) n = ground (arith, contains-erase-ne i j xs n)

pub erase_comm : (i j : ℕ) (xs : List ℕ) → erase i (erase j xs) ≡ erase j (erase i xs)
unfolding erase
erase_comm i j [] = refl
erase_comm i j (x ∷ xs) = ground (arith, erase_comm i j xs)
