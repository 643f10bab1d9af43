-- ===== src/Base/Ids.antt =====
-- Lists of numbered objects, each in it at most once: std::find and erase of what it found.
-- std::find against the end of the list
pub mod Order
use tcp_pubsub.Base.{
  ◌==◌, if◌then◌else◌, get_elem?, remove_at, ℕ, zero, suc, ◌≡◌, refl, Bool, true, false, ◌||◌, some,
  List, [], ◌∷◌, ◌++◌, arith,
}

unfoldable pub contains : ℕ → List ℕ → Bool
contains id [] = false
contains id (x ∷ xs) = x == id || contains id xs

-- erase of what std::find found
unfoldable pub erase : ℕ → List ℕ → List ℕ
erase id [] = []
erase id (x ∷ xs) = if x == id then xs else x ∷ erase id xs

-- No number is twice in the list.
abbrev pub Distinct : List ℕ → Type 0
Distinct [] = Unit
Distinct (x ∷ xs) = (contains x xs ≡ false) × Distinct xs

pub contains-erase :
    (i j : ℕ) (xs : List ℕ)
    → Distinct xs
    → contains j (erase i xs) ≡ (if i == j then false else contains j xs)
unfolding contains erase
contains-erase i j [] d = ground arith
contains-erase i j (x ∷ xs) d = ground (arith, contains-erase i j xs d.1)

pub erase-absent : (i : ℕ) (xs : List ℕ) → contains i xs ≡ false → erase i xs ≡ xs
unfolding contains erase
erase-absent i [] n = refl
erase-absent i (x ∷ xs) n = ground (arith, erase-absent i xs)

pub erase-Distinct : (i : ℕ) (xs : List ℕ) → Distinct xs → Distinct (erase i xs)
unfolding contains erase
erase-Distinct i [] d = tt
erase-Distinct i (x ∷ xs) d = ground (arith, contains-erase i x xs d.1, erase-Distinct i xs d.1)

pub contains-append :
    (j : ℕ) (xs ys : List ℕ) → contains j (xs ++ ys) ≡ contains j xs || contains j ys
unfolding contains
contains-append j [] ys = refl
contains-append j (x ∷ xs) ys = ground (arith, contains-append j xs ys)

pub append-Distinct :
    (xs : List ℕ) (y : ℕ) → Distinct xs → contains y xs ≡ false → Distinct (xs ++ y ∷ [])
unfolding contains
append-Distinct [] y d n = (refl, tt)
append-Distinct (x ∷ xs) y d n =
    ground (arith, contains-append x xs (y ∷ []), append-Distinct xs y d.1)

pub contains-get : (xs : List ℕ) (i : ℕ) {x : ℕ} → get_elem? xs i ≡ some x → contains x xs ≡ true
unfolding contains
contains-get [] i e = ground arith
contains-get (x ∷ xs) zero e = ground arith
contains-get (x ∷ xs) (suc i) e = ground (arith, contains-get xs i e)

pub contains-remove_at :
    (xs : List ℕ) (i : ℕ) {x : ℕ} (j : ℕ)
    → Distinct xs
    → get_elem? xs i ≡ some x
    → contains j (remove_at xs i) ≡ (if x == j then false else contains j xs)
unfolding contains
contains-remove_at [] i j d e = ground arith
contains-remove_at (x ∷ xs) zero j d e = ground arith
contains-remove_at (x ∷ xs) (suc i) j d e =
    ground (arith, contains-remove_at xs i j d.1 e, contains-get xs i e)

pub not-contains-remove_at :
    (x : ℕ) (xs : List ℕ) (i : ℕ) → contains x xs ≡ false → contains x (remove_at xs i) ≡ false
unfolding contains
not-contains-remove_at x [] i h = h
not-contains-remove_at x (y ∷ xs) zero h = ground arith
not-contains-remove_at x (y ∷ xs) (suc i) h = ground (arith, not-contains-remove_at x xs i)

pub remove_at-Distinct : (xs : List ℕ) (i : ℕ) → Distinct xs → Distinct (remove_at xs i)
unfolding contains
remove_at-Distinct [] i d = tt
remove_at-Distinct (x ∷ xs) zero d = d.1
remove_at-Distinct (x ∷ xs) (suc i) d =
    (not-contains-remove_at x xs i d.0, remove_at-Distinct xs i d.1)
