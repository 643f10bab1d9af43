-- ===== src/Wire/Endian.antt =====
-- tcp_pubsub/src/portable_endian.h: numbers as bytes in memory, on hosts of either byte order.
use native.Mathlib.Nat.{pow-suc}
use tcp_pubsub.Base.{
  ℕ, zero, suc, ◌+◌, ◌*◌, ◌/◌, ◌%◌, ◌^◌, ◌<◌, ◌≡◌, refl, sym, ap, ap₂, ◌∙◌, List, [], ◌∷◌, reverse,
  reverse-reverse, length, length-reverse, All, All-reverse, arith,
}

-- __BYTE_ORDER of the machine that runs the code
pub data Host : Type 0 where
  little_endian big_endian : Host

abbrev pub IsByte : ℕ → Type 0
IsByte b = b < 256

-- The number that a run of bytes stands for, its lowest byte first.
unfoldable pub le_value : List ℕ → ℕ
le_value [] = 0
le_value (b ∷ bs) = b + 256 * le_value bs

-- The n lowest bytes of a number, the lowest first.
unfoldable pub le_bytes : ℕ → ℕ → List ℕ
le_bytes zero x = []
le_bytes (suc n) x = (x % 256) ∷ le_bytes n (x / 256)

-- Reading a number from memory, in the host's byte order.
unfoldable pub load : Host → List ℕ → ℕ
unfolding le_value
load little_endian bs = le_value bs
load big_endian bs = le_value (reverse bs)

-- Writing an n-byte number to memory, in the host's byte order.
unfoldable pub store : Host → ℕ → ℕ → List ℕ
unfolding le_bytes
store little_endian n x = le_bytes n x
store big_endian n x = reverse (le_bytes n x)

-- __builtin_bswap16 and __builtin_bswap64, for n of 2 and 8.
unfoldable pub bswap : ℕ → ℕ → ℕ
unfolding le_value le_bytes
bswap n x = le_value (reverse (le_bytes n x))

-- htole16 and htole64, for n of 2 and 8.
unfoldable pub htole : Host → ℕ → ℕ → ℕ
unfolding bswap
htole little_endian n x = x
htole big_endian n x = bswap n x

-- le16toh and le64toh, for n of 2 and 8.
unfoldable pub letoh : Host → ℕ → ℕ → ℕ
unfolding bswap
letoh little_endian n x = x
letoh big_endian n x = bswap n x

pub length-le_bytes : (n x : ℕ) → length (le_bytes n x) ≡ n
unfolding le_bytes
length-le_bytes zero x = refl
length-le_bytes (suc n) x = ap suc (length-le_bytes n (x / 256))

pub le_bytes-IsByte : (n x : ℕ) → All IsByte (le_bytes n x)
unfolding le_bytes
le_bytes-IsByte zero x = tt
le_bytes-IsByte (suc n) x = (omega arith, le_bytes-IsByte n (x / 256))

pub le_bytes-le_value : (bs : List ℕ) → All IsByte bs → le_bytes (length bs) (le_value bs) ≡ bs
unfolding le_bytes le_value
le_bytes-le_value [] h = refl
le_bytes-le_value (b ∷ bs) (hb, hs) =
    ap₂ ◌∷◌ low (ap (le_bytes (length bs)) high ∙ le_bytes-le_value bs hs)
  where
    low : (b + 256 * le_value bs) % 256 ≡ b
    low = omega arith

    high : (b + 256 * le_value bs) / 256 ≡ le_value bs
    high = omega arith

pub le_value-le_bytes : (n x : ℕ) → x < 256 ^ n → le_value (le_bytes n x) ≡ x
unfolding le_bytes le_value
le_value-le_bytes zero x h = omega arith
le_value-le_bytes (suc n) x h =
    omega (arith, le_value-le_bytes n (x / 256) (omega (arith, pow-suc 256 n)))

-- What is written after `htole` is the little-endian form, on every host.
pub store-htole : (h : Host) (n x : ℕ) → store h n (htole h n x) ≡ le_bytes n x
unfolding store htole bswap
store-htole little_endian n x = refl
store-htole big_endian n x =
    ap reverse (
      ap (λ k. le_bytes k (le_value (reverse (le_bytes n x)))) (sym size)
      ∙ le_bytes-le_value (reverse (le_bytes n x)) (All-reverse IsByte _ (le_bytes-IsByte n x)))
    ∙ reverse-reverse (le_bytes n x)
  where
    size : length (reverse (le_bytes n x)) ≡ n
    size = length-reverse (le_bytes n x) ∙ length-le_bytes n x

-- What `letoh` makes of a number in memory is what its bytes stand for in little-endian order.
pub letoh-load :
    (h : Host) (bs : List ℕ) {n : ℕ}
    → length bs ≡ n
    → All IsByte bs
    → letoh h n (load h bs) ≡ le_value bs
unfolding load letoh bswap
letoh-load little_endian bs e hs = refl
letoh-load big_endian bs {n} e hs =
    ap (λ l. le_value (reverse l))
      (ap (λ k. le_bytes k (le_value (reverse bs))) (sym (length-reverse bs ∙ e))
        ∙ le_bytes-le_value (reverse bs) (All-reverse IsByte bs hs))
    ∙ ap le_value (reverse-reverse bs)
