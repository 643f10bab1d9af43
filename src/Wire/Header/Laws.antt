-- ===== src/Wire/Header/Laws.antt =====
-- What is written into a header is read from it again, whatever the byte order of either host.
use tcp_pubsub.Base.{
  ℕ, zero, suc, ◌^◌, ◌<◌, ◌≡◌, refl, ap, ◌∙◌, List, [], ◌∷◌, ◌++◌, take, length, take-append, arith,
}
use tcp_pubsub.Wire.Endian.{
  Host, le_bytes, store-htole, letoh-load, length-le_bytes, le_bytes-IsByte, le_value-le_bytes,
}
use tcp_pubsub.Wire.Header.Fields.{
  write_at, sizeof_header, new_header, protocol_handshake, header_size, type_of, data_size,
  fill_header, handshake_buffer, encode_header,
}

pub length-write_at : (i : ℕ) (bs xs : List ℕ) → length (write_at i bs xs) ≡ length xs
unfolding write_at
length-write_at zero [] xs = refl
length-write_at zero (b ∷ bs) [] = refl
length-write_at zero (b ∷ bs) (x ∷ xs) = ap suc (length-write_at zero bs xs)
length-write_at (suc i) bs [] = refl
length-write_at (suc i) bs (x ∷ xs) = ap suc (length-write_at i bs xs)

-- A write that starts behind a prefix leaves the prefix alone.
pub write_at-append :
    (i : ℕ) (bs pre xs : List ℕ)
    → length pre ≡ i
    → write_at i bs (pre ++ xs) ≡ pre ++ write_at 0 bs xs
unfolding write_at
write_at-append zero bs [] xs e = refl
write_at-append zero bs (p ∷ pre) xs e = absurd (omega arith)
write_at-append (suc i) bs [] xs e = absurd (omega arith)
write_at-append (suc i) bs (p ∷ pre) xs e = ap (◌∷◌ p) (write_at-append i bs pre xs (omega arith))

-- A write over as many bytes as it has replaces just these.
pub write_at_prefix :
    (bs old xs : List ℕ) → length old ≡ length bs → write_at 0 bs (old ++ xs) ≡ bs ++ xs
unfolding write_at
write_at_prefix [] [] xs e = refl
write_at_prefix [] (o ∷ old) xs e = absurd (omega arith)
write_at_prefix (b ∷ bs) [] xs e = absurd (omega arith)
write_at_prefix (b ∷ bs) (o ∷ old) xs e = ap (◌∷◌ b) (write_at_prefix bs old xs (omega arith))

-- Filling the header overwrites twelve bytes, whatever they were, and leaves the rest.
pub fill_header-eq :
    (h : Host) (type size : ℕ) (old rest : List ℕ)
    → length old ≡ sizeof_header
    → fill_header h type size (old ++ rest) ≡ encode_header type size ++ rest
unfolding fill_header encode_header write_at le_bytes
fill_header-eq h type size (a ∷ b ∷ c ∷ d ∷ old) rest e =
    rw (store-htole h 2 sizeof_header, store-htole h 8 size)
      (ap (λ l. 12 ∷ 0 ∷ type ∷ 0 ∷ l)
        (write_at_prefix (le_bytes 8 size) old rest (omega (arith, length-le_bytes 8 size))))
fill_header-eq h type size _ rest e = absurd (omega arith)

pub length-encode_header : (type size : ℕ) → length (encode_header type size) ≡ sizeof_header
unfolding encode_header le_bytes
length-encode_header type size = refl

pub type_of-encode_header : (type size : ℕ) → type_of (encode_header type size) ≡ type
unfolding type_of encode_header le_bytes
type_of-encode_header type size = refl

-- The fields of an encoded header, as a host of either byte order reads them.
pub encode_header_fields :
    (h : Host) (type size : ℕ)
    → size < 2 ^ 64
    → (header_size h (encode_header type size) ≡ sizeof_header)
      × (type_of (encode_header type size) ≡ type)
      × (data_size h (encode_header type size) ≡ size)
unfolding header_size type_of data_size encode_header le_bytes
encode_header_fields h type size fits = (
  letoh-load h (le_bytes 2 sizeof_header) refl (le_bytes-IsByte 2 sizeof_header)
      ∙ le_value-le_bytes 2 sizeof_header (omega arith),
  refl,
  letoh-load h (le_bytes 8 size) refl (le_bytes-IsByte 8 size) ∙ le_value-le_bytes 8 size fits,
)

-- Reading a header back from a filled buffer gives what was filled in, on any pair of hosts.
pub fill_header_fields :
    (sender receiver : Host) (type size : ℕ) (old rest : List ℕ)
    → length old ≡ sizeof_header
    → size < 2 ^ 64
    → let m = take sizeof_header (fill_header sender type size (old ++ rest)) in
      (header_size receiver m ≡ sizeof_header) × (type_of m ≡ type) × (data_size receiver m ≡ size)
fill_header_fields sender receiver type size old rest e fits =
    rw
      (
        fill_header-eq sender type size old rest e,
        take-append sizeof_header (encode_header type size) rest (length-encode_header type size),
      )
      (encode_header_fields receiver type size fits)

-- The handshake message is its header and one byte, the protocol version 0.
pub handshake_buffer-eq :
    (h : Host) → handshake_buffer h ≡ encode_header protocol_handshake 1 ++ 0 ∷ []
unfolding handshake_buffer encode_header le_bytes
handshake_buffer-eq h =
    ap (write_at sizeof_header (0 ∷ []))
      (fill_header-eq h protocol_handshake 1 new_header (0 ∷ []) refl)
    ∙ write_at-append sizeof_header (0 ∷ []) (encode_header protocol_handshake 1) (0 ∷ []) refl
