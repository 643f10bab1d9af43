-- ===== src/Publisher/Message/Content.antt =====
-- Publisher_Impl::send: what the bytes of a prepared buffer are.
use tcp_pubsub.Base.{
  length, take, drop, length-append, take-append-drop, length-take, length-drop, ℕ, zero, suc, ◌+◌,
  ◌%◌, ◌≤◌, ◌<◌, ◌≡◌, refl, sym, ap, ◌∙◌, none, some, List, [], ◌∷◌, ◌++◌, append-nil, append_assoc,
  arith, lt→ltb,
}
use tcp_pubsub.Wire.Endian.{Host}
use tcp_pubsub.Wire.Header.{
  write_at, regular_payload, sizeof_header, fill_header, encode_header, write_at-append,
  write_at_prefix, fill_header-eq, length-encode_header,
}
use tcp_pubsub.Publisher.Message.{
  Payload, size_t_mod, entire_payload_size, resize, copy_payload, next_position, copy_payloads,
  prepare_buffer, AllGiven, nil, cons,
}

length-resize : (n : ℕ) (bytes : List ℕ) → length (resize n bytes) ≡ n
unfolding resize
length-resize zero bytes = refl
length-resize (suc n) [] = ap suc (length-resize n [])
length-resize (suc n) (b ∷ bytes) = ap suc (length-resize n bytes)

take_all : (bytes : List ℕ) → take (length bytes) bytes ≡ bytes
take_all [] = refl
take_all (b ∷ bytes) = ap (◌∷◌ b) (take_all bytes)

-- Copying one payload behind what is already in place.
copy_given :
    (bytes ready old : List ℕ) (position : ℕ)
    → length ready ≡ position
    → length bytes ≤ length old
    → copy_payload (some bytes) (length bytes) position (ready ++ old)
      ≡ (ready ++ bytes) ++ drop (length bytes) old
unfolding copy_payload
copy_given [] ready old position at room = rw append-nil
copy_given (b ∷ bytes) ready old position at room =
    let n = length (b ∷ bytes) in
    rw (take_all bytes, lt→ltb 0 n (omega arith), write_at-append position (b ∷ bytes) ready old at)
      (ap (◌++◌ ready) (
          ap (write_at 0 (b ∷ bytes)) (sym (take-append-drop n old))
          ∙ write_at_prefix (b ∷ bytes) (take n old) (drop n old)
              (omega (arith, length-take n old)))
        ∙ sym (append_assoc ready (b ∷ bytes) (drop n old)))

next_given :
    (bytes : List ℕ) (position : ℕ)
    → next_position (some bytes) (length bytes) position ≡ position + length bytes
unfolding next_position
next_given bytes position = ground arith

size_of_given :
    {ps : List Payload} {bytes : List ℕ} (total : ℕ)
    → AllGiven ps bytes
    → total + length bytes < size_t_mod
    → entire_payload_size total ps ≡ total + length bytes
unfolding entire_payload_size
size_of_given total nil fits = omega arith
size_of_given total (cons {p} {ps} {bytes} {rest} g gs) fits =
    let sum = length-append bytes rest in
    let here : (total + p.second) % size_t_mod ≡ total + length bytes = omega (arith, g.1) in
    rw here (
      size_of_given (total + length bytes) gs (omega (arith, length-append bytes rest))
      ∙ omega (arith, length-append bytes rest))

copied :
    {ps : List Payload} {bytes : List ℕ} (ready old : List ℕ) (position : ℕ)
    → AllGiven ps bytes
    → length ready ≡ position
    → length old ≡ length bytes
    → copy_payloads ps position (ready ++ old) ≡ ready ++ bytes
unfolding copy_payloads
copied ready [] position nil at same = refl
copied ready (o ∷ old) position nil at same = absurd (omega arith)
copied ready old position (cons {p} {ps} {bytes} {rest} g gs) at same =
    let n = length bytes in
    let sum = length-append bytes rest in
    rw (g.0, g.1, next_given bytes position, copy_given bytes ready old position at (omega arith))
      (copied (ready ++ bytes) (drop n old) (position + n) gs
          (omega (arith, length-append ready bytes)) (omega (arith, length-drop n old))
        ∙ append_assoc ready bytes rest)

filled :
    (h : Host) (type size n : ℕ) (stale : List ℕ)
    → fill_header h type size (resize (sizeof_header + n) stale)
      ≡ encode_header type size ++ drop sizeof_header (resize (sizeof_header + n) stale)
filled h type size n stale =
    let buffer = resize (sizeof_header + n) stale in
    ap (fill_header h type size) (sym (take-append-drop sizeof_header buffer))
    ∙ fill_header-eq h type size (take sizeof_header buffer) (drop sizeof_header buffer)
        (omega (arith, length-take sizeof_header buffer, length-resize (sizeof_header + n) stale))

-- With payloads that all are given, the message is a little-endian header with their total size
-- and then their bytes in order; nothing of what the pool's buffer held before is left in it.
pub prepare_buffer-eq :
    (h : Host) (stale : List ℕ) {ps : List Payload} {bytes : List ℕ}
    → AllGiven ps bytes
    → sizeof_header + length bytes < size_t_mod
    → prepare_buffer h stale ps ≡ encode_header regular_payload (length bytes) ++ bytes
unfolding prepare_buffer
prepare_buffer-eq h stale {ps} {bytes} gs fits =
    let n = length bytes in
    let whole : (sizeof_header + n) % size_t_mod ≡ sizeof_header + n = omega arith in
    let size : entire_payload_size 0 ps ≡ n = size_of_given 0 gs (omega arith) ∙ omega arith in
    rw (size, whole, filled h regular_payload n n stale)
      (copied (encode_header regular_payload n)
        (drop sizeof_header (resize (sizeof_header + n) stale)) sizeof_header gs
        (length-encode_header regular_payload n)
        (omega (
          arith,
          length-drop sizeof_header (resize (sizeof_header + n) stale),
          length-resize (sizeof_header + n) stale,
        )))

resize_shorter : (n : ℕ) (bytes : List ℕ) → n ≤ length bytes → resize n bytes ≡ take n bytes
unfolding resize
resize_shorter zero bytes h = refl
resize_shorter (suc n) [] h = absurd (omega arith)
resize_shorter (suc n) (b ∷ bytes) h = ap (◌∷◌ b) (resize_shorter n bytes (omega arith))

take-nil : (n : ℕ) → [] ≡ take {A = ℕ} n []
take-nil zero = refl
take-nil (suc n) = refl

drop-take :
    (k n : ℕ) {m : ℕ} (bytes : List ℕ) → m ≡ k + n → drop k (take m bytes) ≡ take n (drop k bytes)
drop-take zero n bytes e = ap (λ l. take l bytes) (e ∙ omega arith)
drop-take (suc k) n {m = zero} bytes e = absurd (omega arith)
drop-take (suc k) n {m = suc m} [] e = take-nil n
drop-take (suc k) n {m = suc m} (b ∷ bytes) e = drop-take k n bytes (omega arith)

-- A null pointer with a size is counted and not copied: the message carries bytes that the pool's
-- buffer was left with.
pub null_payload_leaks :
    (h : Host) (stale : List ℕ) (n : ℕ)
    → sizeof_header + n ≤ length stale
    → sizeof_header + n < size_t_mod
    → prepare_buffer h stale (record { first = none; second = n } ∷ [])
      ≡ encode_header regular_payload n ++ take n (drop sizeof_header stale)
unfolding prepare_buffer entire_payload_size copy_payloads
null_payload_leaks h stale n enough fits =
    let size : (0 + n) % size_t_mod ≡ n = omega arith in
    let whole : (sizeof_header + n) % size_t_mod ≡ sizeof_header + n = omega arith in
    rw (size, whole, filled h regular_payload n n stale)
      (ap (◌++◌ (encode_header regular_payload n)) (
        ap (drop sizeof_header) (resize_shorter (sizeof_header + n) stale enough)
        ∙ drop-take sizeof_header n stale refl))
