-- ===== src/Wire/Examples.antt =====
-- The theorems on headers, at small inputs.
use tcp_pubsub.Base.{take, replicate, ℕ, ◌+◌, ◌≤◌, ◌≡◌, refl, List, [], ◌∷◌, ◌++◌, arith}
use tcp_pubsub.Wire.Endian.{little_endian, big_endian, load, letoh}
use tcp_pubsub.Wire.Header.{
  header_size, bytes_to_read_from_socket, bytes_to_discard_from_socket, type_of, data_size,
  fill_header, fill_header_fields, read_content_bounds,
}

-- A header of 300 bytes, of which 12 are known.
abbrev long_header : List ℕ
long_header = 44 ∷ 1 ∷ replicate 10 0

fill_header_fields_example :
    let m = take 12 (fill_header little_endian 1 7 (replicate 12 9 ++ 5 ∷ [])) in
    (header_size big_endian m ≡ 12) × (type_of m ≡ 1) × (data_size big_endian m ≡ 7)
fill_header_fields_example =
    fill_header_fields little_endian big_endian 1 7 (replicate 12 9) (5 ∷ []) refl (omega arith)

read_content_bounds_example :
    (2 + bytes_to_read_from_socket little_endian long_header ≤ 12)
    × (2
          + bytes_to_read_from_socket little_endian long_header
          + bytes_to_discard_from_socket little_endian long_header
        ≡ header_size little_endian long_header)
unfolding header_size letoh load
read_content_bounds_example = read_content_bounds long_header (omega arith) refl
