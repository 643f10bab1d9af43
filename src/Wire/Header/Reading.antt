-- ===== src/Wire/Header/Reading.antt =====
-- How much of a stream the two sessions read for a header, and what they then have in memory.
use tcp_pubsub.Base.{
  ltb, ◌==◌, take, drop, ℕ, ◌+◌, ◌^◌, ◌≤◌, ◌<◌, ◌≡◌, refl, false, List, ◌∷◌, arith,
}
use tcp_pubsub.Wire.Endian.{Host, little_endian, big_endian, le_bytes, load, bswap, letoh}
use tcp_pubsub.Wire.Header.Fields.{
  write_at, TcpHeader, sizeof_header, sizeof_header_size, new_header, header_size_raw, header_size,
  bytes_to_read_from_socket, bytes_to_discard_from_socket, data_size_raw, data_size, encode_header,
}
use tcp_pubsub.Wire.Header.Laws.{encode_header_fields}

-- On a little-endian host a header that passes the length check is read within the 12 bytes of
-- the object, and with what is discarded exactly its header_size bytes are taken off the stream.
pub read_content_bounds :
    (m : TcpHeader)
    → header_size little_endian m < 2 ^ 16
    → ltb (header_size_raw little_endian m) sizeof_header_size ≡ false
    → (sizeof_header_size + bytes_to_read_from_socket little_endian m ≤ sizeof_header)
      × (sizeof_header_size
            + bytes_to_read_from_socket little_endian m
            + bytes_to_discard_from_socket little_endian m
          ≡ header_size little_endian m)
unfolding bytes_to_read_from_socket bytes_to_discard_from_socket letoh
read_content_bounds m fits passed = ground arith

-- On a big-endian host the length check compares the bytes in the wrong order. A header that
-- gives its length as 1 passes it, and 65535 bytes are read into an object with room for 10.
big_endian_overread :
    (rest : List ℕ)
    → let m = 1 ∷ 0 ∷ rest in
      (header_size big_endian m ≡ 1)
      × (ltb (header_size_raw big_endian m) sizeof_header_size ≡ false)
      × (bytes_to_read_from_socket big_endian m ≡ 65535)
unfolding bytes_to_read_from_socket letoh bswap load
big_endian_overread rest = (refl, refl, refl)

-- The two reads of a header put the bytes of an encoded header into a new object.
pub assembled_header :
    (type size : ℕ)
    → write_at sizeof_header_size
        (drop 2 (encode_header type size))
        (write_at 0 (take 2 (encode_header type size)) new_header)
      ≡ encode_header type size
unfolding write_at encode_header le_bytes
assembled_header type size = refl

-- Of an encoded header ten more bytes are read after the length, and none are discarded.
pub encoded_lengths :
    (h : Host) (type size : ℕ)
    → let m = write_at 0 (take 2 (encode_header type size)) new_header in
      (ltb (header_size_raw h m) sizeof_header_size ≡ false)
      × (bytes_to_read_from_socket h m ≡ 10)
      × (bytes_to_discard_from_socket h m ≡ 0)
unfolding bytes_to_read_from_socket bytes_to_discard_from_socket letoh bswap load write_at
    encode_header le_bytes
encoded_lengths little_endian type size = (refl, refl, refl)
encoded_lengths big_endian type size = (refl, refl, refl)

letoh-zero : (h : Host) → letoh h 8 0 ≡ 0
unfolding letoh bswap
letoh-zero little_endian = refl
letoh-zero big_endian = refl

-- The check `header->data_size == 0` looks at the number before the byte order is undone.
pub data_size_raw-eq_zero :
    (h : Host) (type size : ℕ)
    → size < 2 ^ 64
    → 0 < size
    → (data_size_raw h (encode_header type size) == 0) ≡ false
unfolding data_size
data_size_raw-eq_zero h type size fits some_data =
    ground (arith, (encode_header_fields h type size fits).2, letoh-zero h)
