-- ===== src/Wire/Header/Fields.antt =====
-- The fields of a TcpHeader in memory, and the code that fills one at the front of a buffer.
use tcp_pubsub.Base.{
  ℕ, zero, suc, ◌+◌, List, [], ◌∷◌, ◌++◌, take, drop, get_or, replicate, ltb, if◌then◌else◌, ◌-◌,
  ◌%◌, ◌^◌, min,
}
use tcp_pubsub.Wire.Endian.{Host, load, store, htole, letoh, le_bytes}

-- Copying bytes to an offset of a block of memory. What would fall behind its end is lost.
unfoldable pub write_at : ℕ → List ℕ → List ℕ → List ℕ
write_at zero [] xs = xs
write_at zero (b ∷ bs) [] = []
write_at zero (b ∷ bs) (x ∷ xs) = b ∷ write_at zero bs xs
write_at (suc i) bs [] = []
write_at (suc i) bs (x ∷ xs) = x ∷ write_at i bs xs

-- The bytes of a TcpHeader object, 12 of them.
abbrev pub TcpHeader : Type 0
TcpHeader = List ℕ

-- MessageContentType
abbrev pub regular_payload : ℕ
regular_payload = 0

abbrev pub protocol_handshake : ℕ
protocol_handshake = 1

-- sizeof(TcpHeader), sizeof(header->header_size), sizeof(ProtocolHandshakeMessage)
abbrev pub sizeof_header : ℕ
sizeof_header = 12

abbrev pub sizeof_header_size : ℕ
sizeof_header_size = 2

abbrev pub sizeof_handshake : ℕ
sizeof_handshake = 1

-- std::make_shared<TcpHeader>(): every field starts as 0.
abbrev pub new_header : TcpHeader
new_header = replicate sizeof_header 0

-- header->header_size, as the processor reads it
unfoldable pub header_size_raw : Host → TcpHeader → ℕ
header_size_raw h m = load h (take 2 m)

-- le16toh(header->header_size)
unfoldable pub header_size : Host → TcpHeader → ℕ
unfolding header_size_raw
header_size h m = letoh h 2 (header_size_raw h m)

-- std::min(remote_header_size, my_header_size) - sizeof(header->header_size), computed in size_t
-- and stored in a uint16_t.
unfoldable pub bytes_to_read_from_socket : Host → TcpHeader → ℕ
unfolding header_size
bytes_to_read_from_socket h header =
    (min (header_size h header) sizeof_header + 2 ^ 64 - sizeof_header_size) % 2 ^ 64 % 2 ^ 16

unfoldable pub bytes_to_discard_from_socket : Host → TcpHeader → ℕ
unfolding header_size
bytes_to_discard_from_socket h header =
    if ltb sizeof_header (header_size h header) then header_size h header - sizeof_header else 0

-- header->type
unfoldable pub type_of : TcpHeader → ℕ
type_of m = get_or m 2 0

-- header->data_size, as the processor reads it
unfoldable pub data_size_raw : Host → TcpHeader → ℕ
data_size_raw h m = load h (take 8 (drop 4 m))

-- le64toh(header->data_size)
unfoldable pub data_size : Host → TcpHeader → ℕ
unfolding data_size_raw
data_size h m = letoh h 8 (data_size_raw h m)

-- The four assignments through `TcpHeader*` at the front of a buffer.
unfoldable pub fill_header : Host → ℕ → ℕ → List ℕ → List ℕ
unfolding write_at
fill_header h type size buffer =
    let sized = write_at 0 (store h 2 (htole h 2 sizeof_header)) buffer in
    let typed = write_at 2 (type ∷ []) sized in
    let reserved = write_at 3 (0 ∷ []) typed in write_at 4 (store h 8 (htole h 8 size)) reserved

-- The buffer of sendProtocolHandshakeResponse and sendProtokolHandshakeRequest.
unfoldable pub handshake_buffer : Host → List ℕ
unfolding fill_header
handshake_buffer h =
    let buffer = replicate (sizeof_header + sizeof_handshake) 0 in
    write_at sizeof_header (0 ∷ []) (fill_header h protocol_handshake sizeof_handshake buffer)

-- The header as the protocol describes it: little-endian on every host.
unfoldable pub encode_header : ℕ → ℕ → List ℕ
encode_header type size = le_bytes 2 sizeof_header ++ type ∷ 0 ∷ le_bytes 8 size
