-- ===== src/Publisher/Message.antt =====
-- Publisher_Impl::send: the message that is built from the payloads in a buffer of the pool.
pub mod Content
use tcp_pubsub.Base.{
  ltb, if◌then◌else◌, length, take, ℕ, zero, suc, ◌+◌, ◌%◌, ◌^◌, ◌≡◌, Option, none, some, List, [],
  ◌∷◌, ◌++◌,
}
use tcp_pubsub.Wire.Endian.{Host}
use tcp_pubsub.Wire.Header.{write_at, regular_payload, sizeof_header, fill_header}

-- std::pair<const char* const, const size_t>: the memory behind the pointer, or nullptr, and a size.
pub record Payload : Type 0 where
  pub first : Option (List ℕ)
  pub second : ℕ

abbrev pub size_t_mod : ℕ
size_t_mod = 2 ^ 64

-- The loop that adds up the sizes, in size_t.
unfoldable pub entire_payload_size : ℕ → List Payload → ℕ
entire_payload_size total [] = total
entire_payload_size total (p ∷ ps) = entire_payload_size ((total + p.second) % size_t_mod) ps

-- std::vector<char>::resize: what stays in range is kept, new bytes are 0.
unfoldable pub resize : ℕ → List ℕ → List ℕ
resize zero bytes = []
resize (suc n) [] = 0 ∷ resize n []
resize (suc n) (b ∷ bytes) = b ∷ resize n bytes

-- `if ((payload.first != nullptr) && (payload.second > 0)) memcpy(...)`; `memcpy` reads as many
-- bytes as the size says.
unfoldable pub copy_payload : Option (List ℕ) → ℕ → ℕ → List ℕ → List ℕ
unfolding write_at
copy_payload none size position buffer = buffer
copy_payload (some memory) size position buffer =
    if ltb 0 size then write_at position (take size memory) buffer else buffer

-- current_position after a payload
unfoldable pub next_position : Option (List ℕ) → ℕ → ℕ → ℕ
next_position none size position = position
next_position (some memory) size position = if ltb 0 size then position + size else position

-- The loop that copies the payloads.
unfoldable pub copy_payloads : List Payload → ℕ → List ℕ → List ℕ
unfolding copy_payload next_position
copy_payloads [] position buffer = buffer
copy_payloads (p ∷ ps) position buffer =
    copy_payloads ps (next_position p.first p.second position)
      (copy_payload p.first p.second position buffer)

-- The buffer of one message. `stale` is what the buffer from the pool holds; its capacity, which
-- is reserved with a tenth to spare, has no effect on the contents.
unfoldable pub prepare_buffer : Host → List ℕ → List Payload → List ℕ
unfolding entire_payload_size resize fill_header copy_payloads
prepare_buffer h stale payloads =
    let payload_size = entire_payload_size 0 payloads in
    let complete_size = (sizeof_header + payload_size) % size_t_mod in
    let buffer = resize complete_size stale in
    copy_payloads payloads sizeof_header (fill_header h regular_payload payload_size buffer)

-- What the caller gives: no null pointer, and each size is that of the memory.
abbrev pub IsGiven : Payload → List ℕ → Type 0
IsGiven p bytes = (p.first ≡ some bytes) × (p.second ≡ length bytes)

pub data AllGiven : List Payload → List ℕ → Type 0 where
  nil : AllGiven [] []
  cons :
      {p : Payload} {ps : List Payload} {bytes rest : List ℕ}
      → IsGiven p bytes
      → AllGiven ps rest
      → AllGiven (p ∷ ps) (bytes ++ rest)
