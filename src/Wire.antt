-- ===== src/Wire.antt =====
-- The wire format: byte order, and the header that stands before each message
-- (tcp_pubsub/src/portable_endian.h, tcp_header.h, protocol_handshake_message.h).
pub mod Endian
pub mod Header
mod Examples
