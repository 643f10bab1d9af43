-- ===== src/Wire/Header.antt =====
-- tcp_pubsub/src/tcp_header.h and protocol_handshake_message.h. An object of a packed struct is
-- its bytes: TcpHeader has header_size at 0, type at 2, reserved at 3 and data_size at 4.
mod Laws
mod Reading
mod Fields
unfoldable pub use Fields.{
  write_at, TcpHeader, regular_payload, protocol_handshake, sizeof_header, sizeof_header_size,
  sizeof_handshake, new_header, header_size_raw, header_size, bytes_to_read_from_socket,
  bytes_to_discard_from_socket, type_of, data_size_raw, data_size, fill_header, handshake_buffer,
  encode_header,
}
pub use Laws.{
  length-write_at, write_at-append, write_at_prefix, fill_header-eq, length-encode_header,
  encode_header_fields, type_of-encode_header, fill_header_fields, handshake_buffer-eq,
}
pub use Reading.{read_content_bounds, assembled_header, encoded_lengths, data_size_raw-eq_zero}
