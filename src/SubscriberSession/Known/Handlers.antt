-- ===== src/SubscriberSession/Known/Handlers.antt =====
-- SubscriberSession: what Known says is kept by the handlers of the operations.
use tcp_pubsub.Base.{
  ltb, ◌==◌, Bool-cases, length, get_or, ℤ, ℕ, ◌+◌, ◌<◌, refl, ap, inl, inr, true, List, arith,
}
use tcp_pubsub.SubscriberSession.{
  Endpoint, Operation, resolve, connect, write_handshake, retry_wait, header_length, header_content,
  discard, payload, Posted, SubscriberSession, resolve_endpoint, connect_to_endpoint,
  send_protokol_handshake_request, read_header_length, read_header_content,
  discard_data_between_header_and_payload, read_payload, protocol_version, on_payload, on_resolved,
  on_connected, on_completed,
}
use tcp_pubsub.SubscriberSession.Known.{
  InRange, Known, Within-refl, get_or-IsEntry, either-Known, begins-Known, same-Known, failed-Known,
  unless_canceled, begins_unless_canceled,
}
use tcp_pubsub.Wire.Header.{
  TcpHeader, regular_payload, protocol_handshake, sizeof_header_size, new_header, header_size_raw,
  type_of, data_size_raw, handshake_buffer,
}
use tcp_pubsub.Wire.Endian.{Host}
use tcp_pubsub.Asio.{Completion, failed, done}

module _ {l : List Endpoint} {most : ℤ} where
  pub resolve-Known :
      (i : ℕ) (s : SubscriberSession)
      → i < length l
      → Known l most s
      → Known l most (resolve_endpoint i s)
  unfolding resolve_endpoint
  resolve-Known i s fits v = begins_unless_canceled (resolve i) s fits v

  content-Known :
      (h : Host) (m : TcpHeader) (s : SubscriberSession)
      → Known l most s
      → Known l most (read_header_content h m s)
  unfolding read_header_content
  content-Known h m s v = unless_canceled s _ v (
      either-Known (ltb (header_size_raw h m) sizeof_header_size) _ _ (failed-Known s v)
        (begins-Known _ s tt v))

  pub length-Known : (s : SubscriberSession) → Known l most s → Known l most (read_header_length s)
  unfolding read_header_length
  length-Known s v = begins_unless_canceled (header_length new_header) s tt v

  read_payload-Known :
      (h : Host) (m : TcpHeader) (s : SubscriberSession)
      → Known l most s
      → Known l most (read_payload h m s)
  unfolding read_payload
  read_payload-Known h m s v =
      unless_canceled s _ v
        (either-Known (data_size_raw h m == 0) _ _ (length-Known s v) (begins-Known _ s tt v))

  payload-Known :
      (m : TcpHeader) (bytes : List ℕ) (s : SubscriberSession)
      → Known l most s
      → Known l most (on_payload m bytes s)
  unfolding on_payload
  payload-Known m bytes s v =
      let t : SubscriberSession = record s { retries_left = s.max_reconnection_attempts } in
      let all_again : Known l most t = record {
        same_list = v.same_list;
        same_most = v.same_most;
        not_empty = v.not_empty;
        in_range = v.in_range;
        connected = v.connected;
        within = rw v.same_most (Within-refl most);
      } in
      let posted : (ps : List Posted) → Known l most (record t { strand = ps }) =
        λ ps. same-Known t (record t { strand = ps }) refl refl refl refl refl all_again in
      either-Known (type_of m == protocol_handshake) _ _
        (either-Known (ltb 0 (protocol_version bytes)) _ _ (failed-Known t all_again) (posted _))
        (either-Known (type_of m == regular_payload) _ _ (posted _) (posted _))

  resolved-Known :
      (i : ℕ) (c : Completion) (s : SubscriberSession)
      → i < length l
      → Known l most s
      → Known l most (on_resolved i c s)
  unfolding on_resolved connect_to_endpoint
  resolved-Known i failed s fits v = elim (Bool-cases (ltb (i + 1) (length s.publisher_list))) [
    | inl more ↦ rw more (resolve-Known (i + 1) s (ground (arith, ap length v.same_list)) v)
    | inr at_end ↦ rw at_end (failed-Known s v)
  ]
  resolved-Known i (done bytes) s fits v = begins_unless_canceled (connect i) s fits v

  connected-Known :
      (h : Host) (i : ℕ) (c : Completion) (s : SubscriberSession)
      → i < length l
      → Known l most s
      → Known l most (on_connected h i c s)
  unfolding on_connected send_protokol_handshake_request
  connected-Known h i failed s fits v = failed-Known s v
  connected-Known h i (done bytes) s fits v =
      begins_unless_canceled (write_handshake (handshake_buffer h))
        (record s {
          socket_open = true;
          connected_publisher_endpoint = get_or s.publisher_list i s.connected_publisher_endpoint;
        })
        tt
        (record {
          same_list = v.same_list;
          same_most = v.same_most;
          not_empty = v.not_empty;
          in_range = v.in_range;
          connected =
              rw v.same_list (inr (i, get_or-IsEntry l i s.connected_publisher_endpoint fits));
          within = v.within;
        })

  pub completed-Known :
      (h : Host) (o : Operation) (c : Completion) (s : SubscriberSession)
      → InRange (length l) o
      → Known l most s
      → Known l most (on_completed h o c s)
  unfolding on_completed discard_data_between_header_and_payload
  completed-Known h (resolve i) c s fits v = resolved-Known i c s fits v
  completed-Known h (connect i) c s fits v = connected-Known h i c s fits v
  completed-Known h (write_handshake b) failed s fits v = failed-Known s v
  completed-Known h (write_handshake b) (done bytes) s fits v = length-Known s v
  completed-Known h retry_wait failed s fits v = same-Known s _ refl refl refl refl refl v
  completed-Known h retry_wait (done bytes) s fits v = resolve-Known 0 s v.not_empty v
  completed-Known h (header_length m) failed s fits v = failed-Known s v
  completed-Known h (header_length m) (done bytes) s fits v = content-Known h _ s v
  completed-Known h (header_content m n d) failed s fits v = failed-Known s v
  completed-Known h (header_content m n d) (done bytes) s fits v =
      either-Known (ltb 0 d) _ _ (begins_unless_canceled (discard _ d) s tt v)
        (read_payload-Known h _ s v)
  completed-Known h (discard m n) failed s fits v = failed-Known s v
  completed-Known h (discard m n) (done bytes) s fits v = read_payload-Known h m s v
  completed-Known h (payload m n) failed s fits v = failed-Known s v
  completed-Known h (payload m n) (done bytes) s fits v = payload-Known m bytes s v
