-- ===== src/Protocol/Login/RoundTrip.antt =====
-- protocol/codec.rs: round trips of the messages inside a connection.
use raknet.Base.{
  ℕ, zero, suc, ◌^◌, ◌≤◌, ◌<◌, ◌≡◌, List, [], ◌++◌, length, ok, arith, refl, ◌∙◌, sym, ltb_ge,
  append_assoc, append-nil, length-append,
}
use raknet.Protocol.Buffer.{Buffer, be_bytes}
use raknet.Protocol.Reads.{has_remaining, get_u8-put, get_u16-put, get_i64-put}
use raknet.Protocol.Packet.{
  id_connection_request, id_connection_request_accepted, id_new_incoming_connection,
  id_connected_ping, id_connected_pong,
}
use raknet.Protocol.Address.{SocketAddr, v4, v6, write_address}
use raknet.Protocol.Address.RoundTrip.{
  IsAddress, carried_address, address_wire, write_address-wire, read_address-wire,
}
use raknet.Protocol.Login.{
  internal_addr, write_internal, skip_addresses, encode_connection_request,
  decode_connection_request, encode_connection_request_accepted, decode_connection_request_accepted,
  encode_new_incoming_connection, decode_new_incoming_connection, encode_connected_ping,
  decode_connected_ping, encode_connected_pong, decode_connected_pong,
}

-- The internal addresses on the wire.
internals : ℕ → List ℕ
internals zero = []
internals (suc n) = address_wire internal_addr ++ internals n

write_internal-wire :
    (lib : Buffer) (n : ℕ) (buf : List ℕ) → write_internal lib n buf ≡ buf ++ internals n
unfolding write_internal internals
write_internal-wire lib zero buf = sym (append-nil buf)
write_internal-wire lib (suc n) buf =
    write_internal-wire lib n (write_address lib buf internal_addr)
    ∙ simp (write_address-wire, append_assoc)

skip_addresses-internals :
    (lib : Buffer) (n : ℕ) (rest : List ℕ) → skip_addresses lib n (internals n ++ rest) ≡ ok rest
unfolding skip_addresses internals
skip_addresses-internals lib zero rest = refl
skip_addresses-internals lib (suc n) rest =
    rw
      (
        append_assoc (address_wire internal_addr) (internals n) rest,
        read_address-wire lib internal_addr (internals n ++ rest) (omega arith),
      )
      (skip_addresses-internals lib n rest)

length-address_wire : (addr : SocketAddr) → IsAddress addr → 7 ≤ length (address_wire addr)
unfolding address_wire
length-address_wire (v4 a b c d port) h = omega arith
length-address_wire (v6 ip port flowinfo scope_id) h =
    omega (arith, h.0, length-append ip (be_bytes 2 port))

pub decode_connection_request-encode :
    (lib : Buffer) (client_guid timestamp : ℕ)
    → client_guid < 2 ^ 64
    → timestamp < 2 ^ 64
    → decode_connection_request lib (encode_connection_request lib client_guid timestamp)
      ≡ ok (client_guid, timestamp)
unfolding decode_connection_request
decode_connection_request-encode lib g t hg ht =
    let tail = be_bytes 8 t ++ be_bytes 1 0 in
    rw request-wire (
      rw
        (
          get_u8-put lib id_connection_request (be_bytes 8 g ++ tail) (omega arith),
          get_i64-put lib g tail hg,
          get_i64-put lib t (be_bytes 1 0) ht,
          get_u8-put lib 0 [] (omega arith),
        )
        refl)
  where
    request-wire :
        encode_connection_request lib g t
        ≡ be_bytes 1 id_connection_request ++ (be_bytes 8 g ++ (be_bytes 8 t ++ be_bytes 1 0))
    request-wire =
        unfold encode_connection_request in simp (lib.put_u8_lem, lib.put_i64_lem, append_assoc)

-- The packet that accepts a login, with a valid address (a V4 address, or a V6 address of 16 octets) and two
-- timestamps of 64 bits, is decoded to what was encoded, past its ten internal addresses; a V6 address loses its
-- flow information and its scope.
pub decode_connection_request_accepted-encode :
    (lib : Buffer) (client_addr : SocketAddr) (request_timestamp accepted_timestamp : ℕ)
    → IsAddress client_addr
    → request_timestamp < 2 ^ 64
    → accepted_timestamp < 2 ^ 64
    → decode_connection_request_accepted lib
        (encode_connection_request_accepted lib client_addr request_timestamp accepted_timestamp)
      ≡ ok (carried_address client_addr, request_timestamp, accepted_timestamp)
unfolding decode_connection_request_accepted
decode_connection_request_accepted-encode lib addr r t ha hr ht =
    let times = be_bytes 8 r ++ be_bytes 8 t in
    let tail = be_bytes 2 0 ++ (internals 10 ++ times) in
    rw accepted-wire (
      rw
        (
          ltb_ge (length (be_bytes 1 id_connection_request_accepted ++ (address_wire addr ++ tail)))
              8
              (omega (arith, length-append (address_wire addr) tail, length-address_wire addr ha)),
          get_u8-put lib id_connection_request_accepted (address_wire addr ++ tail) (omega arith),
          read_address-wire lib addr tail ha,
          has_remaining lib 2 tail (omega arith),
          get_u16-put lib 0 (internals 10 ++ times) (omega arith),
          skip_addresses-internals lib 10 times,
          has_remaining lib 16 times (omega arith),
          get_i64-put lib r (be_bytes 8 t) hr,
          get_i64-put lib t [] ht,
        )
        refl)
  where
    accepted-wire :
        encode_connection_request_accepted lib addr r t
        ≡ be_bytes 1 id_connection_request_accepted
          ++ (address_wire addr
              ++ (be_bytes 2 0 ++ (internals 10 ++ (be_bytes 8 r ++ be_bytes 8 t))))
    accepted-wire =
        unfold encode_connection_request_accepted in
        simp (
          lib.put_u8_lem, lib.put_u16_lem, lib.put_i64_lem, write_address-wire, write_internal-wire,
          append_assoc,
        )

pub decode_new_incoming_connection-encode :
    (lib : Buffer) (server_addr : SocketAddr) (request_timestamp accepted_timestamp : ℕ)
    → IsAddress server_addr
    → request_timestamp < 2 ^ 64
    → accepted_timestamp < 2 ^ 64
    → decode_new_incoming_connection lib
        (encode_new_incoming_connection lib server_addr request_timestamp accepted_timestamp)
      ≡ ok (carried_address server_addr, request_timestamp, accepted_timestamp)
unfolding decode_new_incoming_connection
decode_new_incoming_connection-encode lib addr r t ha hr ht =
    let times = be_bytes 8 r ++ be_bytes 8 t in
    let tail = internals 10 ++ times in
    rw incoming-wire (
      rw
        (
          ltb_ge (length (be_bytes 1 id_new_incoming_connection ++ (address_wire addr ++ tail))) 8
              (omega (arith, length-append (address_wire addr) tail, length-address_wire addr ha)),
          get_u8-put lib id_new_incoming_connection (address_wire addr ++ tail) (omega arith),
          read_address-wire lib addr tail ha,
          skip_addresses-internals lib 10 times,
          has_remaining lib 16 times (omega arith),
          get_i64-put lib r (be_bytes 8 t) hr,
          get_i64-put lib t [] ht,
        )
        refl)
  where
    incoming-wire :
        encode_new_incoming_connection lib addr r t
        ≡ be_bytes 1 id_new_incoming_connection
          ++ (address_wire addr ++ (internals 10 ++ (be_bytes 8 r ++ be_bytes 8 t)))
    incoming-wire =
        unfold encode_new_incoming_connection in
        simp
          (lib.put_u8_lem, lib.put_i64_lem, write_address-wire, write_internal-wire, append_assoc)

pub decode_connected_ping-encode :
    (lib : Buffer) (timestamp : ℕ)
    → timestamp < 2 ^ 64
    → decode_connected_ping lib (encode_connected_ping lib timestamp) ≡ ok timestamp
unfolding decode_connected_ping
decode_connected_ping-encode lib t ht = rw ping-wire (
    rw (get_u8-put lib id_connected_ping (be_bytes 8 t) (omega arith), get_i64-put lib t [] ht)
      refl)
  where
    ping-wire : encode_connected_ping lib t ≡ be_bytes 1 id_connected_ping ++ be_bytes 8 t
    ping-wire = unfold encode_connected_ping in simp (lib.put_u8_lem, lib.put_i64_lem, append_assoc)

pub decode_connected_pong-encode :
    (lib : Buffer) (ping_timestamp pong_timestamp : ℕ)
    → ping_timestamp < 2 ^ 64
    → pong_timestamp < 2 ^ 64
    → decode_connected_pong lib (encode_connected_pong lib ping_timestamp pong_timestamp)
      ≡ ok (ping_timestamp, pong_timestamp)
unfolding decode_connected_pong
decode_connected_pong-encode lib a b ha hb = rw pong-wire (
    rw
      (
        get_u8-put lib id_connected_pong (be_bytes 8 a ++ be_bytes 8 b) (omega arith),
        get_i64-put lib a (be_bytes 8 b) ha,
        get_i64-put lib b [] hb,
      )
      refl)
  where
    pong-wire :
        encode_connected_pong lib a b
        ≡ be_bytes 1 id_connected_pong ++ (be_bytes 8 a ++ be_bytes 8 b)
    pong-wire = unfold encode_connected_pong in simp (lib.put_u8_lem, lib.put_i64_lem, append_assoc)
