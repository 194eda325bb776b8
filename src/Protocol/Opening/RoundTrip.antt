-- ===== src/Protocol/Opening/RoundTrip.antt =====
-- protocol/codec.rs: round trips of the messages that open a connection.
use raknet.Base.{
  ℕ, ◌+◌, ◌-◌, ◌/◌, ◌%◌, ◌^◌, ◌<◌, ◌≡◌, max, true, List, [], ◌∷◌, ◌++◌, length, replicate,
  length-replicate, ok, arith, refl, ltb_ge, append_assoc,
}
use raknet.Protocol.Buffer.{Buffer, be_bytes}
use raknet.Protocol.Reads.{has_remaining, advance-append, get_u8-put, get_u16-put, get_i64-put}
use raknet.Protocol.Magic.{magic, check_magic, check_magic-append}
use raknet.Protocol.Packet.{
  id_open_connection_request_1, id_open_connection_reply_1, id_open_connection_request_2,
  id_open_connection_reply_2,
}
use raknet.Protocol.Address.{SocketAddr}
use raknet.Protocol.Address.RoundTrip.{
  IsAddress, carried_address, address_wire, write_address-wire, read_address-wire,
}
use raknet.Protocol.Opening.{
  byte_at, encode_open_connection_request_1, decode_open_connection_request_1,
  encode_open_connection_reply_1, decode_open_connection_reply_1, encode_open_connection_request_2,
  decode_open_connection_request_2, encode_open_connection_reply_2, decode_open_connection_reply_2,
}

-- The magic stands behind the id of each of these messages.
marked : (id : ℕ) (rest : List ℕ) → check_magic (be_bytes 1 id ++ (magic ++ rest)) 1 ≡ true
marked id rest = check_magic-append (be_bytes 1 id) rest

abbrev request_1_wire : ℕ → ℕ → List ℕ
request_1_wire version mtu =
    be_bytes 1 id_open_connection_request_1
    ++ (magic ++ (be_bytes 1 version ++ replicate (mtu - 18) 0))

pub decode_open_connection_request_1-encode :
    (lib : Buffer) (version mtu : ℕ)
    → version < 2 ^ 8
    → decode_open_connection_request_1 lib (encode_open_connection_request_1 lib version mtu)
      ≡ ok (version, (max mtu 18 + 28) % 2 ^ 16)
unfolding decode_open_connection_request_1 byte_at
decode_open_connection_request_1-encode lib version mtu hv =
    let padding : List ℕ = replicate (mtu - 18) 0 in
    let total : length (request_1_wire version mtu) ≡ max mtu 18 =
      omega (arith, length-replicate {A = ℕ} (mtu - 18) 0) in
    let whole : version / 1 % 256 ≡ version = omega arith in
    rw (request_1-wire) (
      rw
        (
          ltb_ge (length (request_1_wire version mtu)) 18 (omega (arith, total)),
          marked id_open_connection_request_1 (be_bytes 1 version ++ padding),
        )
        (rw (total, whole) refl))
  where
    request_1-wire : encode_open_connection_request_1 lib version mtu ≡ request_1_wire version mtu
    request_1-wire =
        unfold encode_open_connection_request_1 in
        simp (lib.put_u8_lem, lib.put_slice_lem, lib.put_bytes_lem, append_assoc)

pub reply_1_starts :
    (lib : Buffer) (server_guid mtu : ℕ)
    → (rest : List ℕ) × (encode_open_connection_reply_1 lib server_guid mtu
        ≡ id_open_connection_reply_1 ∷ rest)
unfolding encode_open_connection_reply_1
reply_1_starts lib g mtu = (
  magic ++ (be_bytes 8 g ++ (be_bytes 1 0 ++ be_bytes 2 mtu)),
  simp (lib.put_u8_lem, lib.put_u16_lem, lib.put_i64_lem, lib.put_slice_lem, append_assoc),
)

pub decode_open_connection_reply_1-encode :
    (lib : Buffer) (server_guid mtu : ℕ)
    → server_guid < 2 ^ 64
    → mtu < 2 ^ 16
    → decode_open_connection_reply_1 lib (encode_open_connection_reply_1 lib server_guid mtu)
      ≡ ok (server_guid, mtu)
unfolding decode_open_connection_reply_1
decode_open_connection_reply_1-encode lib g mtu hg hm =
    let tail = be_bytes 1 0 ++ be_bytes 2 mtu in
    rw (reply_1-wire) (
      rw
        (
          get_u8-put lib id_open_connection_reply_1 (magic ++ (be_bytes 8 g ++ tail)) (omega arith),
          marked id_open_connection_reply_1 (be_bytes 8 g ++ tail),
          advance-append lib magic (be_bytes 8 g ++ tail),
          get_i64-put lib g tail hg,
          get_u8-put lib 0 (be_bytes 2 mtu) (omega arith),
          get_u16-put lib mtu [] hm,
        )
        refl)
  where
    reply_1-wire :
        encode_open_connection_reply_1 lib g mtu
        ≡ be_bytes 1 id_open_connection_reply_1
          ++ (magic ++ (be_bytes 8 g ++ (be_bytes 1 0 ++ be_bytes 2 mtu)))
    reply_1-wire =
        unfold encode_open_connection_reply_1 in
        simp (lib.put_u8_lem, lib.put_u16_lem, lib.put_i64_lem, lib.put_slice_lem, append_assoc)

-- A second request with a valid address (a V4 address, or a V6 address of 16 octets), an MTU of 16 bits and a
-- client id of 64 bits is decoded to what was encoded; a V6 address loses its flow information and its scope.
pub decode_open_connection_request_2-encode :
    (lib : Buffer) (server_addr : SocketAddr) (mtu client_guid : ℕ)
    → IsAddress server_addr
    → mtu < 2 ^ 16
    → client_guid < 2 ^ 64
    → decode_open_connection_request_2 lib
        (encode_open_connection_request_2 lib server_addr mtu client_guid)
      ≡ ok (carried_address server_addr, mtu, client_guid)
unfolding decode_open_connection_request_2
decode_open_connection_request_2-encode lib addr mtu g ha hm hg =
    let tail = be_bytes 2 mtu ++ be_bytes 8 g in
    rw (request_2-wire) (
      rw
        (
          ltb_ge
              (length
                (be_bytes 1 id_open_connection_request_2 ++ (magic ++ (address_wire addr ++ tail))))
              17 (omega arith),
          get_u8-put lib id_open_connection_request_2 (magic ++ (address_wire addr ++ tail))
              (omega arith),
          marked id_open_connection_request_2 (address_wire addr ++ tail),
          advance-append lib magic (address_wire addr ++ tail),
          read_address-wire lib addr tail ha,
          has_remaining lib 10 tail (omega arith),
          get_u16-put lib mtu (be_bytes 8 g) hm,
          get_i64-put lib g [] hg,
        )
        refl)
  where
    request_2-wire :
        encode_open_connection_request_2 lib addr mtu g
        ≡ be_bytes 1 id_open_connection_request_2
          ++ (magic ++ (address_wire addr ++ (be_bytes 2 mtu ++ be_bytes 8 g)))
    request_2-wire =
        unfold encode_open_connection_request_2 in
        simp (
          lib.put_u8_lem, lib.put_u16_lem, lib.put_i64_lem, lib.put_slice_lem, write_address-wire,
          append_assoc,
        )

pub reply_2_starts :
    (lib : Buffer) (server_guid : ℕ) (client_addr : SocketAddr) (mtu : ℕ)
    → (rest : List ℕ) × (encode_open_connection_reply_2 lib server_guid client_addr mtu
        ≡ id_open_connection_reply_2 ∷ rest)
unfolding encode_open_connection_reply_2
reply_2_starts lib g addr mtu = (
  magic ++ (be_bytes 8 g ++ (address_wire addr ++ (be_bytes 2 mtu ++ be_bytes 1 0))),
  simp (
    lib.put_u8_lem, lib.put_u16_lem, lib.put_i64_lem, lib.put_slice_lem, write_address-wire,
    append_assoc,
  ),
)

pub decode_open_connection_reply_2-encode :
    (lib : Buffer) (server_guid : ℕ) (client_addr : SocketAddr) (mtu : ℕ)
    → server_guid < 2 ^ 64
    → IsAddress client_addr
    → mtu < 2 ^ 16
    → decode_open_connection_reply_2 lib
        (encode_open_connection_reply_2 lib server_guid client_addr mtu)
      ≡ ok (server_guid, carried_address client_addr, mtu)
unfolding decode_open_connection_reply_2
decode_open_connection_reply_2-encode lib g addr mtu hg ha hm =
    let tail = be_bytes 2 mtu ++ be_bytes 1 0 in
    rw (reply_2-wire) (
      rw
        (
          ltb_ge
              (length (
                be_bytes 1 id_open_connection_reply_2
                ++ (magic ++ (be_bytes 8 g ++ (address_wire addr ++ tail)))))
              25 (omega arith),
          get_u8-put lib id_open_connection_reply_2
              (magic ++ (be_bytes 8 g ++ (address_wire addr ++ tail))) (omega arith),
          marked id_open_connection_reply_2 (be_bytes 8 g ++ (address_wire addr ++ tail)),
          advance-append lib magic (be_bytes 8 g ++ (address_wire addr ++ tail)),
          get_i64-put lib g (address_wire addr ++ tail) hg,
          read_address-wire lib addr tail ha,
          has_remaining lib 3 tail (omega arith),
          get_u16-put lib mtu (be_bytes 1 0) hm,
          get_u8-put lib 0 [] (omega arith),
        )
        refl)
  where
    reply_2-wire :
        encode_open_connection_reply_2 lib g addr mtu
        ≡ be_bytes 1 id_open_connection_reply_2
          ++ (magic ++ (be_bytes 8 g ++ (address_wire addr ++ (be_bytes 2 mtu ++ be_bytes 1 0))))
    reply_2-wire =
        unfold encode_open_connection_reply_2 in
        simp (
          lib.put_u8_lem, lib.put_u16_lem, lib.put_i64_lem, lib.put_slice_lem, write_address-wire,
          append_assoc,
        )
