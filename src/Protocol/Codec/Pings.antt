-- ===== src/Protocol/Codec/Pings.antt =====
-- protocol/codec.rs: round trips of the unconnected ping and pong.
use raknet.Base.{
  ℕ, ◌%◌, ◌^◌, ◌<◌, ◌≡◌, true, false, List, [], ◌++◌, ltb, length, ok, arith, refl, ap, ◌∙◌, ltb_ge,
  append-nil,
}
use raknet.Protocol.Buffer.{Buffer, be_bytes, slice_to, slice_to-append}
use raknet.Protocol.Reads.{advance-append, get_u8-put, get_u16-put, get_i64-put}
use raknet.Protocol.Magic.{magic, check_magic, check_magic-append}
use raknet.Protocol.Packet.{id_unconnected_ping, id_unconnected_pong}
use raknet.Protocol.Codec.{
  encode_unconnected_ping, decode_unconnected_ping, encode_unconnected_pong,
  decode_unconnected_pong,
}

abbrev ping_wire : ℕ → ℕ → List ℕ
ping_wire t g = be_bytes 1 id_unconnected_ping ++ (be_bytes 8 t ++ (magic ++ be_bytes 8 g))

encode_unconnected_ping-wire :
    (lib : Buffer) (t g : ℕ) → encode_unconnected_ping lib t g ≡ ping_wire t g
unfolding encode_unconnected_ping
encode_unconnected_ping-wire lib t g =
    lib.put_i64_lem _ g
    ∙ ap (λ b. b ++ be_bytes 8 g)
        (lib.put_slice_lem _ magic
          ∙ ap (λ b. b ++ magic)
              (lib.put_i64_lem _ t
                ∙ ap (λ b. b ++ be_bytes 8 t) (lib.put_u8_lem [] id_unconnected_ping)))

-- A ping of 64-bit values is decoded to these values.
pub decode_unconnected_ping-encode :
    (lib : Buffer) (timestamp client_guid : ℕ)
    → timestamp < 2 ^ 64
    → client_guid < 2 ^ 64
    → decode_unconnected_ping lib (encode_unconnected_ping lib timestamp client_guid)
      ≡ ok (timestamp, client_guid)
unfolding decode_unconnected_ping
decode_unconnected_ping-encode lib t g ht hg =
    let marked : check_magic (ping_wire t g) 9 ≡ true =
      check_magic-append (be_bytes 1 id_unconnected_ping ++ be_bytes 8 t) (be_bytes 8 g) in
    rw (encode_unconnected_ping-wire lib t g) (
      rw
        (
          get_u8-put lib id_unconnected_ping (be_bytes 8 t ++ (magic ++ be_bytes 8 g))
              (omega arith),
          get_i64-put lib t (magic ++ be_bytes 8 g) ht,
          marked,
          advance-append lib magic (be_bytes 8 g),
          get_i64-put lib g [] hg,
        )
        refl)

abbrev pong_wire : ℕ → ℕ → List ℕ → List ℕ
pong_wire t g pong_data =
    be_bytes 1 id_unconnected_pong
    ++ (be_bytes 8 t
        ++ (be_bytes 8 g ++ (magic ++ (be_bytes 2 (length pong_data % 2 ^ 16) ++ pong_data))))

encode_unconnected_pong-wire :
    (lib : Buffer) (t g : ℕ) (pong_data : List ℕ)
    → encode_unconnected_pong lib t g pong_data ≡ pong_wire t g pong_data
unfolding encode_unconnected_pong
encode_unconnected_pong-wire lib t g pong_data =
    lib.put_slice_lem _ pong_data
    ∙ ap (λ b. b ++ pong_data)
        (lib.put_u16_lem _ (length pong_data % 2 ^ 16)
          ∙ ap (λ b. b ++ be_bytes 2 (length pong_data % 2 ^ 16))
              (lib.put_slice_lem _ magic
                ∙ ap (λ b. b ++ magic)
                    (lib.put_i64_lem _ g
                      ∙ ap (λ b. b ++ be_bytes 8 g)
                          (lib.put_i64_lem _ t
                            ∙ ap (λ b. b ++ be_bytes 8 t)
                                (lib.put_u8_lem [] id_unconnected_pong)))))

-- A pong of 64-bit values and fewer than 2 ^ 16 bytes of data is decoded to these values and this
-- data.
pub decode_unconnected_pong-encode :
    (lib : Buffer) (timestamp server_guid : ℕ) (pong_data : List ℕ)
    → timestamp < 2 ^ 64
    → server_guid < 2 ^ 64
    → length pong_data < 2 ^ 16
    → decode_unconnected_pong lib (encode_unconnected_pong lib timestamp server_guid pong_data)
      ≡ ok (timestamp, server_guid, pong_data)
unfolding decode_unconnected_pong
decode_unconnected_pong-encode lib t g pong_data ht hg hp =
    let size : length pong_data % 2 ^ 16 ≡ length pong_data = omega arith in
    let tail = be_bytes 2 (length pong_data % 2 ^ 16) ++ pong_data in
    let marked : check_magic (pong_wire t g pong_data) 17 ≡ true =
      check_magic-append (be_bytes 1 id_unconnected_pong ++ (be_bytes 8 t ++ be_bytes 8 g)) tail in
    let long : ltb (length (pong_wire t g pong_data)) 35 ≡ false =
      ltb_ge (length (pong_wire t g pong_data)) 35 (omega arith) in
    let enough : ltb (lib.remaining pong_data) (length pong_data) ≡ false =
      ap (λ (k : ℕ). ltb k (length pong_data)) (lib.remaining_lem pong_data)
      ∙ ltb_ge (length pong_data) (length pong_data) (omega arith) in
    let whole : slice_to (length pong_data) pong_data ≡ ok pong_data =
      rw append-nil at (slice_to-append pong_data []) in
    rw (encode_unconnected_pong-wire lib t g pong_data) (
      rw
        (
          long,
          get_u8-put lib id_unconnected_pong (be_bytes 8 t ++ (be_bytes 8 g ++ (magic ++ tail)))
              (omega arith),
          get_i64-put lib t (be_bytes 8 g ++ (magic ++ tail)) ht,
          get_i64-put lib g (magic ++ tail) hg,
          marked,
          advance-append lib magic tail,
          get_u16-put lib (length pong_data % 2 ^ 16) pong_data (omega arith),
        )
        (rw (size, enough) (rw whole refl)))
