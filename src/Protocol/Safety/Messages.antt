-- ===== src/Protocol/Safety/Messages.antt =====
-- protocol/codec.rs: the decoders of the packets outside a connection do not panic.
use raknet.Base.{
  ℕ, zero, suc, ◌+◌, ◌≤◌, not, Bool, true, false, List, [], ◌∷◌, length, ◌==◌, if◌then◌else◌,
  Result, invalid_packet, invalid_magic, ◌>>=◌, arith,
}
use raknet.Protocol.Address.{SocketAddr, read_v4, read_v6, read_address}
use raknet.Protocol.Buffer.{Buffer, slice_to}
use raknet.Protocol.Codec.{decode_unconnected_ping, decode_unconnected_pong}
use raknet.Protocol.Magic.{check_magic}
use raknet.Protocol.Packet.{
  id_unconnected_ping, id_unconnected_pong, id_open_connection_request_1,
  id_open_connection_reply_1, id_open_connection_request_2, id_open_connection_reply_2,
}
use raknet.Protocol.Opening.{
  byte_at, decode_open_connection_request_1, decode_open_connection_reply_1,
  decode_open_connection_request_2, decode_open_connection_reply_2,
}
use raknet.Protocol.Safety.{
  Total, Total-ok, Total-err, Total-bind, Total-reject, Total-enough, Total-remaining, get_u8_then,
  get_u16_then, get_i64_then, advance_then, copy_to_slice_then, slice_to-Total,
}

-- The code does not panic.
abbrev pub Survives {ℓ} : {A : Type ℓ} → Result A → Type 0
Survives r = Total (λ a. Unit {0}) r

pub Survives-then :
    {A B : Type 0} (r : Result A) (f : A → Result B)
    → Survives r
    → ((a : A) → Survives (f a))
    → Survives (r >>= f)
Survives-then r f h k = Total-bind (λ a. Unit {0}) (λ b. Unit {0}) r f h (λ a u. k a)

pub Survives-if :
    {A : Type 0} (c : Bool) (r t : Result A)
    → Survives r
    → Survives t
    → Survives (if c then r else t)
Survives-if true r t h k = h
Survives-if false r t h k = k

byte_at-Survives : (bytes : List ℕ) (i : ℕ) → suc i ≤ length bytes → Survives (byte_at bytes i)
unfolding byte_at
byte_at-Survives [] i h = absurd (omega arith)
byte_at-Survives (b ∷ bytes) zero h = Total-ok _ b tt
byte_at-Survives (b ∷ bytes) (suc i) h = byte_at-Survives bytes i (omega arith)

module _ (lib : Buffer) where
  read_v4-Survives : (buf : List ℕ) → Survives (read_v4 lib buf)
  unfolding read_v4
  read_v4-Survives buf = Total-remaining lib buf _ (4 + 2) _ _ λ room.
      get_u8_then lib buf _ _ (omega arith) λ a buf1 e1.
        get_u8_then lib buf1 _ _ (omega arith) λ b buf2 e2.
          get_u8_then lib buf2 _ _ (omega arith) λ c buf3 e3.
            get_u8_then lib buf3 _ _ (omega arith)
              λ d buf4 e4. get_u16_then lib buf4 _ _ (omega arith) λ port rest e5. Total-ok _ _ tt

  read_v6-Survives : (buf : List ℕ) → Survives (read_v6 lib buf)
  unfolding read_v6
  read_v6-Survives buf = Total-remaining lib buf _ (16 + 2) _ _ λ room.
      copy_to_slice_then lib buf _ 16 _ (omega arith)
        λ ip buf1 e1. get_u16_then lib buf1 _ _ (omega arith) λ port rest e2. Total-ok _ _ tt

  pub read_address-Survives : (buf : List ℕ) → Survives (read_address lib buf)
  unfolding read_address
  read_address-Survives [] = Total-err _ _
  read_address-Survives (byte ∷ bytes) =
      get_u8_then lib (byte ∷ bytes) _ _ (omega arith) λ version buf e.
        Survives-if (version == 4) _ _ (read_v4-Survives buf)
          (Survives-if (version == 6) _ _ (read_v6-Survives buf) (Total-err _ _))

  pub address_then :
      {B : Type 0} (buf : List ℕ) (f : SocketAddr × List ℕ → Result B)
      → ((addr : SocketAddr) (rest : List ℕ) → Survives (f (addr, rest)))
      → Survives (read_address lib buf >>= f)
  address_then buf f k =
      Survives-then (read_address lib buf) f (read_address-Survives buf) (λ a. k a.0 a.1)

  pub request_1-Survives : (bytes : List ℕ) → Survives (decode_open_connection_request_1 lib bytes)
  unfolding decode_open_connection_request_1
  request_1-Survives bytes = Total-enough _ (length bytes) (1 + 16 + 1) _ _ λ room.
      Survives-then (byte_at bytes 0) _ (byte_at-Survives bytes 0 (omega arith)) λ id.
        Total-reject _ (not (id == id_open_connection_request_1))
          (invalid_packet "Not an OpenConnectionRequest1 packet" []) _
          (Total-reject _ (not (check_magic bytes 1)) invalid_magic _ (
            Survives-then (byte_at bytes 17) _ (byte_at-Survives bytes 17 (omega arith))
              λ version. Total-ok _ _ tt))

  pub reply_1-Survives : (bytes : List ℕ) → Survives (decode_open_connection_reply_1 lib bytes)
  unfolding decode_open_connection_reply_1
  reply_1-Survives bytes = Total-enough _ (length bytes) (1 + 16 + 8 + 1 + 2) _ _ λ room.
      get_u8_then lib bytes _ _ (omega arith) λ id buf1 e1.
        Total-reject _ (not (id == id_open_connection_reply_1))
          (invalid_packet "Not an OpenConnectionReply1 packet" []) _
          (Total-reject _ (not (check_magic bytes 1)) invalid_magic _ (
            advance_then lib buf1 _ 16 _ (omega arith) λ buf2 e2.
              get_i64_then lib buf2 _ _ (omega arith) λ guid buf3 e3.
                get_u8_then lib buf3 _ _ (omega arith) λ encryption buf4 e4.
                  get_u16_then lib buf4 _ _ (omega arith) λ mtu rest e5. Total-ok _ _ tt))

  pub request_2-Survives : (bytes : List ℕ) → Survives (decode_open_connection_request_2 lib bytes)
  unfolding decode_open_connection_request_2
  request_2-Survives bytes = Total-enough _ (length bytes) (1 + 16) _ _ λ room.
      get_u8_then lib bytes _ _ (omega arith) λ id buf1 e1.
        Total-reject _ (not (id == id_open_connection_request_2))
          (invalid_packet "Not an OpenConnectionRequest2 packet" []) _
          (Total-reject _ (not (check_magic bytes 1)) invalid_magic _ (
            advance_then lib buf1 _ 16 _ (omega arith) λ buf2 e2. address_then buf2 _ λ addr buf3.
              Total-remaining lib buf3 _ (2 + 8) _ _ λ more.
                get_u16_then lib buf3 _ _ (omega arith) λ mtu buf4 e4.
                  get_i64_then lib buf4 _ _ (omega arith) λ guid rest e5. Total-ok _ _ tt))

  pub reply_2-Survives : (bytes : List ℕ) → Survives (decode_open_connection_reply_2 lib bytes)
  unfolding decode_open_connection_reply_2
  reply_2-Survives bytes = Total-enough _ (length bytes) (1 + 16 + 8) _ _ λ room.
      get_u8_then lib bytes _ _ (omega arith) λ id buf1 e1.
        Total-reject _ (not (id == id_open_connection_reply_2))
          (invalid_packet "Not an OpenConnectionReply2 packet" []) _
          (Total-reject _ (not (check_magic bytes 1)) invalid_magic _ (
            advance_then lib buf1 _ 16 _ (omega arith) λ buf2 e2.
              get_i64_then lib buf2 _ _ (omega arith) λ guid buf3 e3.
                address_then buf3 _ λ addr buf4. Total-remaining lib buf4 _ (2 + 1) _ _ λ more.
                  get_u16_then lib buf4 _ _ (omega arith) λ mtu buf5 e5.
                    get_u8_then lib buf5 _ _ (omega arith) λ encryption rest e6. Total-ok _ _ tt))

  pub ping-Survives : (bytes : List ℕ) → Survives (decode_unconnected_ping lib bytes)
  unfolding decode_unconnected_ping
  ping-Survives bytes = Total-enough _ (length bytes) (1 + 8 + 16 + 8) _ _ λ room.
      get_u8_then lib bytes _ _ (omega arith) λ id buf1 e1.
        Total-reject _ (not (id == id_unconnected_ping))
          (invalid_packet "Not an UnconnectedPing packet" []) _
          (get_i64_then lib buf1 _ _ (omega arith) λ timestamp buf2 e2.
            Total-reject _ (not (check_magic bytes 9)) invalid_magic _ (
              advance_then lib buf2 _ 16 _ (omega arith)
                λ buf3 e3. get_i64_then lib buf3 _ _ (omega arith) λ guid rest e4. Total-ok _ _ tt))

  pub pong-Survives : (bytes : List ℕ) → Survives (decode_unconnected_pong lib bytes)
  unfolding decode_unconnected_pong
  pong-Survives bytes = Total-enough _ (length bytes) (1 + 8 + 8 + 16 + 2) _ _ λ room.
      get_u8_then lib bytes _ _ (omega arith) λ id buf1 e1.
        Total-reject _ (not (id == id_unconnected_pong))
          (invalid_packet "Not an UnconnectedPong packet" []) _
          (get_i64_then lib buf1 _ _ (omega arith) λ timestamp buf2 e2.
            get_i64_then lib buf2 _ _ (omega arith) λ guid buf3 e3.
              Total-reject _ (not (check_magic bytes 17)) invalid_magic _ (
                advance_then lib buf3 _ 16 _ (omega arith) λ buf4 e4.
                  get_u16_then lib buf4 _ _ (omega arith) λ count buf5 e5.
                    Total-remaining lib buf5 _ count _ _ λ more.
                      Survives-then (slice_to count buf5) _ (slice_to-Total count buf5 more)
                        λ pong. Total-ok _ _ tt))
