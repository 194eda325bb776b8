-- ===== src/Protocol/Safety/Login.antt =====
-- protocol/codec.rs: the decoders of the packets inside a connection do not panic.
use raknet.Base.{
  ℕ, zero, suc, ◌+◌, not, List, [], length, ltb, ◌==◌, ok, Error, invalid_packet, ◌>>=◌, ◌>>◌,
  reject_if, arith,
}
use raknet.Protocol.Buffer.{Buffer}
use raknet.Protocol.Login.{
  decode_connection_request, skip_addresses, decode_connection_request_accepted,
  decode_new_incoming_connection, decode_connected_ping, decode_connected_pong,
}
use raknet.Protocol.Packet.{
  id_connection_request, id_connection_request_accepted, id_new_incoming_connection,
  id_connected_ping, id_connected_pong,
}
use raknet.Protocol.Safety.{
  Total-ok, Total-reject, Total-enough, Total-remaining, get_u8_then, get_u16_then, get_i64_then,
}
use raknet.Protocol.Safety.Messages.{Survives, Survives-then, address_then}

module _ (lib : Buffer) where
  skip_addresses-Survives : (n : ℕ) (buf : List ℕ) → Survives (skip_addresses lib n buf)
  unfolding skip_addresses
  skip_addresses-Survives zero buf = Total-ok _ buf tt
  skip_addresses-Survives (suc n) buf =
      address_then lib buf _ λ addr rest. skip_addresses-Survives n rest

  pub connection_request-Survives :
      (bytes : List ℕ) → Survives (decode_connection_request lib bytes)
  unfolding decode_connection_request
  connection_request-Survives bytes = Total-enough _ (length bytes) (1 + 8 + 8 + 1) _ _ λ room.
      get_u8_then lib bytes _ _ (omega arith) λ id buf1 e1.
        Total-reject _ (not (id == id_connection_request))
          (invalid_packet "Not a ConnectionRequest packet" []) _
          (get_i64_then lib buf1 _ _ (omega arith) λ guid buf2 e2.
            get_i64_then lib buf2 _ _ (omega arith) λ timestamp buf3 e3.
              get_u8_then lib buf3 _ _ (omega arith) λ encryption rest e4. Total-ok _ _ tt)

  -- The two timestamps at the end.
  timestamps-Survives :
      {B : Type 0} (buf : List ℕ) (e : Error) (f : ℕ → ℕ → B)
      → Survives (do
        reject_if (ltb (lib.remaining buf) (8 + 8)) e
        (request_timestamp, buf) ← lib.get_i64 buf
        (accepted_timestamp, buf) ← lib.get_i64 buf
        ok (f request_timestamp accepted_timestamp))
  timestamps-Survives buf e f = Total-remaining lib buf _ (8 + 8) _ _ λ room.
      get_i64_then lib buf _ _ (omega arith) λ request buf1 e1.
        get_i64_then lib buf1 _ _ (omega arith) λ accepted rest e2. Total-ok _ _ tt

  pub accepted-Survives : (bytes : List ℕ) → Survives (decode_connection_request_accepted lib bytes)
  unfolding decode_connection_request_accepted
  accepted-Survives bytes = Total-enough _ (length bytes) (1 + 7) _ _ λ room.
      get_u8_then lib bytes _ _ (omega arith) λ id buf1 e1.
        Total-reject _ (not (id == id_connection_request_accepted))
          (invalid_packet "Not a ConnectionRequestAccepted packet" []) _
          (address_then lib buf1 _ λ addr buf2. Total-remaining lib buf2 _ 2 _ _ λ more.
            get_u16_then lib buf2 _ _ (omega arith) λ index buf3 e3.
              Survives-then (skip_addresses lib 10 buf3) _ (skip_addresses-Survives 10 buf3)
                λ buf4. timestamps-Survives buf4 _ (λ request accepted. (addr, request, accepted)))

  pub new_incoming-Survives : (bytes : List ℕ) → Survives (decode_new_incoming_connection lib bytes)
  unfolding decode_new_incoming_connection
  new_incoming-Survives bytes = Total-enough _ (length bytes) (1 + 7) _ _ λ room.
      get_u8_then lib bytes _ _ (omega arith) λ id buf1 e1.
        Total-reject _ (not (id == id_new_incoming_connection))
          (invalid_packet "Not a NewIncomingConnection packet" []) _
          (address_then lib buf1 _ λ addr buf2.
            Survives-then (skip_addresses lib 10 buf2) _ (skip_addresses-Survives 10 buf2)
              λ buf3. timestamps-Survives buf3 _ (λ request accepted. (addr, request, accepted)))

  pub connected_ping-Survives : (bytes : List ℕ) → Survives (decode_connected_ping lib bytes)
  unfolding decode_connected_ping
  connected_ping-Survives bytes = Total-enough _ (length bytes) (1 + 8) _ _ λ room.
      get_u8_then lib bytes _ _ (omega arith) λ id buf1 e1.
        Total-reject _ (not (id == id_connected_ping))
          (invalid_packet "Not a ConnectedPing packet" []) _
          (get_i64_then lib buf1 _ _ (omega arith) λ timestamp rest e2. Total-ok _ _ tt)

  pub connected_pong-Survives : (bytes : List ℕ) → Survives (decode_connected_pong lib bytes)
  unfolding decode_connected_pong
  connected_pong-Survives bytes = Total-enough _ (length bytes) (1 + 8 + 8) _ _ λ room.
      get_u8_then lib bytes _ _ (omega arith) λ id buf1 e1.
        Total-reject _ (not (id == id_connected_pong))
          (invalid_packet "Not a ConnectedPong packet" []) _
          (get_i64_then lib buf1 _ _ (omega arith)
            λ ping buf2 e2. get_i64_then lib buf2 _ _ (omega arith) λ pong rest e3. Total-ok _ _ tt)
