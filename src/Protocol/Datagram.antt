-- ===== src/Protocol/Datagram.antt =====
-- protocol/codec.rs: datagrams, which carry encoded frames under a sequence number.
pub mod RoundTrip
use raknet.Base.{
  ℕ, ◌+◌, ◌/◌, ◌%◌, ◌^◌, bit_and, bit_or, Bool, not, List, [], ◌∷◌, ltb, ◌==◌, if◌then◌else◌,
  length, Result, ok, err, panic, ◌>>=◌, ◌>>◌, reject_if, invalid_packet,
}
use raknet.Protocol.Buffer.{Buffer}
use raknet.Protocol.Uint24.{read_u24_le}
use raknet.Protocol.Packet.{bit_flag_datagram, bit_flag_valid, is_datagram}

module _ (lib : Buffer) where
  open lib use {put_u8, put_slice}

  pub put_frames : List ℕ → List (List ℕ) → List ℕ
  put_frames buf [] = buf
  put_frames buf (frame ∷ frames) = put_frames (put_slice buf frame) frames

  pub encode_datagram : ℕ → List (List ℕ) → List ℕ
  unfolding put_frames
  encode_datagram seq frames =
      let buf = put_u8 [] (bit_or bit_flag_datagram bit_flag_valid) in
      let buf = put_u8 buf (bit_and seq 0xFF) in
      let buf = put_u8 buf (bit_and (seq / 2 ^ 8) 0xFF) in
      let buf = put_u8 buf (bit_and (seq / 2 ^ 16) 0xFF) in put_frames buf frames

-- `&data[1..]` and `data[0]` are in bounds behind the first test.
unfoldable pub decode_datagram : List ℕ → Result (ℕ × List ℕ)
decode_datagram [] = err (invalid_packet "Datagram too short" [])
decode_datagram (packet_id ∷ buf) = do
  reject_if (ltb (length (packet_id ∷ buf)) 4) (invalid_packet "Datagram too short" [])
  reject_if (not (is_datagram packet_id)) (invalid_packet "Not a datagram packet" [])
  seq ← read_u24_le buf
  ok (seq, buf)
