-- ===== src/Protocol/Safety/Acks.antt =====
-- protocol/codec.rs: the decoders of acknowledgements and datagrams.
use raknet.Base.{
  ℕ, zero, suc, not, Bool, true, false, List, [], ◌∷◌, length, ◌==◌, reject_if, invalid_packet,
  arith,
}
use raknet.Protocol.Buffer.{Buffer}
use raknet.Protocol.Datagram.{decode_datagram}
use raknet.Protocol.Login.{decode_disconnect_notification}
use raknet.Protocol.Packet.{id_ack, id_nack, id_disconnect_notification, is_datagram}
use raknet.Protocol.Safety.{
  Total, Total-ok, Total-err, Total-reject, Total-enough, Total-remaining, get_u8_then,
  get_u16_then, advance_then,
}
use raknet.Protocol.Safety.Messages.{Survives, Survives-if, Survives-then}
use raknet.Reliability.Ack.{AckRangeList}
use raknet.Reliability.Ack.Codec.{
  insert_record, decode_single, decode_pair, decode_range, decode_records, decode_body,
  decode_ack_nack,
}
use raknet.Protocol.Safety.Frames.{u24_then}

module _ (lib : Buffer) where
  decode_single-Survives : (buf : List ℕ) → Survives (decode_single lib buf)
  unfolding decode_single
  decode_single-Survives buf =
      Total-remaining lib buf _ 3 _ _
        λ room. u24_then buf _ room λ seq. advance_then lib buf _ 3 _ room λ rest e. Total-ok _ _ tt

  decode_pair-Survives : (buf : List ℕ) → Survives (decode_pair lib buf)
  unfolding decode_pair
  decode_pair-Survives buf = Total-remaining lib buf _ 6 _ _ λ room.
      u24_then buf _ (omega arith) λ start. advance_then lib buf _ 3 _ (omega arith) λ buf1 e1.
        u24_then buf1 _ (omega arith)
          λ end. advance_then lib buf1 _ 3 _ (omega arith) λ rest e2. Total-ok _ _ tt

  decode_range-Survives : (buf : List ℕ) → Survives (decode_range lib buf)
  unfolding decode_range
  decode_range-Survives buf = Total-remaining lib buf _ 1 _ _ λ room.
      get_u8_then lib buf _ _ room λ kind rest e.
        Survives-if (kind == 1) _ _ (decode_single-Survives rest)
          (Survives-if (kind == 0) _ _ (decode_pair-Survives rest) (Total-err _ _))

  decode_records-Survives :
      (n : ℕ) (list : AckRangeList) (buf : List ℕ) → Survives (decode_records lib n list buf)
  unfolding decode_records
  decode_records-Survives zero list buf = Total-ok _ list tt
  decode_records-Survives (suc n) list buf =
      Survives-then (decode_range lib buf) _ (decode_range-Survives buf)
        λ r. decode_records-Survives n (insert_record list r.0) r.1

  decode_body-Survives : (ack : Bool) (buf : List ℕ) → Survives (decode_body lib ack buf)
  unfolding decode_body
  decode_body-Survives ack buf = Total-remaining lib buf _ 2 _ _ λ room.
      get_u16_then lib buf _ _ room λ count rest e.
        Survives-then (decode_records lib count [] rest) _ (decode_records-Survives count [] rest)
          λ list. Total-ok _ _ tt

  pub ack_nack-Survives : (bytes : List ℕ) → Survives (decode_ack_nack lib bytes)
  unfolding decode_ack_nack
  ack_nack-Survives [] = Total-err _ _
  ack_nack-Survives (id ∷ buf) =
      Survives-if (id == id_ack) _ _ (decode_body-Survives true buf)
        (Survives-if (id == id_nack) _ _ (decode_body-Survives false buf) (Total-err _ _))

pub datagram-Survives : (bytes : List ℕ) → Survives (decode_datagram bytes)
unfolding decode_datagram
datagram-Survives [] = Total-err _ _
datagram-Survives (id ∷ buf) = Total-enough _ (length (id ∷ buf)) 4 _ _ λ room.
    Total-reject _ (not (is_datagram id)) (invalid_packet "Not a datagram packet" []) _
      (u24_then buf _ (omega arith) λ seq. Total-ok _ _ tt)

pub disconnect-Survives : (bytes : List ℕ) → Survives (decode_disconnect_notification bytes)
unfolding decode_disconnect_notification Total
disconnect-Survives [] = tt
disconnect-Survives (id ∷ bytes) = rejects (not (id == id_disconnect_notification))
  where
    rejects :
        (c : Bool)
        → Survives (reject_if c (invalid_packet "Not a DisconnectNotification packet" []))
    rejects true = tt
    rejects false = tt
