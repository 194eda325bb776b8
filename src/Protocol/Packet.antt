-- ===== src/Protocol/Packet.antt =====
-- protocol/packet.rs: packet identifiers, and the classes of datagram-level packets; and the
-- protocol version of protocol/mod.rs.
mod Examples
use raknet.Base.{
  ℕ, ◌+◌, ◌<◌, ◌≤◌, ◌≡◌, ◌≢◌, Bool, true, false, ◌&&◌, ◌||◌, not, ◌==◌, bit_and, bit_or, refl, leb,
  ==_iff, if◌then◌else◌, arith,
}
use raknet.Base.Bits.{all_below, all_below_sound}

abbrev pub protocol_version : ℕ
protocol_version = 11

abbrev pub id_unconnected_ping : ℕ
id_unconnected_ping = 0x01

abbrev pub id_unconnected_pong : ℕ
id_unconnected_pong = 0x1c

abbrev pub id_open_connection_request_1 : ℕ
id_open_connection_request_1 = 0x05

abbrev pub id_open_connection_reply_1 : ℕ
id_open_connection_reply_1 = 0x06

abbrev pub id_open_connection_request_2 : ℕ
id_open_connection_request_2 = 0x07

abbrev pub id_open_connection_reply_2 : ℕ
id_open_connection_reply_2 = 0x08

abbrev pub id_connection_request : ℕ
id_connection_request = 0x09

abbrev pub id_connection_request_accepted : ℕ
id_connection_request_accepted = 0x10

abbrev pub id_new_incoming_connection : ℕ
id_new_incoming_connection = 0x13

abbrev pub id_disconnect_notification : ℕ
id_disconnect_notification = 0x15

abbrev pub id_incompatible_protocol_version : ℕ
id_incompatible_protocol_version = 0x19

abbrev pub id_already_connected : ℕ
id_already_connected = 0x12

abbrev pub id_no_free_incoming_connections : ℕ
id_no_free_incoming_connections = 0x14

abbrev pub id_connection_banned : ℕ
id_connection_banned = 0x17

abbrev pub id_connected_ping : ℕ
id_connected_ping = 0x00

abbrev pub id_connected_pong : ℕ
id_connected_pong = 0x03

abbrev pub id_frame_set : ℕ
id_frame_set = 0x80

abbrev pub id_ack : ℕ
id_ack = 0xc0

abbrev pub id_nack : ℕ
id_nack = 0xa0

abbrev pub bit_flag_datagram : ℕ
bit_flag_datagram = 0x80

abbrev pub bit_flag_valid : ℕ
bit_flag_valid = 0x04

abbrev pub bit_flag_ack : ℕ
bit_flag_ack = 0x40

abbrev pub bit_flag_nack : ℕ
bit_flag_nack = 0x20

abbrev same : Bool → Bool → Bool
same true b = b
same false b = not b

pub is_datagram : ℕ → Bool
is_datagram packet_id =
    not (bit_and packet_id bit_flag_datagram == 0)
    && bit_and packet_id bit_flag_ack == 0
    && bit_and packet_id bit_flag_nack == 0

pub is_ack : ℕ → Bool
is_ack packet_id =
    bit_and packet_id (bit_or bit_flag_datagram bit_flag_ack)
    == bit_or bit_flag_datagram bit_flag_ack

pub is_nack : ℕ → Bool
is_nack packet_id =
    bit_and packet_id (bit_or bit_flag_datagram bit_flag_nack)
      == bit_or bit_flag_datagram bit_flag_nack
    && bit_and packet_id bit_flag_ack == 0

ranges_table :
    all_below 256 (λ b.
      same (is_datagram b) (leb 0x80 b && leb b 0x9f)
      && (same (is_ack b) (leb 0xc0 b) && same (is_nack b) (leb 0xa0 b && leb b 0xbf)))
    ≡ true
unfolding all_below is_datagram is_ack is_nack
ranges_table = refl

-- For a first byte below 256, `is_datagram` holds of the range 0x80-0x9f, `is_ack` of 0xc0-0xff and
-- `is_nack` of 0xa0-0xbf.
pub classes_ranges :
    (b : ℕ)
    → b < 256
    → (is_datagram b ≡ (leb 0x80 b && leb b 0x9f))
      × (is_ack b ≡ leb 0xc0 b)
      × (is_nack b ≡ (leb 0xa0 b && leb b 0xbf))
classes_ranges b h = ground (arith, all_below_sound 256 _ b h ranges_table)
