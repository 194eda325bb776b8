-- ===== src/Protocol/Packet/Examples.antt =====
-- Tests of the packet classes.
use raknet.Base.{◌≡◌, true, false, refl}
use raknet.Protocol.Packet.{id_ack, id_nack, id_frame_set, is_ack}

is_ack_test : (is_ack id_ack ≡ true) × (is_ack id_nack ≡ false) × (is_ack id_frame_set ≡ false)
unfolding is_ack
is_ack_test = (refl, refl, refl)
