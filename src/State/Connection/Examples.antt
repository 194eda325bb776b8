-- ===== src/State/Connection/Examples.antt =====
-- Tests of the connection states.
use raknet.Base.{◌≡◌, false, refl}
use raknet.State.Connection.{connected, disconnected, to_u8, can_transition_to, valid_change}

no_way_back_test : can_transition_to disconnected connected ≡ false
unfolding can_transition_to to_u8 valid_change
no_way_back_test = refl
