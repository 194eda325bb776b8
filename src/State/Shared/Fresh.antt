-- ===== src/State/Shared/Fresh.antt =====
-- state/shared.rs: a new connection.
use raknet.Base.{ℕ, ◌≡◌, false, ok, refl}
use raknet.Reliability.BitVec.{BitVec}
use raknet.State.Connection
use raknet.State.Connection.{load, from_u8, to_u8}
use raknet.State.Shared.{new, is_connected}

pub is_connected-new : (bits : BitVec) (now mtu : ℕ) → is_connected (new bits now mtu) ≡ ok false
unfolding is_connected new load from_u8 to_u8 Connection.new
is_connected-new bits now mtu = refl
