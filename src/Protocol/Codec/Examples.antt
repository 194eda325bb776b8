-- ===== src/Protocol/Codec/Examples.antt =====
-- Tests of the messages.
use raknet.Base.{◌≡◌, false, ◌∷◌, refl}
use raknet.Protocol.Magic.{magic, check_magic}

check_magic_test : check_magic (7 ∷ magic) 0 ≡ false
unfolding check_magic
check_magic_test = refl
