-- ===== src/Reliability/Levels/Examples.antt =====
-- Tests of the reliability levels.
use raknet.Base.{◌≡◌, refl}
use raknet.Reliability.Levels.{reliable_ordered, header_size, is_reliable, is_sequenced, is_ordered}

header_size_test : header_size reliable_ordered ≡ 10
unfolding header_size is_reliable is_sequenced is_ordered
header_size_test = refl
