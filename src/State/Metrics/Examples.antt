-- ===== src/State/Metrics/Examples.antt =====
-- The theorem of the round-trip time at concrete numbers.
use raknet.Base.{◌≤◌, arith}
use raknet.State.Metrics.{new, update_rtt}
use raknet.State.Metrics.Average.{update_rtt_between}

update_rtt_between_example :
    (20_000 ≤ (update_rtt (new 0) 20_000).rtt) × ((update_rtt (new 0) 20_000).rtt ≤ 300_000)
unfolding new
update_rtt_between_example =
    update_rtt_between (new 0) 20_000 20_000 300_000 (omega arith) (omega arith) (omega arith)
      (omega arith) (omega arith)
