-- ===== src/State/Metrics/Average.antt =====
-- state/metrics.rs: how a sample moves the round-trip time.
use raknet.Base.{ℕ, ◌^◌, ◌≤◌, ◌<◌, arith}
use raknet.State.Metrics.{ConnectionMetrics, update_rtt}

-- For an old round-trip time and a sample that are below 2 ^ 60 microseconds, the new round-trip time lies
-- between the smaller and the greater of the two.
pub update_rtt_between :
    (m : ConnectionMetrics) (sample low high : ℕ)
    → high < 2 ^ 60
    → low ≤ m.rtt
    → low ≤ sample
    → m.rtt ≤ high
    → sample ≤ high
    → (low ≤ (update_rtt m sample).rtt) × ((update_rtt m sample).rtt ≤ high)
unfolding update_rtt
update_rtt_between m sample low high small h1 h2 h3 h4 = (omega arith, omega arith)
