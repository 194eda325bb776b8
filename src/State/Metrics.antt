-- ===== src/State/Metrics.antt =====
-- state/metrics.rs: what a connection measures. Durations and instants are numbers of microseconds, and
-- the clock's reading is an argument; the sums that the release build would wrap are written out.
pub mod Average
mod Examples
use raknet.Base.{ℕ, ◌+◌, ◌-◌, ◌*◌, ◌/◌, ◌%◌, ◌^◌, Bool, ltb, if◌then◌else◌}

pub record ConnectionMetrics : Type 0 where
  pub rtt : ℕ
  pub rtt_var : ℕ
  pub last_recv_time : ℕ
  pub last_send_time : ℕ
  pub bytes_sent : ℕ
  pub bytes_recv : ℕ
  pub packets_sent : ℕ
  pub packets_recv : ℕ

pub record MetricsSnapshot : Type 0 where
  pub rtt : ℕ
  pub rtt_var : ℕ
  pub bytes_sent : ℕ
  pub bytes_recv : ℕ
  pub packets_sent : ℕ
  pub packets_recv : ℕ

unfoldable pub new : ℕ → ConnectionMetrics
new now = record {
  rtt = 300_000;
  rtt_var = 0;
  last_recv_time = now;
  last_send_time = now;
  bytes_sent = 0;
  bytes_recv = 0;
  packets_sent = 0;
  packets_recv = 0;
}

-- The sample is in microseconds; `old_rtt * 7 + sample_micros` and `old_var * 3 + diff` are `u64` sums.
pub update_rtt : ConnectionMetrics → ℕ → ConnectionMetrics
update_rtt self sample =
    let sample_micros = sample % 2 ^ 64 in
    let diff =
      if ltb self.rtt sample_micros then sample_micros - self.rtt else self.rtt - sample_micros in
    record self {
      rtt = (self.rtt * 7 + sample_micros) % 2 ^ 64 / 8;
      rtt_var = (self.rtt_var * 3 + diff) % 2 ^ 64 / 4;
    }

unfoldable pub record_send : ConnectionMetrics → ℕ → ℕ → ConnectionMetrics
record_send self now bytes = record self {
  bytes_sent = (self.bytes_sent + bytes) % 2 ^ 64;
  packets_sent = (self.packets_sent + 1) % 2 ^ 64;
  last_send_time = now;
}

unfoldable pub record_recv : ConnectionMetrics → ℕ → ℕ → ConnectionMetrics
record_recv self now bytes = record self {
  bytes_recv = (self.bytes_recv + bytes) % 2 ^ 64;
  packets_recv = (self.packets_recv + 1) % 2 ^ 64;
  last_recv_time = now;
}

-- `saturating_sub` is the subtraction of natural numbers.
pub time_since_last_recv : ConnectionMetrics → ℕ → ℕ
time_since_last_recv self now = now - self.last_recv_time

pub time_since_last_send : ConnectionMetrics → ℕ → ℕ
time_since_last_send self now = now - self.last_send_time

pub snapshot : ConnectionMetrics → MetricsSnapshot
snapshot self = record {
  rtt = self.rtt;
  rtt_var = self.rtt_var;
  bytes_sent = self.bytes_sent;
  bytes_recv = self.bytes_recv;
  packets_sent = self.packets_sent;
  packets_recv = self.packets_recv;
}

unfoldable pub is_timed_out : ConnectionMetrics → ℕ → Bool
unfolding time_since_last_recv
is_timed_out self now = ltb (5_000_000 + self.rtt * 2) (time_since_last_recv self now)
