-- ===== src/Connection/Examples/States.antt =====
-- Concrete states, frames and a system around them.
use raknet.Base.{ℕ, ◌≡◌, true, false, none, some, List, [], ◌∷◌, replicate, ok, refl, arith}
use raknet.Protocol.Address.{v4}
use raknet.Protocol.Frame.{Frame}
use raknet.Protocol.Frame.Decode.{Fits}
use raknet.Reliability.Fragment
use raknet.Reliability.Levels.{reliable_ordered}
use raknet.Reliability.Ordered
use raknet.Reliability.RecvWindow.{RecvWindow}
use raknet.Reliability.RecvWindow.Marks.{IsWindow}
use raknet.Reliability.SendQueue.{QueueEntry}
use raknet.State.Connection.{load, from_u8, to_u8}
use raknet.State.Metrics
use raknet.State.Shared.{is_connected}
use raknet.Connection.Frames.Channels.{IsGamePacket}
use raknet.Connection.World.{Env, World}

abbrev pub env : Env
env = record {
  instant = 7_000_000;
  system_time = 1_700_000_000_000_000;
  accepts = λ sent packet. true;
  peer_addr = ok (v4 127 0 0 1 19132);
}

-- A window from `base` on, of eight numbers that were not received yet.
abbrev pub window_from : ℕ → RecvWindow
window_from base = record {
  received = replicate 8 false;
  base_seq = base;
  max_size = 8;
  highest_seq = base;
  total_received = 0;
  total_duplicates = 0;
  total_out_of_order = 0;
}

abbrev pub entry : QueueEntry (List ℕ)
entry = record { packet = 132 ∷ []; last_send_time = 0; retry_count = 0 }

abbrev pub world_from : ℕ → World
world_from base = record {
  shared = record {
    state = 1;
    send_seq = 10;
    split_id = 0;
    mtu = 1400;
    metrics = Metrics.new 0;
    send_queue = record {
      packets = (5, entry) ∷ (7, entry) ∷ (9, entry) ∷ [];
      max_size = 2048;
      total_sent = 3;
      total_acked = 0;
      total_retransmitted = 0;
    };
    recv_window = window_from base;
    fragment_queue = (Fragment.with_capacity 512);
    ordered_channels = replicate 16 Ordered.new;
    pending_acks = [];
    pending_nacks = [];
    pending_pings = [];
    message_index = 0;
    order_indices = replicate 16 0;
    sequence_index = 0;
  };
  sent = [];
  delivered = [];
  ready_notifier = false;
  notified = 0;
}

pub window-IsWindow : IsWindow (window_from 0)
window-IsWindow = record {
  sized = refl;
  base = omega arith;
  positive = omega arith;
  small = omega arith;
}

pub high_window-IsWindow : IsWindow (window_from 416)
high_window-IsWindow = record {
  sized = refl;
  base = omega arith;
  positive = omega arith;
  small = omega arith;
}

-- An application's packet in a frame.
abbrev pub frame_on : ℕ → Frame
frame_on channel = record {
  reliability = reliable_ordered;
  message_index = some 0;
  sequence_index = none;
  order_index = some 0;
  order_channel = channel;
  split = none;
  payload = 254 ∷ 1 ∷ 2 ∷ [];
}

pub frame-Fits : Fits (frame_on 0)
frame-Fits = record {
  message = omega arith;
  sequence = omega arith;
  order = omega arith;
  channel = omega arith;
  fragment = tt;
  short = omega arith;
}

pub game : IsGamePacket (254 ∷ 1 ∷ 2 ∷ [])
game = (
  254,
  1 ∷ 2 ∷ [],
  refl,
  (λ e. omega (arith, e)),
  (λ e. omega (arith, e)),
  (λ e. omega (arith, e)),
)

pub connected : (base : ℕ) → is_connected (world_from base).shared ≡ ok true
unfolding is_connected load from_u8 to_u8
connected base = refl
