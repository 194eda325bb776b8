-- ===== src/Connection/Sharing/Examples.antt =====
-- The theorems on the tasks at a concrete connection.
use raknet.Base.{ℕ, ◌≡◌, true, List, [], ◌∷◌, ok, refl}
use raknet.Protocol.Address.{v4}
use raknet.Protocol.Buffer.{reference}
use raknet.Reliability.BitVec.{reference_bits}
use raknet.State.Connection.{connecting, load, from_u8, to_u8, store}
use raknet.State.Connection
use raknet.State.Shared
use raknet.State.Shared.{SharedState, is_closed, mark_disconnected}
use raknet.Connection.Receive.{receive_task}
use raknet.Connection.Sending.{send_task}
use raknet.Connection.Ticking.{flush_nacks, tick_task}
use raknet.Connection.World.{Env, World}
use raknet.Connection.Sharing.{Steps, stop, also, disconnects}
use raknet.Connection.Sharing.Sound.{Sound}
use raknet.Connection.Sharing.Tasks.{receives, sends, ticks, Run-Steps, Steps-fresh-Sound, no_nacks}

abbrev env : Env
env = record {
  instant = 7_000_000;
  system_time = 1_700_000_000_000_000;
  accepts = λ sent packet. true;
  peer_addr = ok (v4 127 0 0 1 19132);
}

abbrev fresh : World
fresh = record {
  shared = Shared.new reference_bits 0 1400;
  sent = [];
  delivered = [];
  ready_notifier = true;
  notified = 0;
}

-- A datagram with an unreliable frame, and a packet of no known class.
abbrev packets : List (List ℕ)
packets = (132 ∷ 3 ∷ 0 ∷ 0 ∷ 0 ∷ 0 ∷ 8 ∷ 254 ∷ []) ∷ (1 ∷ []) ∷ []

Run-Steps_example :
    Steps reference_bits fresh.shared
      (receive_task reference reference_bits env packets fresh).1.shared
Run-Steps_example =
    Run-Steps reference_bits reference fresh
      (receive_task reference reference_bits env packets fresh).1 (receives env packets)

Steps-fresh-Sound_example :
    Sound connecting (send_task reference env ((254 ∷ 1 ∷ []) ∷ []) fresh).1.shared
Steps-fresh-Sound_example =
    Steps-fresh-Sound reference_bits reference 0 1400
      (send_task reference env ((254 ∷ 1 ∷ []) ∷ []) fresh).1.shared
      (Run-Steps reference_bits reference fresh
        (send_task reference env ((254 ∷ 1 ∷ []) ∷ []) fresh).1 (sends env ((254 ∷ 1 ∷ []) ∷ [])))

abbrev gone : SharedState
gone = mark_disconnected fresh.shared

gone-Sound : Sound connecting gone
gone-Sound = Steps-fresh-Sound reference_bits reference 0 1400 gone (also stop disconnects)

gone-closed : is_closed gone ≡ ok true
unfolding is_closed mark_disconnected load store from_u8 to_u8 Connection.is_closed
gone-closed = refl

abbrev ticked : World
ticked = (tick_task reference 0 (env ∷ env ∷ []) fresh).1

no_nacks_example : flush_nacks reference env ticked ≡ (ok tt, ticked)
no_nacks_example =
    no_nacks reference_bits reference env 0 1400 ticked
      (Run-Steps reference_bits reference fresh ticked (ticks 0 (env ∷ env ∷ [])))
