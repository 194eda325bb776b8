-- ===== src/Connection/Ticking/Resend.antt =====
-- connection.rs: what a tick sends again.
use raknet.Base.{
  ◌≤◌, min, ℕ, ◌+◌, ◌*◌, ◌-◌, ◌≡◌, true, List, [], ◌∷◌, ◌++◌, map, length, ltb, if◌then◌else◌,
}
use raknet.Base.Map.{Map}
use raknet.Reliability.SendQueue.{QueueEntry}
use raknet.Protocol.Buffer.{Buffer}
use raknet.Connection.World.{Env, World}

-- The packets of a queue that were last sent more than a time ago.
unfoldable pub overdue : ℕ → ℕ → Map (QueueEntry (List ℕ)) → List (List ℕ)
overdue now limit [] = []
overdue now limit ((seq, entry) ∷ m) =
    if ltb limit (now - entry.last_send_time)
    then entry.packet ∷ overdue now limit m
    else overdue now limit m

-- An entry after a call: one that was last sent more than a time ago has just been sent again.
unfoldable pub refreshed : ℕ → ℕ → QueueEntry (List ℕ) → QueueEntry (List ℕ)
refreshed now limit entry =
    if ltb limit (now - entry.last_send_time)
    then record entry { last_send_time = now; retry_count = min (entry.retry_count + 1) 255 }
    else entry

unfoldable pub refresh : ℕ → ℕ → Map (QueueEntry (List ℕ)) → Map (QueueEntry (List ℕ))
refresh now limit m = map (λ e. (e.0, refreshed now limit e.1)) m

-- All packets of a queue, and that none of them was sent after an instant.
abbrev pub all_packets : Map (QueueEntry (List ℕ)) → List (List ℕ)
all_packets m = map (λ e. e.1.packet) m

abbrev pub IsSentBy : ℕ → ℕ × QueueEntry (List ℕ) → Type 0
IsSentBy now e = e.1.last_send_time ≤ now

-- The packets go out one after another, and the send queue stays.
record Sends (w w' : World) (packets : List (List ℕ)) : Type 0 where
  sent : w'.sent ≡ w.sent ++ packets
  queue : w'.shared.send_queue ≡ w.shared.send_queue
  rtt : w'.shared.metrics.rtt ≡ w.shared.metrics.rtt

module _ (env : Env)
    (takes : (sent : List (List ℕ)) (packet : List ℕ) → env.accepts sent packet ≡ true) where
  -- One call. The queue and the packets that were sent.
  record Resent (w w' : World) : Type 0 where
    sent :
        w'.sent
        ≡ w.sent ++ overdue env.instant (9 * w.shared.metrics.rtt) w.shared.send_queue.packets
    queue : w'.shared.send_queue ≡ record w.shared.send_queue {
      packets = refresh env.instant (9 * w.shared.metrics.rtt) w.shared.send_queue.packets;
      total_retransmitted =
          w.shared.send_queue.total_retransmitted
          + length (overdue env.instant (9 * w.shared.metrics.rtt) w.shared.send_queue.packets);
    }
    rtt : w'.shared.metrics.rtt ≡ w.shared.metrics.rtt
