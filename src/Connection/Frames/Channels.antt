-- ===== src/Connection/Frames/Channels.antt =====
-- connection.rs: ordered frames, whole and split, on an open connection.
use raknet.Base.{
  ℕ, ◌<◌, ◌≤◌, ◌≡◌, ◌≢◌, true, Option, none, some, List, [], ◌∷◌, ◌++◌, length, get_or, set, ok,
  panic, refl, ap, ◌∙◌, sym, append-nil, append_assoc, lt→ltb, Bool-cases, inl, inr, ltb_ge,
  ne_test,
}
use raknet.Protocol.Buffer.{Buffer}
use raknet.Protocol.Frame.{Frame, SplitInfo}
use raknet.Protocol.Packet.{id_connected_ping, id_connected_pong, id_disconnect_notification}
use raknet.Reliability.Levels.{
  Reliability, unreliable, unreliable_sequenced, reliable, reliable_ordered, reliable_sequenced,
  is_ordered,
}
use raknet.Reliability.Ordered
use raknet.State.Shared.{is_connected}
use raknet.Connection.Frames.{
  deliver_reassembled, channel_at, insert_ordered, deliver_each, order_or_zero,
  deliver_frame_payload, deliver_reliable, deliver_by_level, handle_payload, handle_frame,
}
use raknet.Connection.World.{Env, World}

deliver_each_lem :
    (payloads : List (List ℕ)) (w : World)
    → deliver_each payloads w ≡ (ok tt, record w { delivered = w.delivered ++ payloads })
unfolding deliver_each
deliver_each_lem [] w = ap (λ d. (ok tt, record w { delivered = d })) (sym (append-nil w.delivered))
deliver_each_lem (p ∷ payloads) w =
    deliver_each_lem payloads (record w { delivered = w.delivered ++ (p ∷ []) })
    ∙ ap (λ d. (ok tt, record w { delivered = d })) (append_assoc w.delivered (p ∷ []) payloads)

-- The payload starts with an identifier that the connection does not take for itself.
abbrev pub IsGamePacket : List ℕ → Type 0
IsGamePacket payload =
    (packet_id : ℕ) × (bytes : List ℕ) × (payload ≡ packet_id ∷ bytes)
    × (packet_id ≢ id_connected_ping)
    × (packet_id ≢ id_connected_pong)
    × (packet_id ≢ id_disconnect_notification)

-- The world once an ordered frame was handed to its channel.
abbrev pub ordered_world : Frame → ℕ → World → World
ordered_world f order_index w =
    let channel = get_or w.shared.ordered_channels f.order_channel Ordered.new in
    let (payloads, channel') = Ordered.insert channel order_index f.payload in
    record w {
      shared = record w.shared {
        ordered_channels = set w.shared.ordered_channels f.order_channel channel';
      };
      delivered = w.delivered ++ payloads;
    }

reassembled_keeps :
    (r : Option (List ℕ)) (w : World)
    → (deliver_reassembled r w).1.shared.ordered_channels ≡ w.shared.ordered_channels
unfolding deliver_reassembled
reassembled_keeps none w = refl
reassembled_keeps (some bytes) w = refl

fragment_keeps :
    (env : Env) (f : Frame) (s : SplitInfo) (w : World)
    → f.split ≡ some s
    → (deliver_frame_payload env f w).1.shared.ordered_channels ≡ w.shared.ordered_channels
unfolding deliver_frame_payload
fragment_keeps env f s w part = rw part (reassembled_keeps _ _)

reliable_keeps :
    (env : Env) (f : Frame) (s : SplitInfo) (w : World)
    → f.split ≡ some s
    → (deliver_reliable env f w).1.shared.ordered_channels ≡ w.shared.ordered_channels
unfolding deliver_reliable
reliable_keeps env f s w part = elim (Bool-cases (is_ordered f.reliability)) [
  | inl e ↦ rw e (rw part (fragment_keeps env f s w part))
  | inr e ↦ rw e (fragment_keeps env f s w part)
]

by_level :
    (env : Env) (f : Frame) (s : SplitInfo) (w : World)
    → f.split ≡ some s
    → (r : Reliability)
    → (deliver_by_level env r f w).1.shared.ordered_channels ≡ w.shared.ordered_channels
unfolding deliver_by_level
by_level env f s w part unreliable = fragment_keeps env f s w part
by_level env f s w part unreliable_sequenced = fragment_keeps env f s w part
by_level env f s w part reliable = reliable_keeps env f s w part
by_level env f s w part reliable_ordered = reliable_keeps env f s w part
by_level env f s w part reliable_sequenced = reliable_keeps env f s w part

module _ (lib : Buffer) (env : Env) where
  game_packet :
      (f : Frame) (w : World)
      → IsGamePacket f.payload
      → is_connected w.shared ≡ ok true
      → handle_frame lib env f w ≡ deliver_by_level env f.reliability f w
  unfolding handle_frame handle_payload
  game_packet f w (packet_id, bytes, starts, no_ping, no_pong, no_disconnect) connected =
      rw
        (
          starts,
          ne_test packet_id id_connected_ping no_ping,
          ne_test packet_id id_connected_pong no_pong,
          ne_test packet_id id_disconnect_notification no_disconnect,
          connected,
        )
        refl

  in_channel :
      (f : Frame) (w : World) (order_index : ℕ)
      → f.order_channel < length w.shared.ordered_channels
      → insert_ordered f.order_channel order_index f.payload w ≡ (
        ok
            (Ordered.insert
              (get_or w.shared.ordered_channels f.order_channel Ordered.new)
              order_index
              f.payload).0,
        record (ordered_world f order_index w) { delivered = w.delivered },
      )
  unfolding insert_ordered channel_at
  in_channel f w order_index h =
      rw (lt→ltb f.order_channel (length w.shared.ordered_channels) h) refl

  past_channels :
      (f : Frame) (w : World) (order_index : ℕ)
      → length w.shared.ordered_channels ≤ f.order_channel
      → insert_ordered f.order_channel order_index f.payload w ≡ (panic, w)
  unfolding insert_ordered channel_at
  past_channels f w order_index h =
      rw (ltb_ge f.order_channel (length w.shared.ordered_channels) h) refl

  -- A whole reliable ordered frame with an application's packet and an order index, on an open
  -- connection: with a channel that the array has, the channel's `insert` decides what is
  -- delivered, behind what was delivered before; with a channel past the array the task panics and
  -- nothing has changed.
  pub handle_frame_ordered :
      (f : Frame) (w : World) (order_index : ℕ)
      → IsGamePacket f.payload
      → is_connected w.shared ≡ ok true
      → f.reliability ≡ reliable_ordered
      → f.split ≡ none
      → f.order_index ≡ some order_index
      → (f.order_channel < length w.shared.ordered_channels
          → handle_frame lib env f w ≡ (ok tt, ordered_world f order_index w))
        × (length w.shared.ordered_channels ≤ f.order_channel
            → handle_frame lib env f w ≡ (panic, w))
  unfolding deliver_by_level deliver_reliable is_ordered order_or_zero
  handle_frame_ordered f w order_index game connected level whole index = (
    (λ h.
        game_packet f w game connected
        ∙ rw (level) (
            rw (whole, index)
              (rw (in_channel f w order_index h) (
                deliver_each_lem
                  (Ordered.insert (get_or w.shared.ordered_channels f.order_channel Ordered.new)
                    order_index f.payload).0
                  (record (ordered_world f order_index w) { delivered = w.delivered }))))),
    (λ h.
        game_packet f w game connected
        ∙ rw (level) (rw (whole, index) (rw (past_channels f w order_index h) refl))),
  )

  -- A fragment with an application's packet, on an open connection, changes no ordered channel,
  -- whatever its level and its order index are.
  pub handle_frame_split :
      (f : Frame) (s : SplitInfo) (w : World)
      → IsGamePacket f.payload
      → is_connected w.shared ≡ ok true
      → f.split ≡ some s
      → (handle_frame lib env f w).1.shared.ordered_channels ≡ w.shared.ordered_channels
  handle_frame_split f s w game connected part =
      ap (λ r. r.1.shared.ordered_channels) (game_packet f w game connected)
      ∙ by_level env f s w part f.reliability
