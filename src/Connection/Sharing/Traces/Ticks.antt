-- ===== src/Connection/Sharing/Traces/Ticks.antt =====
-- connection.rs: what the tick task and `close` do to the shared state.
use raknet.Base.{ℕ, ◌+◌, ◌*◌, ◌%◌, true, false, List, [], ◌∷◌, map, ◌==◌, Result, ok, err, panic}
use raknet.Protocol.Buffer.{Buffer}
use raknet.Protocol.Login.{encode_connected_ping, encode_disconnect_notification}
use raknet.Reliability.Ack.Codec.{encode_ack, encode_nack}
use raknet.Reliability.BitVec.{BitVec}
use raknet.Reliability.SendQueue
use raknet.State.Shared.{
  SharedState, is_closed, is_connected, is_timed_out, mark_disconnecting, mark_disconnected,
}
use raknet.Connection.World.{Env, World, Action, now_micros, unix_millis}
use raknet.Connection.Ticking.{
  next_counter, is_empty, send_each, print_error, flush_acks, flush_nacks, check_retransmissions,
  send_keepalive_ping, cleanup_fragments, maintain, tick, tick_task, close,
}
use raknet.Connection.Sharing.{
  takes_acks, takes_nacks, expires, notes_ping, cleans_fragments, closes, disconnects, Steps,
}
use raknet.Connection.Sharing.Traces.{
  Runs, Runs-pure, Runs-lift, Runs-read, Runs-on_shared, Runs-try_shared, Runs-if, Runs-bind,
  Runs-change,
}
use raknet.Connection.Sharing.Traces.Sends.{Runs-socket_send, Runs-send_recorded}

module _ (bits : BitVec) where
  printed :
      (s : SharedState) (r : Result (Unit {0}) × World)
      → Steps bits s r.1.shared
      → Steps bits s
          (elim r.0 as (λ x. Result (Unit {0}) × World) [
            | ok _ ↦ (ok tt, r.1)
            | err _ ↦ (ok tt, r.1)
            | panic ↦ (panic, r.1)
          ]).1.shared
  printed s (ok u, w) h = h
  printed s (err e, w) h = h
  printed s (panic, w) h = h

  Runs-print_error : (m : Action (Unit {0})) → Runs bits m → Runs bits (print_error m)
  unfolding print_error
  Runs-print_error m k = record { at = λ w. printed w.shared (m w) (k.at w) }

module _ (bits : BitVec) (env : Env) where
  Runs-send_each : (packets : List (List ℕ)) → Runs bits (send_each env packets)
  unfolding send_each
  Runs-send_each [] = Runs-pure tt
  Runs-send_each (packet ∷ packets) =
      Runs-bind _ _ (Runs-send_recorded bits env packet) (λ u. Runs-send_each packets)

module _ (bits : BitVec) (lib : Buffer) (env : Env) where
  Runs-flush_acks : Runs bits (flush_acks lib env)
  unfolding flush_acks
  Runs-flush_acks = Runs-bind _ _ (Runs-read (λ s. ok s.pending_acks)) λ acks.
      Runs-if (is_empty acks) _ _ (Runs-pure tt) (
        Runs-bind _ _ (Runs-change _ (λ s. takes_acks)) λ u.
          Runs-bind _ _ (Runs-lift (encode_ack lib acks))
            λ packet. Runs-send_recorded bits env packet)

  Runs-flush_nacks : Runs bits (flush_nacks lib env)
  unfolding flush_nacks
  Runs-flush_nacks = Runs-bind _ _ (Runs-read (λ s. ok s.pending_nacks)) λ nacks.
      Runs-if (is_empty nacks) _ _ (Runs-pure tt) (
        Runs-bind _ _ (Runs-change _ (λ s. takes_nacks)) λ u.
          Runs-bind _ _ (Runs-lift (encode_nack lib nacks))
            λ packet. Runs-send_recorded bits env packet)

  Runs-check_retransmissions : Runs bits (check_retransmissions lib env)
  unfolding check_retransmissions
  Runs-check_retransmissions = Runs-bind _ _ (Runs-read (λ s. ok s.metrics.rtt)) λ rtt.
      Runs-bind _ _
        (Runs-on_shared {A = List (List ℕ)}
          (λ s.
            (let (expired, queue) = SendQueue.get_expired s.send_queue env.instant (rtt * 3) 3 in
              (map (λ e. e.1) expired, record s { send_queue = queue })))
          (λ s. expires env.instant (rtt * 3) 3))
        λ packets. Runs-send_each bits env packets

  Runs-send_keepalive_ping : Runs bits (send_keepalive_ping lib env)
  unfolding send_keepalive_ping
  Runs-send_keepalive_ping =
      Runs-bind _ _ (Runs-change _ (λ s. notes_ping (unix_millis env) env.instant))
        λ u. Runs-send_recorded bits env (encode_connected_ping lib (unix_millis env))

  Runs-maintain : (ping_counter : ℕ) → Runs bits (maintain lib env ping_counter)
  unfolding maintain cleanup_fragments
  Runs-maintain ping_counter = Runs-bind _ _ (Runs-print_error bits _ Runs-flush_acks) λ u.
      Runs-bind _ _ (Runs-print_error bits _ Runs-flush_nacks) λ u.
        Runs-bind _ _
          (Runs-if (ping_counter % 3 == 0) _ _ (Runs-print_error bits _ Runs-check_retransmissions)
            (Runs-pure tt))
          λ u.
            Runs-bind _ _
              (Runs-if (ping_counter % 20 == 0) _ _
                (Runs-change _ (λ s. cleans_fragments env.instant)) (Runs-pure tt))
              λ u.
                Runs-if (ping_counter % 50 == 0) _ _
                  (Runs-bind _ _ (Runs-read is_connected) λ connected.
                    Runs-if connected _ _ (Runs-print_error bits _ Runs-send_keepalive_ping)
                      (Runs-pure tt))
                  (Runs-pure tt)

  pub Runs-tick : (ping_counter : ℕ) → Runs bits (tick lib env ping_counter)
  unfolding tick
  Runs-tick ping_counter = Runs-bind _ _ (Runs-read is_closed) λ closed.
      Runs-if closed _ _ (Runs-pure false) (
        Runs-bind _ _ (Runs-lift (next_counter ping_counter)) λ counter.
          Runs-bind _ _ (Runs-read (λ s. ok (is_timed_out s (now_micros env)))) λ timed_out.
            Runs-if timed_out _ _
              (Runs-bind _ _ (Runs-change mark_disconnected (λ s. disconnects))
                λ u. Runs-pure false)
              (Runs-bind _ _ (Runs-maintain counter) λ u. Runs-pure true))

  pub Runs-close : Runs bits (close lib env)
  unfolding close
  Runs-close = Runs-bind _ _ (Runs-try_shared mark_disconnecting (λ s. closes)) λ closing.
      Runs-bind _ _
        (Runs-if closing _ _ (Runs-socket_send bits env encode_disconnect_notification)
          (Runs-pure tt))
        λ u. Runs-change mark_disconnected (λ s. disconnects)

pub Runs-tick_task :
    (bits : BitVec) (lib : Buffer) (ping_counter : ℕ) (envs : List Env)
    → Runs bits (tick_task lib ping_counter envs)
unfolding tick_task
Runs-tick_task bits lib ping_counter [] = Runs-pure tt
Runs-tick_task bits lib ping_counter (env ∷ envs) =
    Runs-bind _ _ (Runs-tick bits lib env ping_counter) λ goes_on.
      Runs-if goes_on _ _ (Runs-tick_task bits lib (ping_counter + 1) envs) (Runs-pure tt)
