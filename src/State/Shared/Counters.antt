-- ===== src/State/Shared/Counters.antt =====
-- state/shared.rs: the numbers that the counters give out.
use raknet.Base.{ℕ, ◌%◌, ◌<◌, ◌≡◌, length, get_or, set, lt→ltb, ok, ap}
use raknet.Protocol.Uint24.{wrapping_add32}
use raknet.Protocol.Uint24.Atomic.{fetch_add}
use raknet.Protocol.Uint24.Laws.{u24_mod, new-mod}
use raknet.State.Shared.{SharedState, next_send_seq, next_message_index, next_order_index}

pub next_send_seq_lem :
    (s : SharedState)
    → next_send_seq s ≡ (s.send_seq % u24_mod, record s { send_seq = wrapping_add32 s.send_seq 1 })
unfolding next_send_seq fetch_add
next_send_seq_lem s =
    ap (λ n. (n, record s { send_seq = wrapping_add32 s.send_seq 1 })) (new-mod s.send_seq)

pub next_message_index_lem :
    (s : SharedState)
    → next_message_index s
      ≡ (s.message_index % u24_mod, record s { message_index = wrapping_add32 s.message_index 1 })
unfolding next_message_index fetch_add
next_message_index_lem s =
    ap (λ n. (n, record s { message_index = wrapping_add32 s.message_index 1 }))
      (new-mod s.message_index)

pub next_order_index_lem :
    (s : SharedState) (channel : ℕ)
    → channel < length s.order_indices
    → next_order_index s channel ≡ (
      ok (get_or s.order_indices channel 0 % u24_mod),
      record s {
        order_indices =
            set s.order_indices channel (wrapping_add32 (get_or s.order_indices channel 0) 1);
      },
    )
unfolding next_order_index fetch_add
next_order_index_lem s channel h = rw (lt→ltb channel (length s.order_indices) h) (
    ap
      (λ n. (
        ok n,
        record s {
          order_indices =
              set s.order_indices channel (wrapping_add32 (get_or s.order_indices channel 0) 1);
        },
      ))
      (new-mod (get_or s.order_indices channel 0)))
