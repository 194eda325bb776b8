-- ===== src/Reliability/Ordered/Examples.antt =====
-- Tests of the ordered channel, and the theorems at concrete histories.
use raknet.Base.{arrives, ◌≤◌, All, ℕ, ◌≡◌, ◌<◌, ◌^◌, true, List, [], ◌∷◌, refl, arith}
use raknet.Base.Map
use raknet.Reliability.Ordered.{drain, OrderedChannel, new, insert}
use raknet.Reliability.Ordered.Drain.{sent}
use raknet.Reliability.Ordered.Exactly.{run, run_in_order, delivers_in_full, stuck_after_wrap}

-- The packet of index `k` is the number `k`.
abbrev arrivals : List ℕ
arrivals = 2 ∷ 0 ∷ 2 ∷ 1 ∷ 0 ∷ []

arrivals_below : (limit : ℕ) → 3 ≤ limit → All (λ i. i < limit) arrivals
arrivals_below limit h =
    (omega arith, (omega arith, (omega arith, (omega arith, (omega arith, tt)))))

abbrev late_channel : OrderedChannel ℕ
late_channel = record { next_index = 2 ^ 24; queue = []; max_queue_size = 256 }

run_test : (run (λ k. k) new arrivals).0 ≡ 0 ∷ 1 ∷ 2 ∷ []
unfolding run new insert drain Map.insert Map.lookup
run_test = refl

run_in_order_example :
    (run (λ k. k) new arrivals).0 ≡ sent (λ k. k) 0 (run (λ k. k) new arrivals).1.next_index
run_in_order_example = run_in_order (λ k. k) arrivals (arrivals_below (2 ^ 24) (omega arith))

arrivals_complete : (k : ℕ) → k < 3 → arrives k arrivals ≡ true
arrivals_complete k h = ground arith

delivers_in_full_example : (run (λ k. k) new arrivals).0 ≡ sent (λ k. k) 0 3
delivers_in_full_example =
    delivers_in_full (λ k. k) 3 arrivals (omega arith) (arrivals_below 3 (omega arith))
      arrivals_complete

stuck_after_wrap_example : run (λ k. k) late_channel arrivals ≡ ([], late_channel)
stuck_after_wrap_example =
    stuck_after_wrap (λ k. k) late_channel arrivals (omega arith)
      (arrivals_below (2 ^ 24) (omega arith))
