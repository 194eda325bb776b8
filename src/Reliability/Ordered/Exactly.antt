-- ===== src/Reliability/Ordered/Exactly.antt =====
-- reliability/ordered.rs: whole histories of an ordered channel.
use raknet.Base.{
  arrives, ℕ, suc, ◌+◌, ◌-◌, ◌^◌, ◌≤◌, ◌<◌, ◌≡◌, true, ◌||◌, List, [], ◌∷◌, ◌++◌, ◌==◌, length,
  arith, refl, ap, ap₂, sym, ◌∙◌, All, dec_lt, some, Bool-cases, inl, inr, ==_iff,
}
use raknet.Base.Map
use raknet.Base.Map.{Map}
use raknet.Reliability.Ordered.{OrderedChannel, new, insert}
use raknet.Reliability.Ordered.Drain.{sent, sent-append}
use raknet.Reliability.Ordered.Delivery.{
  Valid, new-Valid, accepted, Advances, stays, insert-Advances, insert-accepted, insert_old,
}

-- The packets of a peer arrive under these indices, in this order, with repetitions; the channel's
-- deliveries, and the channel after it.
unfoldable pub run : {A : Type 0} → (ℕ → A) → OrderedChannel A → List ℕ → List A × OrderedChannel A
run d c [] = ([], c)
run d c (i ∷ is) =
    let (ready, c') = insert c i (d i) in let (later, c'') = run d c' is in (ready ++ later, c'')

module _ {A : Type 0} (limit : ℕ) (fits : limit ≤ 2 ^ 24) where
  -- One call after another.
  both :
      (d : ℕ → A) (c : OrderedChannel A) (r q : List A × OrderedChannel A)
      → Advances limit fits d c r
      → Advances limit fits d r.1 q
      → Advances limit fits d c (r.0 ++ q.0, q.1)
  both d c r q a b = record {
    valid = b.valid;
    forward = omega (arith, a.forward, b.forward);
    in_order =
        let middle : r.1.next_index ≡ c.next_index + (r.1.next_index - c.next_index) =
          omega (arith, a.forward) in
        let total : r.1.next_index - c.next_index + (q.1.next_index - r.1.next_index)
            ≡ q.1.next_index - c.next_index =
          omega (arith, a.forward, b.forward) in
        ap₂ (◌++◌) a.in_order b.in_order
        ∙ ap
            (λ k.
              sent d c.next_index (r.1.next_index - c.next_index)
              ++ sent d k (q.1.next_index - r.1.next_index))
            middle
        ∙ sent-append d c.next_index (r.1.next_index - c.next_index)
            (q.1.next_index - r.1.next_index)
        ∙ ap (sent d c.next_index) total;
    same_limit = b.same_limit ∙ a.same_limit;
    keeps = λ k kept. b.keeps k (a.keeps k kept);
  }

  pub run-Advances :
      (d : ℕ → A) (is : List ℕ) (c : OrderedChannel A)
      → Valid limit fits d c
      → All (λ i. i < limit) is
      → Advances limit fits d c (run d c is)
  unfolding run
  run-Advances d [] c v h = stays limit fits d c v
  run-Advances d (i ∷ is) c v h =
      let first = insert-Advances limit fits d c i v h.0 in
      both d c (insert c i (d i)) (run d (insert c i (d i)).1 is) first
        (run-Advances d is (insert c i (d i)).1 first.valid h.1)

  -- A queue of indices below the limit has fewer entries than that.
  length_below :
      (queue : Map A) (low : ℕ)
      → Map.IsSorted low queue
      → ((k : ℕ) (x : A) → Map.lookup k queue ≡ some x → k < limit)
      → length queue ≤ limit - low
  unfolding Map.lookup
  length_below [] low s below = omega arith
  length_below ((j, x) ∷ queue) low s below =
      let top : j < limit = below j x (ground arith) in
      let rest =
        length_below queue (suc j) s.1
          (λ k y e. below k y (ground (arith, Map.lookup_below queue (suc j) k s.1))) in
      omega (arith, top, rest, s.0)

  run-accepted :
      (d : ℕ → A) (is : List ℕ) (c : OrderedChannel A)
      → Valid limit fits d c
      → limit < c.max_queue_size
      → All (λ i. i < limit) is
      → (k : ℕ) → (arrives k is || accepted limit fits c k) ≡ true
      → accepted limit fits (run d c is).1 k ≡ true
  unfolding run
  run-accepted d [] c v room h k e = e
  run-accepted d (i ∷ is) c v room h k e =
      let first = insert-Advances limit fits d c i v h.0 in
      run-accepted d is (insert c i (d i)).1 first.valid (omega (arith, first.same_limit, room)) h.1
        k
        (elim (Bool-cases (arrives k is)) [
          | inl later ↦ rw later
          | inr never ↦ elim (Bool-cases (k == i)) [
            | inl now ↦
                let same : i ≡ k = sym ((==_iff k i).0 now) in
                let few = length_below c.queue 0 v.sorted (λ j x q. (v.agrees j x q).1) in
                rw (never, sym same)
                  (insert-accepted limit fits d c i v h.0 (omega (arith, few, room)))
            | inr not_now ↦ rw never (first.keeps k (rw (not_now, never) at e))
          ]
        ])

from_start :
    {A : Type 0} (d : ℕ → A) (is : List ℕ)
    → (run d new is).0
      ≡ sent d (new {A = A}).next_index ((run d new is).1.next_index - (new {A = A}).next_index)
    → (run d new is).0 ≡ sent d 0 (run d new is).1.next_index
unfolding new run
from_start {A = A} d is e =
    let start : (new {A = A}).next_index ≡ 0 = unfold new in refl in
    let count : (run d new is).1.next_index - 0 ≡ (run d new is).1.next_index = omega arith in
    (rw start at e) ∙ ap (sent d 0) count

-- Whatever 24-bit indices arrive, in whatever order and with whatever repetitions, what the channel
-- has delivered in all is the packets sent under 0, 1, 2 and so on, up to its next expected index,
-- each once and in this order.
pub run_in_order :
    {A : Type 0} (d : ℕ → A) (is : List ℕ)
    → All (λ i. i < 2 ^ 24) is
    → (run d new is).0 ≡ sent d 0 (run d new is).1.next_index
run_in_order d is h =
    let a = run-Advances (2 ^ 24) (omega arith) d is new (new-Valid (2 ^ 24) (omega arith) d) h in
    from_start d is a.in_order

-- When the numbers below `n`, at most 255, all arrive, in any order and with any repetitions, the
-- channel delivers exactly the `n` packets in the order in which they were sent.
pub delivers_in_full :
    {A : Type 0} (d : ℕ → A) (n : ℕ) (is : List ℕ)
    → n < 256
    → All (λ i. i < n) is
    → ((k : ℕ) → k < n → arrives k is ≡ true)
    → (run d new is).0 ≡ sent d 0 n
delivers_in_full d n is small h every =
    let fits : n ≤ 2 ^ 24 = omega (arith, small) in
    let a = run-Advances n fits d is new (new-Valid n fits d) h in
    let c = (run d new is).1 in
    let done : c.next_index ≡ n = elim (dec_lt c.next_index n) [
      | yes early ↦
          let reached =
            run-accepted n fits d is new (new-Valid n fits d) (unfold new in small) h c.next_index
              (rw (every c.next_index early)) in
          absurd (ground (arith, reached, a.valid.gap))
      | no late ↦ omega (arith, a.valid.within)
    ] in
    from_start d is a.in_order ∙ ap (sent d 0) done

-- Once the next expected index has passed the 24 bits of the wire, every packet of a 24-bit index is
-- ignored, whatever arrives.
pub stuck_after_wrap :
    {A : Type 0} (d : ℕ → A) (c : OrderedChannel A) (is : List ℕ)
    → 2 ^ 24 ≤ c.next_index
    → All (λ i. i < 2 ^ 24) is
    → run d c is ≡ ([], c)
unfolding run
stuck_after_wrap d c [] past h = refl
stuck_after_wrap d c (i ∷ is) past h =
    let old : insert c i (d i) ≡ ([], c) =
      insert_old (2 ^ 24) (omega arith) c i (d i) (omega (arith, past, h.0)) in
    rw (old, stuck_after_wrap d c is past h.1) refl
