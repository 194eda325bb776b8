-- ===== src/Reliability/Ordered/Delivery.antt =====
-- An ordered channel delivers the packets in the order of their indices, each once.
use raknet.Base.{
  ℕ, suc, ◌+◌, ◌-◌, ◌%◌, ◌^◌, ◌≤◌, ◌<◌, ◌≡◌, Bool, true, ◌||◌, none, List, [], ◌∷◌, ltb, length,
  arith, refl, ap, ◌∙◌, ℕ_discrete, dec_lt, ==_iff, subst, lt→ltb, ltb_ge, ne_test,
}
use raknet.Base.Map
use raknet.Base.Map.{Map}
use raknet.Protocol.Uint24.{wrapping_add32}
use raknet.Reliability.Ordered.{OrderedChannel, new, drain, deliver, insert}
use raknet.Reliability.Ordered.Drain.{sent, Agrees, Agrees-insert, Drained, drain-Drained}

module _ {A : Type 0} (limit : ℕ) (fits : limit ≤ 2 ^ 24) where
  -- The channel holds only what was sent, none of it due, and has not passed the limit.
  pub record Valid (d : ℕ → A) (c : OrderedChannel A) : Type 0 where
    pub within : c.next_index ≤ limit
    pub sorted : Map.IsSorted 0 c.queue
    pub agrees : Agrees limit fits d c.queue
    pub gap : Map.lookup c.next_index c.queue ≡ none

  pub new-Valid : (d : ℕ → A) → Valid d new
  unfolding new Map.lookup
  new-Valid d = record { within = omega arith; sorted = tt; agrees = λ k x e. cc; gap = refl }

  -- The index was delivered, or its packet waits.
  abbrev pub accepted : OrderedChannel A → ℕ → Bool
  accepted c k = ltb k c.next_index || Map.contains_key k c.queue

  -- What one call does: it delivers the packets from the next index on, in order, and loses none
  -- that it had accepted.
  pub record Advances (d : ℕ → A) (c : OrderedChannel A) (r : List A × OrderedChannel A)
      : Type 0 where
    pub valid : Valid d r.1
    pub forward : c.next_index ≤ r.1.next_index
    pub in_order : r.0 ≡ sent d c.next_index (r.1.next_index - c.next_index)
    pub same_limit : r.1.max_queue_size ≡ c.max_queue_size
    pub keeps : (k : ℕ) → accepted c k ≡ true → accepted r.1 k ≡ true

  pub stays : (d : ℕ → A) (c : OrderedChannel A) → Valid d c → Advances d c ([], c)
  stays d c v = record {
    valid = v;
    forward = omega arith;
    in_order =
        let nothing : 0 ≡ c.next_index - c.next_index = omega arith in
        ap (sent d c.next_index) nothing;
    same_limit = refl;
    keeps = λ k h. h;
  }

  queues :
      (d : ℕ → A) (c : OrderedChannel A) (i : ℕ)
      → Valid d c
      → i < limit
      → c.next_index < i
      → Advances d c ([], record c { queue = Map.insert i (d i) c.queue })
  queues d c i v h above = record {
    valid = record {
      within = v.within;
      sorted = Map.insert-IsSorted c.queue 0 i (d i) v.sorted (omega arith);
      agrees = Agrees-insert limit fits d c.queue i h v.agrees;
      gap = ground (arith, Map.lookup-insert c.queue i c.next_index (d i), v.gap);
    };
    forward = omega arith;
    in_order =
        let nothing : 0 ≡ c.next_index - c.next_index = omega arith in
        ap (sent d c.next_index) nothing;
    same_limit = refl;
    keeps = λ k kept. ground (arith, Map.lookup-insert c.queue i k (d i));
  }

  deliver-Advances :
      (d : ℕ → A) (c : OrderedChannel A)
      → Valid d c
      → c.next_index < limit
      → Advances d c (deliver c (d c.next_index))
  unfolding deliver
  deliver-Advances d c v h =
      let up : (c.next_index + 1) % 2 ^ 32 ≡ c.next_index + 1 = omega arith in
      rw up (
        from_loop (drain (length c.queue) (c.next_index + 1) c.queue) (
          drain-Drained limit fits d (length c.queue) (c.next_index + 1) c.queue (omega arith)
            (omega arith) v.sorted v.agrees))
    where
      from_loop :
          (r : List A × ℕ × Map A)
          → Drained limit fits d (c.next_index + 1) c.queue r
          → Advances d c (d c.next_index ∷ r.0, record c { next_index = r.1; queue = r.2 })
      from_loop r w = record {
        valid = record {
          within = omega (arith, w.bounded);
          sorted = w.sorted;
          agrees = w.agrees;
          gap = w.gap;
        };
        forward = omega (arith, w.forward);
        in_order =
            let count : suc (r.1 - (c.next_index + 1)) ≡ r.1 - c.next_index =
              omega (arith, w.forward) in
            ap (◌∷◌ (d c.next_index)) w.in_order ∙ ap (sent d c.next_index) count;
        same_limit = refl;
        keeps = λ k kept. elim (dec_lt k r.1) [
          | yes done ↦ ground arith
          | no later ↦ ground (arith, w.kept k (omega arith), w.forward)
        ];
      }

  deliver-forward :
      (d : ℕ → A) (c : OrderedChannel A)
      → Valid d c
      → c.next_index < limit
      → c.next_index < (deliver c (d c.next_index)).1.next_index
  unfolding deliver
  deliver-forward d c v h =
      let up : (c.next_index + 1) % 2 ^ 32 ≡ c.next_index + 1 = omega arith in
      let loop =
        drain-Drained limit fits d (length c.queue) (c.next_index + 1) c.queue (omega arith)
          (omega arith) v.sorted v.agrees in
      rw up (omega (arith, loop.forward))

  insert_next : (c : OrderedChannel A) (x : A) → insert c c.next_index x ≡ deliver c x
  unfolding insert
  insert_next c x = rw ((==_iff c.next_index c.next_index).1 refl)

  insert_queued :
      (c : OrderedChannel A) (i : ℕ) (x : A)
      → c.next_index < i
      → length c.queue < c.max_queue_size
      → insert c i x ≡ ([], record c { queue = Map.insert i x c.queue })
  unfolding insert
  insert_queued c i x h room = rw (
    ne_test i c.next_index (omega arith),
    lt→ltb c.next_index i h,
    lt→ltb (length c.queue) c.max_queue_size room,
  )

  pub insert_old :
      (c : OrderedChannel A) (i : ℕ) (x : A) → i < c.next_index → insert c i x ≡ ([], c)
  unfolding insert
  insert_old c i x h =
      rw (ne_test i c.next_index (omega arith), ltb_ge c.next_index i (omega arith))

  insert_full :
      (c : OrderedChannel A) (i : ℕ) (x : A)
      → c.next_index < i
      → c.max_queue_size ≤ length c.queue
      → insert c i x ≡ ([], c)
  unfolding insert
  insert_full c i x h full = rw (
    ne_test i c.next_index (omega arith),
    lt→ltb c.next_index i h,
    ltb_ge (length c.queue) c.max_queue_size full,
  )

  -- `insert` of a sent packet keeps the channel valid and delivers in order.
  pub insert-Advances :
      (d : ℕ → A) (c : OrderedChannel A) (i : ℕ)
      → Valid d c
      → i < limit
      → Advances d c (insert c i (d i))
  insert-Advances d c i v h = elim (ℕ_discrete c.next_index i) [
    | yes e ↦
        subst (λ j. Advances d c (insert c j (d j))) e
          (rw (insert_next c (d c.next_index)) (deliver-Advances d c v (omega arith)))
    | no ne ↦ elim (dec_lt i c.next_index) [
      | yes old ↦ rw (insert_old c i (d i) old) (stays d c v)
      | no new ↦ elim (dec_lt (length c.queue) c.max_queue_size) [
        | yes room ↦
            rw (insert_queued c i (d i) (omega arith) room) (queues d c i v h (omega arith))
        | no full ↦ rw (insert_full c i (d i) (omega arith) (omega arith)) (stays d c v)
      ]
    ]
  ]

  -- While there is room in the queue, no packet is lost: the one that comes is accepted.
  pub insert-accepted :
      (d : ℕ → A) (c : OrderedChannel A) (i : ℕ)
      → Valid d c
      → i < limit
      → length c.queue < c.max_queue_size
      → accepted (insert c i (d i)).1 i ≡ true
  insert-accepted d c i v h room = elim (ℕ_discrete c.next_index i) [
    | yes e ↦
        subst (λ j. accepted (insert c j (d j)).1 j ≡ true) e
          (rw (insert_next c (d c.next_index))
            (ground (arith, deliver-forward d c v (omega arith))))
    | no ne ↦ elim (dec_lt i c.next_index) [
      | yes old ↦ rw (insert_old c i (d i) old) (ground arith)
      | no new ↦
          rw (insert_queued c i (d i) (omega arith) room)
            (ground (arith, Map.lookup-insert c.queue i i (d i)))
    ]
  ]

module _ {A : Type 0} where
  -- The packet that the channel expects comes out first.
  pub insert_expected :
      (self : OrderedChannel A) (order_index : ℕ) (packet : A)
      → order_index ≡ self.next_index
      → (waiting : List A) × ((insert self order_index packet).0 ≡ packet ∷ waiting)
  unfolding insert deliver
  insert_expected self order_index packet h = (
    (drain (length self.queue) (wrapping_add32 self.next_index 1) self.queue).0,
    rw ((==_iff order_index self.next_index).1 h) refl,
  )
