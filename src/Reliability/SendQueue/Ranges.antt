-- ===== src/Reliability/SendQueue/Ranges.antt =====
-- reliability/send_queue.rs: which packets `acknowledge_range` removes.
use raknet.Base.{
  ℕ, suc, ◌+◌, ◌-◌, ◌≤◌, ◌≡◌, Bool, true, false, none, List, [], ◌∷◌, ◌++◌, leb, ◌&&◌, ◌||◌,
  if◌then◌else◌, ◌==◌, length, arith, refl, ap, ◌∙◌, sym, All, Bool-cases, inl, inr, ne_test,
  ==_iff, not, fun_ext, length-append,
}
use raknet.Base.Map
use raknet.Base.Map.{Map}
use raknet.Reliability.Ack.{range}
use raknet.Reliability.Ack
use raknet.Reliability.SendQueue.{
  QueueEntry, SendQueue, keys_in, remove_each, acknowledge, acknowledge_range, contains,
}

range_test :
    (start end : ℕ)
    → leb start end ≡ true
    → Ack.contains (range start end) ≡ (λ k. leb start k && leb k end)
unfolding Ack.contains
range_test start end h = fun_ext λ k. rw h refl

wrapped_test :
    (start end : ℕ)
    → leb start end ≡ false
    → Ack.contains (range start end) ≡ (λ k. leb start k || leb k end)
unfolding Ack.contains
wrapped_test start end h = fun_ext λ k. rw h refl

module _ {A : Type 0} where
  -- The entries whose keys are outside the range.
  abbrev pub outside : (ℕ → Bool) → Map (QueueEntry A) → Map (QueueEntry A)
  outside within [] = []
  outside within ((k, e) ∷ m) = if within k then outside within m else (k, e) ∷ outside within m

  abbrev remove_keys : List ℕ → Map (QueueEntry A) → Map (QueueEntry A)
  remove_keys [] m = m
  remove_keys (k ∷ ks) m = remove_keys ks (Map.remove k m)

  remove_keys-append :
      (js ks : List ℕ) (m : Map (QueueEntry A))
      → remove_keys (js ++ ks) m ≡ remove_keys ks (remove_keys js m)
  remove_keys-append [] ks m = refl
  remove_keys-append (j ∷ js) ks m = remove_keys-append js ks (Map.remove j m)

  remove_each-remove_keys :
      (ks : List ℕ) (self : SendQueue A) (count : ℕ)
      → remove_each ks self count ≡ (
        count + length ks,
        record self {
          packets = remove_keys ks self.packets;
          total_acked = self.total_acked + length ks;
        },
      )
  unfolding remove_each
  remove_each-remove_keys [] self count =
      let c : count ≡ count + 0 = omega arith in
      let t : self.total_acked ≡ self.total_acked + 0 = omega arith in
      λ i. (c i, record self { packets = self.packets; total_acked = t i })
  remove_each-remove_keys (k ∷ ks) self count =
      let c : count + 1 + length ks ≡ count + suc (length ks) = omega arith in
      let t : self.total_acked + 1 + length ks ≡ self.total_acked + suc (length ks) = omega arith in
      remove_each-remove_keys ks
        (record self { packets = Map.remove k self.packets; total_acked = self.total_acked + 1 })
        (count + 1)
      ∙ (λ i. (
        c i,
        record self { packets = remove_keys ks (Map.remove k self.packets); total_acked = t i },
      ))

  keys_above :
      (within : ℕ → Bool) (m : Map (QueueEntry A)) (low : ℕ)
      → Map.IsSorted low m
      → All (λ k. low ≤ k) (keys_in within m)
  unfolding keys_in
  keys_above within [] low s = tt
  keys_above within ((k, e) ∷ m) low s = elim (Bool-cases (within k)) [
    | inl e ↦
        rw e (
          s.0,
          keys_above within m low (Map.IsSorted-weaken m low (suc k) (omega (arith, s.0)) s.1),
        )
    | inr e ↦
        rw e (keys_above within m low (Map.IsSorted-weaken m low (suc k) (omega (arith, s.0)) s.1))
  ]

  remove_keys-cons :
      (ks : List ℕ) (j : ℕ) (e : QueueEntry A) (m : Map (QueueEntry A))
      → All (λ k. suc j ≤ k) ks
      → remove_keys ks ((j, e) ∷ m) ≡ ((j, e) ∷ remove_keys ks m)
  unfolding Map.remove
  remove_keys-cons [] j e m h = refl
  remove_keys-cons (k ∷ ks) j e m h =
      rw (ne_test j k (omega (arith, h.0))) (remove_keys-cons ks j e (Map.remove k m) h.1)

  remove_keys-keys_in :
      (within : ℕ → Bool) (m : Map (QueueEntry A)) (low : ℕ)
      → Map.IsSorted low m
      → remove_keys (keys_in within m) m ≡ outside within m
  unfolding keys_in Map.remove
  remove_keys-keys_in within [] low s = refl
  remove_keys-keys_in within ((k, e) ∷ m) low s = elim (Bool-cases (within k)) [
    | inl q ↦
        rw q (rw (remove_keys, (==_iff k k).1 refl) (remove_keys-keys_in within m (suc k) s.1))
    | inr q ↦ rw q (
        remove_keys-cons (keys_in within m) k e m (keys_above within m (suc k) s.1)
        ∙ ap (◌∷◌ (k, e)) (remove_keys-keys_in within m (suc k) s.1))
  ]

  lookup-outside :
      (within : ℕ → Bool) (m : Map (QueueEntry A)) (k : ℕ)
      → Map.lookup k (outside within m) ≡ (if within k then none else Map.lookup k m)
  unfolding Map.lookup
  lookup-outside within [] k = ground arith
  lookup-outside within ((j, e) ∷ m) k = ground (arith, lookup-outside within m k)

  length-outside :
      (within : ℕ → Bool) (m : Map (QueueEntry A))
      → length m ≡ length (outside within m) + length (keys_in within m)
  unfolding keys_in
  length-outside within [] = refl
  length-outside within ((k, e) ∷ m) = ground (arith, length-outside within m)

  pub outside-IsSorted :
      (within : ℕ → Bool) (m : Map (QueueEntry A)) (low : ℕ)
      → Map.IsSorted low m
      → Map.IsSorted low (outside within m)
  outside-IsSorted within [] low s = tt
  outside-IsSorted within ((k, e) ∷ m) low s = elim (Bool-cases (within k)) [
    | inl q ↦ rw q (
        Map.IsSorted-weaken (outside within m) low (suc k) (omega (arith, s.0))
          (outside-IsSorted within m (suc k) s.1))
    | inr q ↦ rw q (s.0, outside-IsSorted within m (suc k) s.1)
  ]

  -- Keys of one range stay when those of a disjoint range go.
  keys_in-outside :
      (p q : ℕ → Bool) (m : Map (QueueEntry A))
      → ((k : ℕ) → q k ≡ true → p k ≡ false)
      → keys_in q (outside p m) ≡ keys_in q m
  unfolding keys_in
  keys_in-outside p q [] apart = refl
  keys_in-outside p q ((k, e) ∷ m) apart = ground (arith, keys_in-outside p q m apart, apart k)

  outside-outside :
      (p q : ℕ → Bool) (m : Map (QueueEntry A))
      → outside q (outside p m) ≡ outside (λ k. p k || q k) m
  outside-outside p q [] = refl
  outside-outside p q ((k, e) ∷ m) = ground (arith, outside-outside p q m)

  remove_two :
      (p q : ℕ → Bool) (m : Map (QueueEntry A))
      → Map.IsSorted 0 m
      → ((k : ℕ) → q k ≡ true → p k ≡ false)
      → remove_keys (keys_in p m ++ keys_in q m) m ≡ outside (λ k. p k || q k) m
  remove_two p q m s apart =
      remove_keys-append (keys_in p m) (keys_in q m) m
      ∙ ap (remove_keys (keys_in q m)) (remove_keys-keys_in p m 0 s)
      ∙ ap (λ ks. remove_keys ks (outside p m)) (sym (keys_in-outside p q m apart))
      ∙ remove_keys-keys_in q (outside p m) 0 (outside-IsSorted p m 0 s)
      ∙ outside-outside p q m

  length_two :
      (p q : ℕ → Bool) (m : Map (QueueEntry A))
      → ((k : ℕ) → q k ≡ true → p k ≡ false)
      → length m ≡ length (outside (λ k. p k || q k) m) + length (keys_in p m ++ keys_in q m)
  length_two p q m apart = omega (
    arith,
    length-outside p m,
    length-outside q (outside p m),
    ap length (keys_in-outside p q m apart),
    ap length (outside-outside p q m),
    length-append (keys_in p m) (keys_in q m),
  )

  -- The numbers of an ACK range, and the entries that `acknowledge_range` leaves.
  abbrev pub left_by : ℕ → ℕ → Map (QueueEntry A) → Map (QueueEntry A)
  left_by start end = outside (Ack.contains (range start end))

  removed_keys :
      (self : SendQueue A) (ks : List ℕ) (start end : ℕ)
      → remove_keys ks self.packets ≡ left_by start end self.packets
      → length self.packets ≡ length (left_by start end self.packets) + length ks
      → remove_each ks self 0 ≡ (
        length self.packets - length (left_by start end self.packets),
        record self {
          packets = left_by start end self.packets;
          total_acked =
              self.total_acked + (length self.packets - length (left_by start end self.packets));
        },
      )
  removed_keys self ks start end same count =
      let c : 0 + length ks ≡ length self.packets - length (left_by start end self.packets) =
        omega (arith, count) in
      let d : length ks ≡ length self.packets - length (left_by start end self.packets) =
        omega (arith, count) in
      remove_each-remove_keys ks self 0
      ∙ (λ i. (c i, record self { packets = same i; total_acked = self.total_acked + d i }))

  -- `acknowledge_range` as a filter.
  pub acknowledge_range_lem :
      (self : SendQueue A) (start end : ℕ)
      → Map.IsSorted 0 self.packets
      → acknowledge_range self start end ≡ (
        length self.packets - length (left_by start end self.packets),
        record self {
          packets = left_by start end self.packets;
          total_acked =
              self.total_acked + (length self.packets - length (left_by start end self.packets));
        },
      )
  unfolding acknowledge_range
  acknowledge_range_lem self start end s = elim (Bool-cases (leb start end)) [
    | inl h ↦
        let low : ℕ → Bool = λ k. leb start k && leb k end in
        rw h (
          removed_keys self (keys_in low self.packets) start end
            (rw (range_test start end h) (remove_keys-keys_in low self.packets 0 s))
            (rw (range_test start end h) (length-outside low self.packets)))
    | inr h ↦
        let high : ℕ → Bool = λ k. leb start k in
        let low : ℕ → Bool = λ k. leb k end in
        let apart : (k : ℕ) → low k ≡ true → high k ≡ false = λ k e. ground arith in
        rw h (
          removed_keys self (keys_in high self.packets ++ keys_in low self.packets) start end
            (rw (wrapped_test start end h) (remove_two high low self.packets s apart))
            (rw (wrapped_test start end h) (length_two high low self.packets apart)))
  ]

  pub left_by-length :
      (start end : ℕ) (m : Map (QueueEntry A)) → length (left_by start end m) ≤ length m
  left_by-length start end m = omega (arith, length-outside (Ack.contains (range start end)) m)

  pub contains-acknowledge :
      (self : SendQueue A) (seq k : ℕ)
      → Map.IsSorted 0 self.packets
      → (contains (acknowledge self seq).1 k ≡ (contains self k && not (seq == k)))
        × Map.IsSorted 0 (acknowledge self seq).1.packets
  unfolding acknowledge contains
  contains-acknowledge self seq k s =
      ground
        (arith, Map.lookup-remove self.packets 0 seq k s, Map.remove-IsSorted self.packets 0 seq s)

  -- `acknowledge_range` removes exactly the packets whose numbers the ACK range with these ends
  -- contains, also where the range wraps; it counts the packets that it removes, and adds the count
  -- to the total of acknowledged packets. The condition is that the map is in the order of its keys.
  pub contains-acknowledge_range :
      (self : SendQueue A) (start end k : ℕ)
      → Map.IsSorted 0 self.packets
      → (contains (acknowledge_range self start end).1 k
          ≡ (contains self k && not (Ack.contains (range start end) k)))
        × ((acknowledge_range self start end).0
              + length (acknowledge_range self start end).1.packets
            ≡ length self.packets)
        × ((acknowledge_range self start end).1.total_acked
            ≡ self.total_acked + (acknowledge_range self start end).0)
  unfolding contains
  contains-acknowledge_range self start end k s = rw (acknowledge_range_lem self start end s) (
    ground (arith, lookup-outside (Ack.contains (range start end)) self.packets k),
    omega (arith, left_by-length start end self.packets),
    refl,
  )
