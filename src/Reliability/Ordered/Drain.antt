-- ===== src/Reliability/Ordered/Drain.antt =====
-- The loop of `insert`: it takes the packets that are due from the queue, in order, and stops at the
-- first gap.
use raknet.Base.{
  ℕ, zero, suc, ◌+◌, ◌-◌, ◌%◌, ◌^◌, ◌≤◌, ◌<◌, ◌≡◌, none, some, List, [], ◌∷◌, ◌++◌, length, arith,
  refl, ap, ap₂, max, ◌∙◌, inl, inr, Option-cases,
}
use raknet.Base.Map
use raknet.Base.Map.{Map}
use raknet.Reliability.Ordered.{drain}

module _ {A : Type 0} where
  -- The packets that the peer sent under `n` consecutive indices from `from` on.
  abbrev pub sent : (ℕ → A) → ℕ → ℕ → List A
  sent d from zero = []
  sent d from (suc n) = d from ∷ sent d (from + 1) n

  pub sent-append :
      (d : ℕ → A) (from m n : ℕ) → sent d from m ++ sent d (from + m) n ≡ sent d from (m + n)
  sent-append d from zero n =
      let here : from + 0 ≡ from = omega arith in
      let all : n ≡ 0 + n = omega arith in ap₂ (sent d) here all
  sent-append d from (suc m) n =
      let further : from + suc m ≡ from + 1 + m = omega arith in
      let total : suc (m + n) ≡ suc m + n = omega arith in
      ap (λ k. d from ∷ (sent d (from + 1) m ++ sent d k n)) further
      ∙ ap (◌∷◌ (d from)) (sent-append d (from + 1) m n)
      ∙ ap (sent d from) total

-- The channel is used with indices below a limit, of 24 bits at most.
module _ {A : Type 0} (limit : ℕ) (fits : limit ≤ 2 ^ 24) where
  -- What waits in the queue is what was sent under its index, a number below the limit.
  abbrev pub Agrees : (ℕ → A) → Map A → Type 0
  Agrees d queue = (k : ℕ) (x : A) → Map.lookup k queue ≡ some x → (x ≡ d k) × (k < limit)

  Agrees-remove :
      (d : ℕ → A) (queue : Map A) (j : ℕ)
      → Map.IsSorted 0 queue
      → Agrees d queue
      → Agrees d (Map.remove j queue)
  Agrees-remove d queue j s a k x e = ground (arith, Map.lookup-remove queue 0 j k s, a k x)

  pub Agrees-insert :
      (d : ℕ → A) (queue : Map A) (j : ℕ)
      → j < limit
      → Agrees d queue
      → Agrees d (Map.insert j (d j) queue)
  Agrees-insert d queue j h a k x e = ground (arith, Map.lookup-insert queue j k (d j), a k x)

  -- What the loop of `insert` leaves when it starts at `next`.
  pub record Drained (d : ℕ → A) (next : ℕ) (queue : Map A) (r : List A × ℕ × Map A) : Type 0 where
    pub forward : next ≤ r.1
    pub in_order : r.0 ≡ sent d next (r.1 - next)
    pub bounded : r.1 ≤ max next (limit)
    pub sorted : Map.IsSorted 0 r.2
    pub agrees : Agrees d r.2
    pub gap : Map.lookup r.1 r.2 ≡ none
    pub kept : (k : ℕ) → r.1 ≤ k → Map.lookup k r.2 ≡ Map.lookup k queue

  stopped :
      (d : ℕ → A) (next : ℕ) (queue : Map A)
      → next ≤ limit
      → Map.IsSorted 0 queue
      → Agrees d queue
      → Map.lookup next queue ≡ none
      → Drained d next queue ([], next, queue)
  stopped d next queue n s a e = record {
    forward = omega arith;
    in_order = let none_left : 0 ≡ next - next = omega arith in ap (sent d next) none_left;
    bounded = omega arith;
    sorted = s;
    agrees = a;
    gap = e;
    kept = λ k h. refl;
  }

  -- One more packet in front of what the rest of the loop takes.
  taken :
      (d : ℕ → A) (next : ℕ) (queue : Map A) (r : List A × ℕ × Map A)
      → next < limit
      → Map.IsSorted 0 queue
      → Drained d (next + 1) (Map.remove next queue) r
      → Drained d next queue (d next ∷ r.0, r.1, r.2)
  taken d next queue r n s v = record {
    forward = omega (arith, v.forward);
    in_order =
        let count : suc (r.1 - (next + 1)) ≡ r.1 - next = omega (arith, v.forward) in
        ap (◌∷◌ (d next)) v.in_order ∙ ap (sent d next) count;
    bounded = omega (arith, v.bounded);
    sorted = v.sorted;
    agrees = v.agrees;
    gap = v.gap;
    kept = λ k h. v.kept k h ∙ ground (arith, Map.lookup-remove queue 0 next k s, v.forward);
  }

  drain_stop :
      (fuel next : ℕ) (queue : Map A)
      → Map.lookup next queue ≡ none
      → drain (suc fuel) next queue ≡ ([], next, queue)
  unfolding drain
  drain_stop fuel next queue e = rw (e, drain)

  drain_step :
      (d : ℕ → A) (fuel next : ℕ) (queue : Map A) (x : A)
      → Map.lookup next queue ≡ some x
      → x ≡ d next
      → next < limit
      → drain (suc fuel) next queue
        ≡ (let r = drain fuel (next + 1) (Map.remove next queue) in (d next ∷ r.0, r.1, r.2))
  unfolding drain
  drain_step d fuel next queue x e same n =
      let up : (next + 1) % 2 ^ 32 ≡ next + 1 = omega arith in rw (e, drain) (rw (same, up) refl)

  pub drain-Drained :
      (d : ℕ → A) (fuel next : ℕ) (queue : Map A)
      → length queue ≤ fuel
      → next ≤ limit
      → Map.IsSorted 0 queue
      → Agrees d queue
      → Drained d next queue (drain fuel next queue)
  drain-Drained d zero next [] h n s a =
      unfold drain in stopped d next [] n s a (unfold Map.lookup in refl)
  drain-Drained d zero next (e ∷ m) h n s a = absurd (omega arith)
  drain-Drained d (suc fuel) next queue h n s a = elim (Option-cases (Map.lookup next queue)) [
    | inl e ↦ rw (drain_stop fuel next queue e) (stopped d next queue n s a e)
    | inr (x, e) ↦
        let (same, small) = a next x e in
        let fewer : length (Map.remove next queue) ≤ fuel =
          ground (arith, Map.length-remove queue next) in
        rw (drain_step d fuel next queue x e same small) (
          taken d next queue (drain fuel (next + 1) (Map.remove next queue)) small s (
            drain-Drained d fuel (next + 1) (Map.remove next queue) fewer (omega arith)
              (Map.remove-IsSorted queue 0 next s) (Agrees-remove d queue next s a)))
  ]
