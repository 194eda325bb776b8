-- ===== src/Reliability/Fragment/Joined.antt =====
-- reliability/fragment.rs: the fragments of one split packet.
use raknet.Base.{
  ℕ, zero, suc, ◌+◌, ◌<◌, ◌≡◌, false, some, List, [], ◌∷◌, ◌++◌, ◌==◌, length, arith, refl, ap, ap₂,
  ◌∙◌, Option-cases, inl, inr,
}
use raknet.Base.Map
use raknet.Base.Map.{Map}
use raknet.Reliability.Fragment.{FragmentEntry, reassemble}

-- The fragments `from`, `from + 1` and so on, `n` in number, one after another.
abbrev pub joined : (ℕ → List ℕ) → ℕ → ℕ → List ℕ
joined part from zero = []
joined part from (suc n) = part from ++ joined part (from + 1) n

module _ (part : ℕ → List ℕ) (n : ℕ) where
  -- The fragments that are there are those of the packet, and some are missing.
  pub record Incomplete (e : FragmentEntry) : Type 0 where
    pub same_count : e.total_count ≡ n
    pub sorted : Map.IsSorted 0 e.fragments
    pub agrees : (k : ℕ) (x : List ℕ) → Map.lookup k e.fragments ≡ some x → (x ≡ part k) × (k < n)
    pub missing : length e.fragments < n

  -- All fragments make the packet.
  reassemble-joined :
      (m : Map (List ℕ)) (low : ℕ)
      → Map.IsSorted low m
      → ((k : ℕ) (x : List ℕ) → Map.lookup k m ≡ some x → (x ≡ part k) × (k < n))
      → low + length m ≡ n
      → reassemble m ≡ joined part low (length m)
  unfolding reassemble Map.lookup
  reassemble-joined [] low s a count = refl
  reassemble-joined ((k, x) ∷ m) low s a count =
      let tail : (j : ℕ) (y : List ℕ) → Map.lookup j m ≡ some y → (y ≡ part j) × (j < n) =
        λ j y e. a j y (ground (arith, Map.lookup_below m (suc k) j s.1)) in
      let few = Map.length-below m (suc k) n s.1 (λ j e. elim (Option-cases (Map.lookup j m)) [
        | inl absent ↦ absurd (ground (arith, e, absent))
        | inr (y, there) ↦ (tail j y there).1
      ]) in
      let own = a k x (ground arith) in
      let first : k ≡ low = omega (arith, few, own.1, s.0, count) in
      ap₂ ◌++◌ (own.0 ∙ ap part first) (
        reassemble-joined m (suc k) s.1 tail (omega (arith, first, count))
        ∙ ap (λ j. joined part j (length m)) (omega (arith, first)))

  pub grown-Incomplete :
      (e : FragmentEntry) (i : ℕ)
      → Incomplete e
      → i < n
      → Map.contains_key i e.fragments ≡ false
      → (length (Map.insert i (part i) e.fragments) == n) ≡ false
      → Incomplete (record e { fragments = Map.insert i (part i) e.fragments })
  grown-Incomplete e i w h fresh part_only = record {
    same_count = w.same_count;
    sorted = Map.insert-IsSorted e.fragments 0 i (part i) w.sorted (omega arith);
    agrees = λ k x f. ground (arith, Map.lookup-insert e.fragments i k (part i), w.agrees k x);
    missing = ground (arith, Map.length-insert e.fragments 0 i (part i) w.sorted, w.missing);
  }

  pub complete-joined :
      (e : FragmentEntry) (i : ℕ)
      → Incomplete e
      → i < n
      → length (Map.insert i (part i) e.fragments) ≡ n
      → reassemble (Map.insert i (part i) e.fragments) ≡ joined part 0 n
  complete-joined e i w h all =
      reassemble-joined (Map.insert i (part i) e.fragments) 0
        (Map.insert-IsSorted e.fragments 0 i (part i) w.sorted (omega arith))
        (λ k x f. ground (arith, Map.lookup-insert e.fragments i k (part i), w.agrees k x))
        (omega (arith, all))
      ∙ ap (joined part 0) all
