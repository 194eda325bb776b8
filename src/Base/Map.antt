-- ===== src/Base/Map.antt =====
-- `BTreeMap` and `HashMap` with numeric keys: an association list with its keys in ascending order,
-- which is the order in which a `BTreeMap` is walked.
use raknet.Base.{
  ℕ, suc, ◌+◌, ◌≤◌, ◌<◌, ◌≡◌, Bool, true, ◌-◌, dec_lt, Option, none, some, is_some, List, [], ◌∷◌,
  ◌==◌, ltb, if◌then◌else◌, length, arith, refl,
}

abbrev pub Map {ℓ} : Type ℓ → Type ℓ
Map V = List (ℕ × V)

module _ {ℓ} {V : Type ℓ} where
  unfoldable pub lookup : ℕ → Map V → Option V
  lookup k [] = none
  lookup k ((j, v) ∷ m) = if j == k then some v else lookup k m

  unfoldable pub insert : ℕ → V → Map V → Map V
  insert k v [] = (k, v) ∷ []
  insert k v ((j, w) ∷ m) =
      if k == j then (k, v) ∷ m else if ltb k j then (k, v) ∷ (j, w) ∷ m else (j, w) ∷ insert k v m

  unfoldable pub remove : ℕ → Map V → Map V
  remove k [] = []
  remove k ((j, v) ∷ m) = if j == k then m else (j, v) ∷ remove k m

  abbrev pub contains_key : ℕ → Map V → Bool
  contains_key k m = is_some (lookup k m)

  -- The keys go up, from `low` on.
  abbrev pub IsSorted : ℕ → Map V → Type 0
  IsSorted low [] = Unit {0}
  IsSorted low ((k, v) ∷ m) = (low ≤ k) × IsSorted (suc k) m

  pub IsSorted-weaken : (m : Map V) (low high : ℕ) → low ≤ high → IsSorted high m → IsSorted low m
  IsSorted-weaken [] low high h s = tt
  IsSorted-weaken ((k, v) ∷ m) low high h s = (omega arith, s.1)

  pub lookup_below : (m : Map V) (low k : ℕ) → IsSorted low m → k < low → lookup k m ≡ none
  unfolding lookup
  lookup_below [] low k s h = refl
  lookup_below ((j, v) ∷ m) low k s h = ground (arith, lookup_below m (suc j) k s.1)

  pub insert-IsSorted :
      (m : Map V) (low k : ℕ) (v : V) → IsSorted low m → low ≤ k → IsSorted low (insert k v m)
  unfolding insert
  insert-IsSorted [] low k v s h = (h, tt)
  insert-IsSorted ((j, w) ∷ m) low k v s h = ground (arith, insert-IsSorted m (suc j) k v s.1)

  pub remove-IsSorted : (m : Map V) (low k : ℕ) → IsSorted low m → IsSorted low (remove k m)
  unfolding remove
  remove-IsSorted [] low k s = tt
  remove-IsSorted ((j, v) ∷ m) low k s =
      ground (arith, remove-IsSorted m (suc j) k s.1, IsSorted-weaken m low (suc j))

  pub lookup-insert :
      (m : Map V) (k j : ℕ) (v : V)
      → lookup j (insert k v m) ≡ (if k == j then some v else lookup j m)
  unfolding lookup insert
  lookup-insert [] k j v = refl
  lookup-insert ((i, w) ∷ m) k j v = ground (arith, lookup-insert m k j v)

  pub lookup-remove :
      (m : Map V) (low k j : ℕ)
      → IsSorted low m
      → lookup j (remove k m) ≡ (if k == j then none else lookup j m)
  unfolding lookup remove
  lookup-remove [] low k j s = ground arith
  lookup-remove ((i, w) ∷ m) low k j s =
      ground (arith, lookup-remove m (suc i) k j s.1, lookup_below m (suc i) j s.1)

  pub length-insert :
      (m : Map V) (low k : ℕ) (v : V)
      → IsSorted low m
      → length (insert k v m) ≡ (if contains_key k m then length m else suc (length m))
  unfolding lookup insert
  length-insert [] low k v s = refl
  length-insert ((i, w) ∷ m) low k v s =
      ground (arith, length-insert m (suc i) k v s.1, lookup_below m (suc i) k s.1)

  pub length-remove :
      (m : Map V) (k : ℕ) → length m ≡ length (remove k m) + (if contains_key k m then 1 else 0)
  unfolding lookup remove
  length-remove [] k = refl
  length-remove ((i, w) ∷ m) k = ground (arith, length-remove m k)

  -- A map with its keys in this interval has no more entries than that.
  pub length-below :
      (m : Map V) (low high : ℕ)
      → IsSorted low m
      → ((k : ℕ) → contains_key k m ≡ true → k < high)
      → length m ≤ high - low
  unfolding lookup
  length-below [] low high s below = omega arith
  length-below ((j, x) ∷ m) low high s below =
      let top : j < high = below j (ground arith) in
      let rest =
        length-below m (suc j) high s.1
          (λ k e. below k (ground (arith, lookup_below m (suc j) k s.1))) in
      omega (arith, top, rest, s.0)

  -- A map that has all keys of the interval has as many entries at least.
  pub length-above :
      (m : Map V) (low high : ℕ)
      → IsSorted low m
      → ((k : ℕ) → low ≤ k → k < high → contains_key k m ≡ true)
      → high - low ≤ length m
  unfolding lookup
  length-above [] low high s all = elim (dec_lt low high) [
    | yes more ↦ absurd (ground (arith, all low (omega arith) more))
    | no done ↦ omega arith
  ]
  length-above ((j, x) ∷ m) low high s all = elim (dec_lt low high) [
    | no done ↦ omega arith
    | yes more ↦
        let first : j ≡ low =
          ground (arith, all low (omega arith) more, lookup_below m (suc j) low s.1, s.0) in
        let rest =
          length-above m (suc j) high s.1
            (λ k above under. ground (arith, all k (omega (arith, first, above)) under)) in
        omega (arith, first, rest)
  ]
