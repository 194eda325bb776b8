-- ===== src/Reliability/Ack/Place.antt =====
-- Insertion into a range list by recursion, and its effect.
use raknet.Base.{
  ℕ, ◌+◌, ◌≤◌, ◌<◌, ◌≡◌, [], ◌∷◌, ◌==◌, ltb, ◌||◌, if◌then◌else◌, arith, refl, sym, dec_lt,
  ℕ_discrete, subst,
}
use raknet.Protocol.Uint24.Laws.{IsU24}
use raknet.Reliability.Ack.{AckRange, single, range, contains, range_start, range_end, AckRangeList}
use raknet.Reliability.Ack.Spaced.{
  IsProper, IsSpaced, holds, proper_bounds, contains_bounds, IsSpaced-weaken,
}

-- The same insertion by recursion on the list.
unfoldable pub joined : AckRange → AckRangeList → AckRangeList
joined r [] = r ∷ []
joined r (n ∷ rest) =
    if range_end r + 1 == range_start n
    then range (range_start r) (range_end n) ∷ rest
    else r ∷ n ∷ rest

unfoldable pub place : ℕ → AckRangeList → AckRangeList
place seq [] = single seq ∷ []
place seq (r ∷ rest) =
    let below =
      if seq + 1 == range_start r then range seq (range_end r) ∷ rest else single seq ∷ r ∷ rest in
    let later = place seq rest in
    if contains r seq
    then r ∷ rest
    else if ltb seq (range_start r)
    then below
    else if range_end r + 1 == seq
    then joined (range (range_start r) seq) rest
    else r ∷ later

-- The five places of a number with respect to the first range.
place_inside :
    (r : AckRange) (l : AckRangeList) (seq : ℕ)
    → IsProper r
    → range_start r ≤ seq
    → seq ≤ range_end r
    → place seq (r ∷ l) ≡ r ∷ l
unfolding place
place_inside r l seq h lo hi = ground (arith, contains_bounds r seq)

place_touching_below :
    (r : AckRange) (l : AckRangeList) (seq : ℕ)
    → IsProper r
    → seq + 1 ≡ range_start r
    → place seq (r ∷ l) ≡ range seq (range_end r) ∷ l
unfolding place
place_touching_below r l seq h e = ground (arith, contains_bounds r seq)

place_below :
    (r : AckRange) (l : AckRangeList) (seq : ℕ)
    → IsProper r
    → seq + 1 < range_start r
    → place seq (r ∷ l) ≡ single seq ∷ r ∷ l
unfolding place
place_below r l seq h lo = ground (arith, contains_bounds r seq)

place_touching_above :
    (r : AckRange) (l : AckRangeList) (seq : ℕ)
    → IsProper r
    → seq ≡ range_end r + 1
    → place seq (r ∷ l) ≡ joined (range (range_start r) seq) l
unfolding place
place_touching_above r l seq h e = ground (arith, contains_bounds r seq, proper_bounds r)

place_above :
    (r : AckRange) (l : AckRangeList) (seq : ℕ)
    → IsProper r
    → range_end r + 1 < seq
    → place seq (r ∷ l) ≡ r ∷ place seq l
unfolding place
place_above r l seq h hi = ground (arith, contains_bounds r seq, proper_bounds r)

place_cases {ℓ} :
    (P : AckRangeList → Type ℓ) (r : AckRange) (l : AckRangeList) (seq : ℕ)
    → IsProper r
    → (range_start r ≤ seq → seq ≤ range_end r → P (r ∷ l))
    → (seq + 1 ≡ range_start r → P (range seq (range_end r) ∷ l))
    → (seq + 1 < range_start r → P (single seq ∷ r ∷ l))
    → (seq ≡ range_end r + 1 → P (joined (range (range_start r) seq) l))
    → (range_end r + 1 < seq → P (r ∷ place seq l))
    → P (place seq (r ∷ l))
place_cases P r l seq h inside touch_below below touch_above above =
    elim (dec_lt seq (range_start r)) [
      | yes low ↦ elim (ℕ_discrete (seq + 1) (range_start r)) [
        | yes e ↦ subst P (sym (place_touching_below r l seq h e)) (touch_below e)
        | no ne ↦ subst P (sym (place_below r l seq h (omega arith))) (below (omega arith))
      ]
      | no high ↦ elim (dec_lt (range_end r) seq) [
        | no low ↦
            subst P (sym (place_inside r l seq h (omega arith) (omega arith)))
              (inside (omega arith) (omega arith))
        | yes past ↦ elim (ℕ_discrete seq (range_end r + 1)) [
          | yes e ↦ subst P (sym (place_touching_above r l seq h e)) (touch_above e)
          | no ne ↦ subst P (sym (place_above r l seq h (omega arith))) (above (omega arith))
        ]
      ]
    ]

joined-IsSpaced :
    (from a b : ℕ) (l : AckRangeList)
    → from ≤ a
    → a < b
    → IsU24 b
    → IsSpaced (b + 1) l
    → IsSpaced from (joined (range a b) l)
unfolding joined range_start range_end
joined-IsSpaced from a b [] hf hab hb w = (hf, (hab, hb), tt)
joined-IsSpaced from a b (n ∷ l) hf hab hb w = ground (arith, proper_bounds n)

holds-joined :
    (a b x : ℕ) (l : AckRangeList)
    → a < b
    → IsU24 b
    → IsSpaced (b + 1) l
    → holds (joined (range a b) l) x ≡ (contains (range a b) x || holds l x)
unfolding joined holds range_start range_end
holds-joined a b x [] hab hb w = refl
holds-joined a b x (n ∷ l) hab hb w = ground (
  arith,
  proper_bounds n,
  contains_bounds n x,
  contains_bounds (range a b) x,
  contains_bounds (range a (range_end n)) x,
)

pub place-IsSpaced :
    (l : AckRangeList) (from seq : ℕ)
    → IsSpaced from l
    → IsU24 seq
    → from ≤ seq
    → IsSpaced from (place seq l)
unfolding place range_start range_end
place-IsSpaced [] from seq w h f = omega arith
place-IsSpaced (r ∷ l) from seq w h f =
    place_cases (IsSpaced from) r l seq w.1 (λ lo hi. w)
      (λ e. (f, ground (arith, proper_bounds r), w.2)) (λ lo. (f, h, (omega arith, w.1, w.2)))
      (λ e.
        joined-IsSpaced from (range_start r) seq l w.0 (omega (arith, proper_bounds r w.1)) h
          (IsSpaced-weaken l (seq + 1) (range_end r + 2) (omega arith) w.2))
      (λ hi. (w.0, w.1, place-IsSpaced l (range_end r + 2) seq w.2 h (omega arith)))

-- Membership after an insertion.
abbrev HoldsAlso : ℕ → AckRangeList → ℕ → AckRangeList → Type 0
HoldsAlso seq l x k = holds k x ≡ (x == seq || holds l x)

pub holds-place :
    (l : AckRangeList) (from seq x : ℕ)
    → IsSpaced from l
    → IsU24 seq
    → holds (place seq l) x ≡ (x == seq || holds l x)
unfolding holds range_start range_end
holds-place [] from seq x w h = unfold place contains in ground arith
holds-place (r ∷ l) from seq x w h =
    place_cases (HoldsAlso seq (r ∷ l) x) r l seq w.1 (λ lo hi. ground (arith, contains_bounds r x))
      (λ e.
        ground (
          arith,
          contains_bounds r x,
          proper_bounds r,
          contains_bounds (range seq (range_end r)) x,
        ))
      (λ lo. ground (arith, contains_bounds (single seq) x))
      (λ e. ground (
        arith,
        holds-joined (range_start r) seq x l,
        proper_bounds r,
        contains_bounds r x,
        contains_bounds (range (range_start r) seq) x,
      ))
      (λ hi. ground (arith, holds-place l (range_end r + 2) seq x))
