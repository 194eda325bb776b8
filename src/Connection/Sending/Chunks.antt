-- ===== src/Connection/Sending/Chunks.antt =====
-- connection.rs: the pieces of a fragmented payload, and the queue that joins them.
use raknet.Base.{
  ℕ, zero, suc, ◌+◌, ◌-◌, ◌/◌, ◌≤◌, ◌<◌, ◌≡◌, true, Bool-cases, inl, inr, ltb, none, List, [], ◌∷◌,
  ◌++◌, length, length-drop, get_or, take, drop, All, arrives, arith, refl, ap, ◌∙◌, sym,
}
use raknet.Base.Map
use raknet.Reliability.Fragment.{FragmentQueue}
use raknet.Reliability.Fragment.Joined.{joined}
use raknet.Reliability.Fragment.Reassembly.{delivered, reassembles}
use raknet.Protocol.Datagram.RoundTrip.{concat}
use raknet.Connection.Sending.{chunks}
use native.Mathlib.Nat.{add-div_right, div-eq_of_lt}

take-drop : (n : ℕ) (xs : List ℕ) → take n xs ++ drop n xs ≡ xs
take-drop zero xs = refl
take-drop (suc n) [] = refl
take-drop (suc n) (x ∷ xs) = ap (◌∷◌ x) (take-drop n xs)

concat-chunks :
    (fuel size : ℕ) (bytes : List ℕ)
    → 0 < size
    → length bytes ≤ fuel
    → concat (chunks fuel size bytes) ≡ bytes
unfolding chunks
concat-chunks zero size [] h enough = refl
concat-chunks zero size (b ∷ bytes) h enough = absurd (omega (arith, enough))
concat-chunks (suc fuel) size [] h enough = refl
concat-chunks (suc fuel) size (b ∷ bytes) h enough =
    ap (◌++◌ (take size (b ∷ bytes))) (
      concat-chunks fuel size (drop size (b ∷ bytes)) h
        (omega (arith, length-drop size (b ∷ bytes), enough)))
    ∙ take-drop size (b ∷ bytes)

-- One more chunk, whether it is full or the last one.
one_more :
    (x size : ℕ) → 0 < size → 0 < x → suc (((x - size) + size - 1) / size) ≡ (x + size - 1) / size
one_more x size h some =
    let above : (x + size - 1) / size ≡ (x - 1) / size + 1 =
      ap (λ k. k / size) (omega (arith, some)) ∙ add-div_right (x - 1) h in
    let same : ((x - size) + size - 1) / size ≡ (x - 1) / size = elim (Bool-cases (ltb x size)) [
      | inl less ↦ div-eq_of_lt (ground (arith, h)) ∙ sym (div-eq_of_lt (ground (arith, some)))
      | inr more ↦ ap (λ k. k / size) (ground (arith, some))
    ] in
    omega (arith, above, same)

no_chunks : (size : ℕ) → 0 < size → 0 ≡ (0 + size - 1) / size
no_chunks size h = sym (div-eq_of_lt (omega (arith, h)))

length-chunks :
    (fuel size : ℕ) (bytes : List ℕ)
    → 0 < size
    → length bytes ≤ fuel
    → length (chunks fuel size bytes) ≡ (length bytes + size - 1) / size
unfolding chunks
length-chunks zero size [] h enough = no_chunks size h
length-chunks zero size (b ∷ bytes) h enough = absurd (omega (arith, enough))
length-chunks (suc fuel) size [] h enough = no_chunks size h
length-chunks (suc fuel) size (b ∷ bytes) h enough =
    let rest = drop size (b ∷ bytes) in
    let shorter : length rest ≡ length (b ∷ bytes) - size = length-drop size (b ∷ bytes) in
    ap suc (length-chunks fuel size rest h (omega (arith, shorter, enough)))
    ∙ ap (λ l. suc ((l + size - 1) / size)) shorter
    ∙ one_more (length (b ∷ bytes)) size h (omega arith)

abbrev piece : List (List ℕ) → ℕ → List ℕ
piece parts i = get_or parts i []

joined_tail :
    (part : List ℕ) (parts : List (List ℕ)) (from n : ℕ)
    → joined (piece (part ∷ parts)) (suc from) n ≡ joined (piece parts) from n
joined_tail part parts from zero = refl
joined_tail part parts from (suc n) =
    let next : suc from + 1 ≡ suc (from + 1) = omega arith in
    ap (◌++◌ (piece parts from))
      (ap (λ k. joined (piece (part ∷ parts)) k n) next ∙ joined_tail part parts (from + 1) n)

joined-concat : (parts : List (List ℕ)) → joined (piece parts) 0 (length parts) ≡ concat parts
joined-concat [] = refl
joined-concat (part ∷ parts) =
    ap (◌++◌ part) (joined_tail part parts 0 (length parts) ∙ joined-concat parts)

-- The pieces of a positive size into which `send_fragmented` cuts a payload that is not empty,
-- with the number of pieces that it sends along, join to the payload: a fragment queue with room
-- for a new split hands over the payload itself first, in whatever order the pieces arrive,
-- repeated ones included, as long as every piece arrives and no others.
pub chunks_reassemble :
    (bytes : List ℕ) (chunk_size id : ℕ) (q : FragmentQueue) (is : List ℕ)
    → 0 < chunk_size
    → 0 < length bytes
    → Map.lookup id q.splits ≡ none
    → length q.splits < q.max_concurrent
    → All (λ i. i < (length bytes + chunk_size - 1) / chunk_size) is
    → ((k : ℕ) → k < (length bytes + chunk_size - 1) / chunk_size → arrives k is ≡ true)
    → (rest : List (List ℕ)) × (delivered
          (λ i. get_or (chunks (length bytes) chunk_size bytes) i [])
          q
          id
          ((length bytes + chunk_size - 1) / chunk_size)
          is
        ≡ bytes ∷ rest)
chunks_reassemble bytes chunk_size id q is h some fresh room below every =
    let parts = chunks (length bytes) chunk_size bytes in
    let n = (length bytes + chunk_size - 1) / chunk_size in
    let count : length parts ≡ n = length-chunks (length bytes) chunk_size bytes h (omega arith) in
    let whole : joined (piece parts) 0 n ≡ bytes =
      ap (joined (piece parts) 0) (sym count)
      ∙ joined-concat parts
      ∙ concat-chunks (length bytes) chunk_size bytes h (omega arith) in
    let some_pieces : 0 < n = omega (arith, one_more (length bytes) chunk_size h some) in
    let (rest, first) = reassembles (piece parts) n id q is some_pieces fresh room below every in
    (rest, first ∙ ap (λ packet. packet ∷ rest) whole)
