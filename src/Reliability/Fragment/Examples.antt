-- ===== src/Reliability/Fragment/Examples.antt =====
-- Tests of the fragment queue, and the theorem at a concrete packet.
use raknet.Base.{arrives, ℕ, ◌≡◌, ◌<◌, ◌+◌, true, none, List, [], ◌∷◌, refl, arith}
use raknet.Base.Map
use raknet.Reliability.Fragment.{FragmentQueue, insert, cleanup_expired, expired_ids}
use raknet.Reliability.Fragment.Joined.{joined}
use raknet.Reliability.Fragment.Reassembly.{delivered, reassembles}

abbrev arrivals : List ℕ
arrivals = 2 ∷ 0 ∷ 2 ∷ 1 ∷ []

abbrev part : ℕ → List ℕ
part k = k ∷ (100 + k) ∷ []

-- One other split is on its way.
abbrev busy : FragmentQueue
busy = record {
  splits = (9, record { total_count = 2; fragments = (1, 7 ∷ []) ∷ []; first_received = 0 }) ∷ [];
  max_concurrent = 2;
  timeout = 8;
}

bad_index_test : (insert busy 0 4 3 3 (1 ∷ [])).0 ≡ none
unfolding insert
bad_index_test = refl

cleanup_expired_test : (cleanup_expired busy 9).0 ≡ 1
unfolding cleanup_expired expired_ids
cleanup_expired_test = refl

arrivals_complete : (k : ℕ) → k < 3 → arrives k arrivals ≡ true
arrivals_complete k h = ground arith

reassembles_example :
    (rest : List (List ℕ)) × (delivered part busy 4 3 arrivals ≡ joined part 0 3 ∷ rest)
reassembles_example =
    reassembles part 3 4 busy arrivals (omega arith) (unfold Map.lookup in refl) (omega arith)
      (omega arith, (omega arith, (omega arith, (omega arith, tt)))) arrivals_complete
