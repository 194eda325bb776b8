-- ===== src/Reliability/Fragment/Reassembly.antt =====
-- reliability/fragment.rs: a split packet is put together from its fragments in any order.
use raknet.Base.{
  arrives, ℕ, ◌<◌, ◌≡◌, true, false, not, ◌&&◌, ◌||◌, none, some, List, [], ◌∷◌, leb, ◌==◌, length,
  arith, refl, ap, ◌∙◌, sym, All, Bool-cases, inl, inr, leb_gt, ==_iff, subst,
}
use raknet.Base.Map
use raknet.Base.Map.{Map}
use raknet.Reliability.Fragment.{
  FragmentEntry, FragmentQueue, reassemble, entry_or_insert, insert_in_entry, insert,
}
use raknet.Reliability.Fragment.Joined.{joined, Incomplete, grown-Incomplete, complete-joined}

-- The packets that are delivered while the fragments with these indices arrive.
pub delivered : (ℕ → List ℕ) → FragmentQueue → ℕ → ℕ → List ℕ → List (List ℕ)
delivered part q id n [] = []
delivered part q id n (i ∷ is) =
    let (packet, q') = insert q 0 id i n (part i) in
    let later = delivered part q' id n is in
    elim packet [ none ↦ later | some bytes ↦ bytes ∷ later ]

module _ (part : ℕ → List ℕ) (n : ℕ) where
  -- The queue takes fragments of this split, which is not complete.
  pub record Waiting (id : ℕ) (q : FragmentQueue) : Type 0 where
    pub room :
        (leb q.max_concurrent (length q.splits) && not (Map.contains_key id q.splits)) ≡ false
    pub incomplete : Incomplete part n (entry_or_insert q 0 id n)

  entry_after :
      (q : FragmentQueue) (id : ℕ) (e : FragmentEntry)
      → entry_or_insert (record q { splits = Map.insert id e q.splits }) 0 id n ≡ e
  unfolding entry_or_insert
  entry_after q id e =
      let found : Map.lookup id (Map.insert id e q.splits) ≡ some e =
        ground (arith, Map.lookup-insert q.splits id id e) in
      rw (entry_or_insert, found) refl

  waits_on :
      (q : FragmentQueue) (id : ℕ) (e : FragmentEntry)
      → Incomplete part n e
      → Waiting id (record q { splits = Map.insert id e q.splits })
  waits_on q id e w = record {
    room = ground (arith, Map.lookup-insert q.splits id id e);
    incomplete = subst (Incomplete part n) (sym (entry_after q id e)) w;
  }

  insert-Waiting :
      (id : ℕ) (q : FragmentQueue) (i : ℕ)
      → Waiting id q
      → i < n
      → insert q 0 id i n (part i) ≡ insert_in_entry q (entry_or_insert q 0 id n) id i n (part i)
  unfolding insert
  insert-Waiting id q i w h = rw (leb_gt n i h, w.room) refl

  entry_twice :
      (q : FragmentQueue) (e : FragmentEntry) (id i : ℕ)
      → Incomplete part n e
      → Map.contains_key i e.fragments ≡ true
      → insert_in_entry q e id i n (part i) ≡ (none, record q { splits = Map.insert id e q.splits })
  unfolding insert_in_entry
  entry_twice q e id i w twice = rw (w.same_count, (==_iff n n).1 refl, twice) refl

  entry_done :
      (q : FragmentQueue) (e : FragmentEntry) (id i : ℕ)
      → Incomplete part n e
      → Map.contains_key i e.fragments ≡ false
      → (length (Map.insert i (part i) e.fragments) == n) ≡ true
      → insert_in_entry q e id i n (part i) ≡ (
        some (reassemble (Map.insert i (part i) e.fragments)),
        record q { splits = Map.remove id q.splits },
      )
  unfolding insert_in_entry
  entry_done q e id i w fresh done = rw (w.same_count, (==_iff n n).1 refl, fresh, done) refl

  entry_more :
      (q : FragmentQueue) (e : FragmentEntry) (id i : ℕ)
      → Incomplete part n e
      → Map.contains_key i e.fragments ≡ false
      → (length (Map.insert i (part i) e.fragments) == n) ≡ false
      → insert_in_entry q e id i n (part i) ≡ (
        none,
        record q {
          splits =
              Map.insert id (record e { fragments = Map.insert i (part i) e.fragments }) q.splits;
        },
      )
  unfolding insert_in_entry
  entry_more q e id i w fresh more = rw (w.same_count, (==_iff n n).1 refl, fresh, more) refl

  -- What comes of one fragment.
  abbrev Remains : FragmentQueue → ℕ → List ℕ → Type 0
  Remains q id is =
      (k : ℕ)
      → k < n
      → (Map.contains_key k (entry_or_insert q 0 id n).fragments || arrives k is) ≡ true

  Remains-after :
      (id : ℕ) (q : FragmentQueue) (is : List ℕ) (e : FragmentEntry)
      → ((k : ℕ) → k < n → (Map.contains_key k e.fragments || arrives k is) ≡ true)
      → Remains (record q { splits = Map.insert id e q.splits }) id is
  Remains-after id q is e all k under =
      subst (λ (f : FragmentEntry). (Map.contains_key k f.fragments || arrives k is) ≡ true)
        (sym (entry_after q id e)) (all k under)

  delivered-none :
      (id : ℕ) (q : FragmentQueue) (i : ℕ) (is : List ℕ) (q' : FragmentQueue)
      → insert q 0 id i n (part i) ≡ (none, q')
      → delivered part q id n (i ∷ is) ≡ delivered part q' id n is
  unfolding delivered
  delivered-none id q i is q' e = λ j. elim (e j).0 [
    | none ↦ delivered part (e j).1 id n is
    | some bytes ↦ bytes ∷ delivered part (e j).1 id n is
  ]

  delivered-some :
      (id : ℕ) (q : FragmentQueue) (i : ℕ) (is : List ℕ) (packet : List ℕ) (q' : FragmentQueue)
      → insert q 0 id i n (part i) ≡ (some packet, q')
      → delivered part q id n (i ∷ is) ≡ packet ∷ delivered part q' id n is
  unfolding delivered
  delivered-some id q i is packet q' e = λ j. elim (e j).0 [
    | none ↦ delivered part (e j).1 id n is
    | some bytes ↦ bytes ∷ delivered part (e j).1 id n is
  ]

  still :
      (id : ℕ) (q : FragmentQueue) (i : ℕ) (is : List ℕ) (e : FragmentEntry)
      → insert q 0 id i n (part i) ≡ (none, record q { splits = Map.insert id e q.splits })
      → ((rest : List (List ℕ)) × (delivered part
              (record q { splits = Map.insert id e q.splits })
              id
              n
              is
            ≡ joined part 0 n ∷ rest))
      → (rest : List (List ℕ)) × (delivered part q id n (i ∷ is) ≡ joined part 0 n ∷ rest)
  still id q i is e step (rest, later) =
      (rest, delivered-none id q i is (record q { splits = Map.insert id e q.splits }) step ∙ later)

  first_delivery :
      (id : ℕ) (q : FragmentQueue) (is : List ℕ)
      → Waiting id q
      → All (λ i. i < n) is
      → Remains q id is
      → (rest : List (List ℕ)) × (delivered part q id n is ≡ joined part 0 n ∷ rest)
  unfolding delivered
  first_delivery id q [] w h all =
      let full =
        Map.length-above (entry_or_insert q 0 id n).fragments 0 n w.incomplete.sorted
          (λ k _ under. ground (arith, all k under)) in
      absurd (omega (arith, full, w.incomplete.missing))
  first_delivery id q (i ∷ is) w h all =
      let e = entry_or_insert q 0 id n in
      let good = w.incomplete in
      let grown : FragmentEntry = record e { fragments = Map.insert i (part i) e.fragments } in
      elim (Bool-cases (Map.contains_key i e.fragments)) [
        | inl twice ↦
            still id q i is e (insert-Waiting id q i w h.0 ∙ entry_twice q e id i good twice) (
              first_delivery id (record q { splits = Map.insert id e q.splits }) is
                (waits_on q id e good) h.1
                (Remains-after id q is e (λ k under. ground (arith, all k under, twice))))
        | inr fresh ↦ elim (Bool-cases (length (Map.insert i (part i) e.fragments) == n)) [
          | inl done ↦ (
            delivered part (record q { splits = Map.remove id q.splits }) id n is,
            delivered-some id q i is (reassemble grown.fragments)
                  (record q { splits = Map.remove id q.splits })
                  (insert-Waiting id q i w h.0 ∙ entry_done q e id i good fresh done)
                ∙ ap
                    (λ p. p ∷ delivered part (record q { splits = Map.remove id q.splits }) id n is)
                    (complete-joined part n e i good h.0
                      ((==_iff (length grown.fragments) n).0 done)),
          )
          | inr more ↦
              still id q i is grown
                (insert-Waiting id q i w h.0 ∙ entry_more q e id i good fresh more)
                (first_delivery id (record q { splits = Map.insert id grown q.splits }) is
                  (waits_on q id grown (grown-Incomplete part n e i good h.0 fresh more)) h.1
                  (Remains-after id q is grown (λ k under.
                    ground (arith, all k under, Map.lookup-insert e.fragments i k (part i)))))
        ]
      ]

  fresh-Waiting :
      (id : ℕ) (q : FragmentQueue)
      → 0 < n
      → Map.lookup id q.splits ≡ none
      → length q.splits < q.max_concurrent
      → Waiting id q
  unfolding entry_or_insert
  fresh-Waiting id q some_parts absent room = record {
    room = ground arith;
    incomplete =
        rw (entry_or_insert, absent)
          (record {
            same_count = refl;
            sorted = tt;
            agrees = λ k x e. absurd (unfold Map.lookup in cc);
            missing = some_parts;
          });
  }

-- A split packet of `n` fragments of which the queue has none yet and for which it has room: when
-- all fragments arrive, in any order and with any repetitions, a packet is delivered, and the first
-- one delivered is the fragments joined in the order of their indices. No cleanup and no
-- fragment of another split comes between them.
pub reassembles :
    (part : ℕ → List ℕ) (n id : ℕ) (q : FragmentQueue) (is : List ℕ)
    → 0 < n
    → Map.lookup id q.splits ≡ none
    → length q.splits < q.max_concurrent
    → All (λ i. i < n) is
    → ((k : ℕ) → k < n → arrives k is ≡ true)
    → (rest : List (List ℕ)) × (delivered part q id n is ≡ joined part 0 n ∷ rest)
reassembles part n id q is some_parts absent room h every =
    first_delivery part n id q is (fresh-Waiting part n id q some_parts absent room) h
      (λ k under. ground (arith, every k under))
