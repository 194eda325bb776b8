-- ===== src/Reliability/RecvWindow/Verdict.antt =====
-- reliability/recv_window.rs: every outcome of `mark_received`, and the repeated number.
use raknet.Base.{
  ℕ, ◌+◌, ◌/◌, ◌≤◌, ◌<◌, ◌≡◌, inl, inr, Bool, true, false, ◌&&◌, Option, none, some, length, get_or,
  set, replicate, ltb, leb, ok, arith, refl, sym, ap, ◌∙◌, Bool-cases, length-set, length-replicate,
  get_or-set_self, get_or-set_ne, get_or-replicate, subst, ◌-◌, ◌^◌,
}
use raknet.Protocol.Uint24.{seq_less_than}
use raknet.Protocol.Uint24.Laws.{IsU24}
use raknet.Protocol.Uint24.Sequence.{ahead}
use raknet.Reliability.BitVec.{BitVec}
use raknet.Reliability.RecvWindow.{RecvWindow, mark_received, mark_within, has_received, offset_of}
use raknet.Reliability.RecvWindow.Marks.{
  IsWindow, Remembers, Remembers-duplicate, Remembers-has_received, marked_window,
  marked_window-Remembers, accepts_within, jumped_window, new_base, middle, accepts_beyond,
  accepts_old, not_behind,
}

jumped_window-Remembers :
    (w : RecvWindow) (seq : ℕ) → IsWindow w → IsU24 seq → Remembers (jumped_window w seq) seq
jumped_window-Remembers w seq v h =
    let near : ahead (new_base w seq) seq ≡ w.max_size / 2 = middle w seq v h in
    let room : w.max_size / 2 < length (replicate w.max_size false) =
      omega (arith, length-replicate w.max_size false, v.positive) in
    record {
      window = record {
        sized =
            length-set (replicate w.max_size false) (w.max_size / 2) true
            ∙ length-replicate w.max_size false;
        base = omega arith;
        positive = v.positive;
        small = v.small;
      };
      inside = omega (arith, near, v.positive);
      marked =
          ap (λ n. get_or (set (replicate w.max_size false) (w.max_size / 2) true) n false) near
          ∙ get_or-set_self (replicate w.max_size false) (w.max_size / 2) true false room;
    }

-- Where a number of the old window lies in the new one.
in_new_window :
    (w : RecvWindow) (x j : ℕ)
    → IsWindow w
    → IsU24 x
    → IsU24 j
    → ahead w.base_seq x < w.max_size
    → w.max_size ≤ ahead w.base_seq j
    → ahead w.base_seq j ≤ ahead w.base_seq x + w.max_size / 2
    → ahead (new_base w j) x ≡ (ahead w.base_seq x + w.max_size / 2) - ahead w.base_seq j
in_new_window w x j v hx hj inside beyond near = omega (arith, v.small, v.base, v.positive)

module _ (lib : BitVec) where
  -- What a call answers, and the window that it leaves.
  pub data Verdict (w : RecvWindow) (seq : ℕ) : Type 0 where
    old : mark_received lib w seq ≡ ok (none, w) → Verdict w seq
    seen :
        mark_received lib w seq
          ≡ ok (some false, record w { total_duplicates = w.total_duplicates + 1 })
        → Verdict w seq
    fresh :
        (w' : RecvWindow)
        → mark_received lib w seq ≡ ok (some true, w')
        → Remembers w' seq
        → Verdict w seq

  within-Verdict :
      (w : RecvWindow) (seq : ℕ)
      → IsWindow w
      → IsU24 seq
      → ahead w.base_seq seq < w.max_size
      → Verdict w seq
  within-Verdict w seq v h inside =
      elim (Bool-cases (get_or w.received (ahead w.base_seq seq) false)) [
        | inl e ↦
            seen
              (Remembers-duplicate lib w seq h (record { window = v; inside = inside; marked = e }))
        | inr e ↦
            fresh (marked_window w seq) (accepts_within lib w seq v h inside e)
              (marked_window-Remembers w seq v inside)
      ]

  pub verdict : (w : RecvWindow) (seq : ℕ) → IsWindow w → IsU24 seq → Verdict w seq
  verdict w seq v h = elim (Bool-cases (seq_less_than seq w.base_seq && ltb 0 w.total_received)) [
    | inl e ↦ old (accepts_old lib w seq e)
    | inr e ↦ elim (Bool-cases (leb w.max_size (ahead w.base_seq seq))) [
      | inl far ↦
          fresh (jumped_window w seq) (accepts_beyond lib w seq v h (ground arith) e)
            (jumped_window-Remembers w seq v h)
      | inr near ↦ within-Verdict w seq v h (ground arith)
    ]
  ]

  -- On a well-formed window no call with a 24-bit number panics, and the window stays well-formed.
  pub mark_received-IsWindow :
      (w : RecvWindow) (seq : ℕ)
      → IsWindow w
      → IsU24 seq
      → (answer : Option Bool) × (w' : RecvWindow) × (mark_received lib w seq ≡ ok (answer, w'))
        × IsWindow w'
  mark_received-IsWindow w seq v h = elim (verdict w seq v h) [
    | old e ↦ (none, w, e, v)
    | seen e ↦ (
      some false,
      _,
      e,
      record { sized = v.sized; base = v.base; positive = v.positive; small = v.small },
    )
    | fresh w' e r ↦ (some true, w', e, r.window)
  ]

  -- A number that was accepted as new is one that the window has.
  pub accepted-has_received :
      (w w' : RecvWindow) (seq : ℕ)
      → IsWindow w
      → IsU24 seq
      → mark_received lib w seq ≡ ok (some true, w')
      → has_received lib w' seq ≡ ok true
  accepted-has_received w w' seq v h accepted = elim (verdict w seq v h) [
    | old e ↦ absurd (cc)
    | seen e ↦ absurd (cc)
    | fresh w'' e r ↦
        let same : w'' ≡ w' = cc in
        Remembers-has_received lib w' seq h (subst (λ u. Remembers u seq) same r)
  ]

  -- A number that the window has is a duplicate.
  pub has_received-duplicate :
      (w : RecvWindow) (seq : ℕ)
      → has_received lib w seq ≡ ok true
      → mark_received lib w seq
        ≡ ok (some false, record w { total_duplicates = w.total_duplicates + 1 })
  unfolding has_received mark_received mark_within
  has_received-duplicate w seq has = elim (Bool-cases (seq_less_than seq w.base_seq)) [
    | inl behind ↦ let lost : has_received lib w seq ≡ ok false = rw behind refl in absurd cc
    | inr inside ↦ elim (Bool-cases (leb w.max_size (offset_of seq w.base_seq))) [
      | inl far ↦ let lost : has_received lib w seq ≡ ok false = rw (inside, far) refl in absurd cc
      | inr near ↦
          let bit : has_received lib w seq ≡ lib.index w.received (offset_of seq w.base_seq) =
            rw (inside, near) refl in
          rw (inside, near) (rw (sym bit ∙ has) refl)
    ]
  ]

  -- For a window of at most 2 ^ 22 numbers that remembers `x`: a 24-bit number `j` that lies
  -- beyond the window, and at most half a window further on than `x`, is accepted, and after that
  -- `x` is accepted as new again.
  pub jump_forgets :
      (w : RecvWindow) (x j : ℕ)
      → Remembers w x
      → w.max_size ≤ 2 ^ 22
      → IsU24 x
      → IsU24 j
      → w.max_size ≤ ahead w.base_seq j
      → ahead w.base_seq j ≤ ahead w.base_seq x + w.max_size / 2
      → (w' : RecvWindow) × (mark_received lib w j ≡ ok (some true, w'))
        × (w'' : RecvWindow) × (mark_received lib w' x ≡ ok (some true, w''))
  jump_forgets w x j r small hx hj beyond near =
      let v = r.window in
      let behind = not_behind j w.base_seq hj v.base (omega (arith, r.inside)) in
      let jump = accepts_beyond lib w j v hj beyond (rw behind refl) in
      let r' = jumped_window-Remembers w j v hj in
      let back = in_new_window w x j v hx hj (omega (arith, beyond, r.inside)) beyond near in
      let inside : ahead (new_base w j) x < w.max_size / 2 =
        omega (arith, back, r.inside, beyond, v.positive) in
      let clear =
        get_or-set_ne (replicate w.max_size false) true false (λ e. omega (arith, inside, e))
        ∙ get_or-replicate w.max_size (ahead (new_base w j) x) false in
      (
        jumped_window w j,
        jump,
        marked_window (jumped_window w j) x,
        accepts_within lib (jumped_window w j) x r'.window hx (omega (arith, inside, v.positive))
            clear,
      )
