-- ===== src/Reliability/RecvWindow/Marks.antt =====
-- reliability/recv_window.rs: what `mark_received` accepts and what it remembers.
use raknet.Base.{
  ℕ, ◌+◌, ◌-◌, ◌/◌, ◌%◌, ◌^◌, ◌≤◌, ◌<◌, ◌≡◌, true, false, not, bit_and, ◌&&◌, ◌||◌, none, some,
  length, get_or, set, replicate, ltb, ◌==◌, if◌then◌else◌, ok, arith, refl, ap, ◌∙◌, leb_gt,
  le→leb, length-set, length-replicate, get_or-set_self, ne_test, ◌≡◌,
}
use raknet.Protocol.Uint24.{wrapping_add32, wrapping_sub32, seq_less_than}
use raknet.Protocol.Uint24.Laws.{IsU24, u24_mod}
use raknet.Protocol.Uint24.Sequence.{ahead, masked_difference, seq_less_than-ahead}
use raknet.Reliability.BitVec.{BitVec}
use raknet.Reliability.RecvWindow.{
  RecvWindow, with_capacity, new, offset_of, reset_to, slide_to, mark_beyond, mark_within,
  mark_received, has_received,
}

-- A window of at most half of the sequence numbers, with one bit for each number.
pub record IsWindow (w : RecvWindow) : Type 0 where
  pub sized : length w.received ≡ w.max_size
  pub base : IsU24 w.base_seq
  pub positive : 0 < w.max_size
  pub small : w.max_size ≤ 2 ^ 23

pub offset_of-ahead : (seq base : ℕ) → IsU24 seq → IsU24 base → offset_of seq base ≡ ahead base seq
unfolding offset_of
offset_of-ahead seq base hs hb = masked_difference seq base hs hb

-- A number that is less than half of the circle ahead of the base is not behind it.
pub not_behind :
    (seq base : ℕ)
    → IsU24 seq
    → IsU24 base
    → ahead base seq < 2 ^ 23
    → seq_less_than seq base ≡ false
not_behind seq base hs hb h = rw (seq_less_than-ahead seq base hs hb) (ground arith)

pub new-IsWindow : (lib : BitVec) → IsWindow (new lib)
unfolding new with_capacity
new-IsWindow lib = record {
  sized = ap length (lib.repeat_lem false 2048) ∙ length-replicate 2048 false;
  base = omega arith;
  positive = omega arith;
  small = omega arith;
}

-- The number is in the window, and its bit is set.
pub record Remembers (w : RecvWindow) (seq : ℕ) : Type 0 where
  pub window : IsWindow w
  pub inside : ahead w.base_seq seq < w.max_size
  pub marked : get_or w.received (ahead w.base_seq seq) false ≡ true

-- The window after a new number in it.
abbrev pub marked_window : RecvWindow → ℕ → RecvWindow
marked_window w seq = record w {
  received = set w.received (ahead w.base_seq seq) true;
  total_received = w.total_received + 1;
  total_out_of_order =
      if not (seq == wrapping_add32 w.highest_seq 1) && ltb 1 (w.total_received + 1)
      then w.total_out_of_order + 1
      else w.total_out_of_order;
  highest_seq =
      if seq_less_than w.highest_seq seq || (w.total_received + 1) == 1 then seq else w.highest_seq;
}

pub marked_window-Remembers :
    (w : RecvWindow) (seq : ℕ)
    → IsWindow w
    → ahead w.base_seq seq < w.max_size
    → Remembers (marked_window w seq) seq
marked_window-Remembers w seq v inside = record {
  window = record {
    sized = length-set w.received (ahead w.base_seq seq) true ∙ v.sized;
    base = v.base;
    positive = v.positive;
    small = v.small;
  };
  inside = inside;
  marked =
      get_or-set_self w.received (ahead w.base_seq seq) true false (omega (arith, v.sized, inside));
}

-- The window after a number beyond it: all bits cleared, and the number in the middle.
abbrev pub new_base : RecvWindow → ℕ → ℕ
new_base w seq = (seq + u24_mod - w.max_size / 2) % u24_mod

abbrev pub jumped_window : RecvWindow → ℕ → RecvWindow
jumped_window w seq = record w {
  received = set (replicate w.max_size false) (w.max_size / 2) true;
  base_seq = new_base w seq;
  total_received = w.total_received + 1;
  highest_seq = if seq_less_than w.highest_seq seq then seq else w.highest_seq;
}

-- The new base lies half a window behind the number.
pub middle :
    (w : RecvWindow) (seq : ℕ)
    → IsWindow w
    → IsU24 seq
    → ahead (new_base w seq) seq ≡ w.max_size / 2
middle w seq v h = omega (arith, v.small)

module _ (lib : BitVec) where
  index_at :
      (w : RecvWindow) (seq : ℕ)
      → IsWindow w
      → IsU24 seq
      → ahead w.base_seq seq < w.max_size
      → lib.index w.received (offset_of seq w.base_seq)
        ≡ ok (get_or w.received (ahead w.base_seq seq) false)
  index_at w seq v h inside =
      rw (offset_of-ahead seq w.base_seq h v.base)
        (lib.index_lem w.received (ahead w.base_seq seq) (omega (arith, v.sized, inside)))

  set_at :
      (w : RecvWindow) (seq : ℕ)
      → IsWindow w
      → IsU24 seq
      → ahead w.base_seq seq < w.max_size
      → lib.set_bit w.received (offset_of seq w.base_seq) true
        ≡ ok (set w.received (ahead w.base_seq seq) true)
  set_at w seq v h inside =
      rw (offset_of-ahead seq w.base_seq h v.base)
        (lib.set_bit_lem w.received (ahead w.base_seq seq) true (omega (arith, v.sized, inside)))

  -- Behind a window that has received something.
  pub accepts_old :
      (w : RecvWindow) (seq : ℕ)
      → (seq_less_than seq w.base_seq && ltb 0 w.total_received) ≡ true
      → mark_received lib w seq ≡ ok (none, w)
  unfolding mark_received
  accepts_old w seq e = rw e refl

  -- In the window the call depends on the bit only.
  received_within :
      (w : RecvWindow) (seq : ℕ)
      → IsWindow w
      → IsU24 seq
      → ahead w.base_seq seq < w.max_size
      → mark_received lib w seq ≡ mark_within lib w seq
  unfolding mark_received
  received_within w seq v h inside =
      rw
        (
          not_behind seq w.base_seq h v.base (omega (arith, inside, v.small)),
          offset_of-ahead seq w.base_seq h v.base,
          leb_gt w.max_size (ahead w.base_seq seq) inside,
        )
        refl

  -- A number that the window remembers is a duplicate.
  pub Remembers-duplicate :
      (w : RecvWindow) (seq : ℕ)
      → IsU24 seq
      → Remembers w seq
      → mark_received lib w seq
        ≡ ok (some false, record w { total_duplicates = w.total_duplicates + 1 })
  unfolding mark_within
  Remembers-duplicate w seq h r =
      received_within w seq r.window h r.inside
      ∙ rw (index_at w seq r.window h r.inside, r.marked) refl

  pub Remembers-has_received :
      (w : RecvWindow) (seq : ℕ) → IsU24 seq → Remembers w seq → has_received lib w seq ≡ ok true
  unfolding has_received
  Remembers-has_received w seq h r =
      rw
        (
          not_behind seq w.base_seq h r.window.base (omega (arith, r.inside, r.window.small)),
          offset_of-ahead seq w.base_seq h r.window.base,
          leb_gt w.max_size (ahead w.base_seq seq) r.inside,
        )
        (lib.index_lem w.received (ahead w.base_seq seq) (omega (arith, r.window.sized, r.inside))
          ∙ ap ok r.marked)

  pub accepts_within :
      (w : RecvWindow) (seq : ℕ)
      → IsWindow w
      → IsU24 seq
      → ahead w.base_seq seq < w.max_size
      → get_or w.received (ahead w.base_seq seq) false ≡ false
      → mark_received lib w seq ≡ ok (some true, marked_window w seq)
  unfolding mark_within
  accepts_within w seq v h inside clear =
      received_within w seq v h inside
      ∙ rw (index_at w seq v h inside, clear) (rw (set_at w seq v h inside) refl)

  reset_to_lem :
      (w : RecvWindow) (seq : ℕ)
      → IsWindow w
      → IsU24 seq
      → reset_to lib w seq
        ≡ record w { received = replicate w.max_size false; base_seq = new_base w seq }
  unfolding reset_to
  reset_to_lem w seq v h =
      let half : w.max_size / 2 % 2 ^ 32 ≡ w.max_size / 2 = omega (arith, v.small) in
      let base : bit_and (wrapping_sub32 seq (w.max_size / 2 % 2 ^ 32)) 0x00FFFFFF
          ≡ new_base w seq =
        ap (λ n. bit_and (wrapping_sub32 seq n) 0x00FFFFFF) half
        ∙ masked_difference seq (w.max_size / 2) h (omega (arith, v.small)) in
      let cleared : lib.fill w.received false ≡ replicate w.max_size false =
        lib.fill_lem w.received false ∙ ap (λ n. replicate n false) v.sized in
      λ i. record w { received = cleared i; base_seq = base i }

  slide_beyond :
      (w : RecvWindow) (seq : ℕ)
      → IsWindow w
      → IsU24 seq
      → w.max_size ≤ ahead w.base_seq seq
      → slide_to lib w seq
        ≡ ok (record w { received = replicate w.max_size false; base_seq = new_base w seq })
  unfolding slide_to
  slide_beyond w seq v h beyond =
      rw
        (
          offset_of-ahead seq w.base_seq h v.base,
          ne_test (ahead w.base_seq seq) 0 (omega (arith, v.positive, beyond)),
          le→leb w.max_size (ahead w.base_seq seq) beyond,
        )
        (ap ok (reset_to_lem w seq v h))

  pub accepts_beyond :
      (w : RecvWindow) (seq : ℕ)
      → IsWindow w
      → IsU24 seq
      → w.max_size ≤ ahead w.base_seq seq
      → (seq_less_than seq w.base_seq && ltb 0 w.total_received) ≡ false
      → mark_received lib w seq ≡ ok (some true, jumped_window w seq)
  unfolding mark_received mark_beyond
  accepts_beyond w seq v h beyond young =
      let near : offset_of seq (new_base w seq) ≡ w.max_size / 2 =
        offset_of-ahead seq (new_base w seq) h (omega arith) ∙ middle w seq v h in
      let inside : w.max_size / 2 < length (replicate w.max_size false) =
        omega (arith, length-replicate w.max_size false, v.positive) in
      rw
        (
          young,
          offset_of-ahead seq w.base_seq h v.base,
          le→leb w.max_size (ahead w.base_seq seq) beyond,
          slide_beyond w seq v h beyond,
        )
        (rw
          (
            near,
            leb_gt w.max_size (w.max_size / 2) (omega (arith, v.positive)),
            lib.set_bit_lem (replicate w.max_size false) (w.max_size / 2) true inside,
          )
          refl)
