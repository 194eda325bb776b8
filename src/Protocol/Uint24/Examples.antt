-- ===== src/Protocol/Uint24/Examples.antt =====
-- Tests of `u24` and `AtomicU24`, and the theorems at concrete numbers.
use raknet.Base.{◌+◌, ◌<◌, ◌%◌, ◌^◌, ◌≡◌, ◌&&◌, true, refl, ok, arith, none, ltb, leb}
use raknet.Protocol.Uint24.{
  u32_mod, new, wrapping_add, wrapping_sub, checked_add, seq_less_than, seq_in_range,
}
use raknet.Protocol.Uint24.Laws.{u24_mod}
use raknet.Protocol.Uint24.Sequence.{seq_less_than-advance}
use raknet.Protocol.Uint24.Atomic.{adds, step, counter_step, load, step_refines}

wrapping_add_test : wrapping_add 0xFFFFFF 1 ≡ 0
unfolding wrapping_add new
wrapping_add_test = refl

wrapping_sub_test : wrapping_sub 0 1 ≡ 0xFFFFFF
unfolding wrapping_sub new
wrapping_sub_test = refl

checked_add_test : checked_add 0xFFFFFF 1 ≡ ok none
unfolding checked_add
checked_add_test = refl

seq_less_than_test : seq_less_than 0xFFFFF0 0x10 ≡ true
unfolding seq_less_than
seq_less_than_test = refl

seq_in_range_test : seq_in_range 0 0xFFFFFE 5 ≡ true
unfolding seq_in_range
seq_in_range_test = refl

seq_less_than-advance_example :
    seq_less_than 0xFFFFFE ((0xFFFFFE + 5) % u24_mod) ≡ (ltb 0 5 && leb 5 (2 ^ 23))
seq_less_than-advance_example = seq_less_than-advance 0xFFFFFE 5 (omega arith) (omega arith)

step_refines_example :
    ((step 0x1000005 (adds 7)).0 ≡ (counter_step (load 0x1000005) (adds 7)).0)
    × (load (step 0x1000005 (adds 7)).1 ≡ (counter_step (load 0x1000005) (adds 7)).1)
    × ((step 0x1000005 (adds 7)).1 < u32_mod)
step_refines_example = step_refines 0x1000005 (adds 7) (omega arith) (omega arith)
