-- ===== src/Reliability/RecvWindow/Examples.antt =====
-- Tests of the receive window, and the theorems at concrete windows.
use raknet.Base.{◌≡◌, true, false, some, [], ◌∷◌, ok, refl, arith}
use raknet.Reliability.BitVec.{reference_bits}
use raknet.Reliability.RecvWindow.{
  RecvWindow, mark_within, mark_received, slide_to, get_missing, missing_from, advance_base,
  contiguous_from, shift_by, offset_of,
}
use raknet.Reliability.RecvWindow.Marks.{IsWindow, Remembers}
use raknet.Reliability.RecvWindow.Verdict.{jump_forgets}
use raknet.Protocol.Uint24.{seq_less_than}

-- Eight numbers from 100 on, of which 100, 101 and 107 were received.
abbrev window : RecvWindow
window = record {
  received = true ∷ true ∷ false ∷ false ∷ false ∷ false ∷ false ∷ true ∷ [];
  base_seq = 100;
  max_size = 8;
  highest_seq = 107;
  total_received = 3;
  total_duplicates = 0;
  total_out_of_order = 1;
}

abbrev window_with_103 : RecvWindow
window_with_103 = record window {
  received = true ∷ true ∷ false ∷ true ∷ false ∷ false ∷ false ∷ true ∷ [];
  total_received = 4;
  total_out_of_order = 2;
}

window-IsWindow : IsWindow window
window-IsWindow = record {
  sized = refl;
  base = omega arith;
  positive = omega arith;
  small = omega arith;
}

window-Remembers : Remembers window 107
window-Remembers = record { window = window-IsWindow; inside = omega arith; marked = refl }

get_missing_test : get_missing reference_bits window_with_103 ≡ ok (102 ∷ 104 ∷ 105 ∷ 106 ∷ [])
unfolding get_missing offset_of missing_from
get_missing_test = refl

advance_base_test :
    advance_base reference_bits window
    ≡ ok (record window {
      received = false ∷ false ∷ false ∷ false ∷ false ∷ true ∷ false ∷ false ∷ [];
      base_seq = 102;
    })
unfolding advance_base contiguous_from slide_to shift_by offset_of
advance_base_test = refl

accepts_103 : mark_received reference_bits window 103 ≡ ok (some true, window_with_103)
unfolding mark_received mark_within offset_of seq_less_than
accepts_103 = refl

jump_forgets_example :
    (w' : RecvWindow) × (mark_received reference_bits window 110 ≡ ok (some true, w'))
    × (w'' : RecvWindow) × (mark_received reference_bits w' 107 ≡ ok (some true, w''))
jump_forgets_example =
    jump_forgets reference_bits window 107 110 window-Remembers (omega arith) (omega arith)
      (omega arith) (omega arith) (omega arith)
