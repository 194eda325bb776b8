-- ===== src/Protocol/Frame/Examples.antt =====
-- Tests of the frame encoding, and the theorems at concrete frames.
use raknet.Base.{◌≡◌, ◌>>=◌, ◌++◌, none, some, [], ◌∷◌, refl, ok, arith}
use raknet.Protocol.Buffer.{reference}
use raknet.Reliability.Levels.{reliable_ordered, unreliable, is_reliable, is_sequenced, is_ordered}
use raknet.Protocol.Frame.{
  Frame, new, with_message_index, with_order, with_split, encoded_size, encode, decode,
}
use raknet.Protocol.Frame.Decode.{Fits, IsExact, carried_frame, decode-encode}

-- A fragment of an ordered packet.
abbrev fragment : Frame
fragment = record {
  reliability = reliable_ordered;
  message_index = some 7;
  sequence_index = none;
  order_index = some 3;
  order_channel = 2;
  split = some (record { count = 2; id = 5; index = 1 });
  payload = 1 ∷ 2 ∷ 3 ∷ [];
}

-- A frame whose message index its level does not carry.
abbrev stray : Frame
stray = record {
  reliability = unreliable;
  message_index = some 7;
  sequence_index = none;
  order_index = none;
  order_channel = 2;
  split = none;
  payload = 9 ∷ [];
}

builder_test :
    with_split
      (with_order (with_message_index (new reliable_ordered (1 ∷ 2 ∷ 3 ∷ [])) 7) 3 2)
      (record { count = 2; id = 5; index = 1 })
    ≡ fragment
unfolding new with_split with_order with_message_index
builder_test = refl

encoded_size_test : encoded_size fragment ≡ 23
unfolding encoded_size is_reliable is_sequenced is_ordered
encoded_size_test = refl

fragment-Fits : Fits fragment
fragment-Fits = record {
  message = omega arith;
  sequence = omega arith;
  order = omega arith;
  channel = omega arith;
  fragment = (omega arith, omega arith, omega arith);
  short = omega arith;
}

stray-Fits : Fits stray
stray-Fits = record {
  message = omega arith;
  sequence = omega arith;
  order = omega arith;
  channel = omega arith;
  fragment = tt;
  short = omega arith;
}

fragment-IsExact : IsExact fragment
unfolding is_reliable is_sequenced is_ordered
fragment-IsExact = record {
  message_present = refl;
  sequence_present = refl;
  order_present = refl;
  channel_zero = refl;
}

decode-encode_example :
    (encode reference stray [] >>= λ bytes. decode reference (bytes ++ (4 ∷ [])))
    ≡ ok (carried_frame stray, 4 ∷ [])
decode-encode_example = decode-encode reference stray (4 ∷ []) stray-Fits
