-- ===== src/Protocol/Datagram/RoundTrip.antt =====
-- protocol/codec.rs: what is decoded of a datagram.
use raknet.Base.{
  ℕ, ◌/◌, ◌%◌, ◌^◌, ◌≡◌, bit_and, bit_or, Bool, true, false, not, ltb, List, [], ◌∷◌, ◌++◌, length,
  Error, Result, ok, err, panic, ◌*◌, ◌>>=◌, ◌>>◌, reject_if, arith, refl, ◌∙◌, sym, ltb_ge,
  append_assoc, append-nil,
}
use raknet.Base.Bits.{and-mask}
use raknet.Protocol.Buffer.{Buffer}
use raknet.Protocol.Packet.{is_datagram, bit_flag_datagram, bit_flag_valid, classes_ranges}
use raknet.Protocol.Uint24.{read_u24_le}
use raknet.Protocol.Uint24.Laws.{IsU24, new-mod}
use raknet.Protocol.Uint24.Bytes.{le_bytes, read_u24_le-le_bytes}
use raknet.Protocol.Datagram.{put_frames, encode_datagram, decode_datagram}

-- The frames one after another.
abbrev pub concat : List (List ℕ) → List ℕ
concat [] = []
concat (frame ∷ frames) = frame ++ concat frames

put_frames-concat :
    (lib : Buffer) (buf : List ℕ) (frames : List (List ℕ))
    → put_frames lib buf frames ≡ buf ++ concat frames
unfolding put_frames
put_frames-concat lib buf [] = sym (append-nil buf)
put_frames-concat lib buf (frame ∷ frames) =
    put_frames-concat lib (lib.put_slice buf frame) frames ∙ simp (lib.put_slice_lem, append_assoc)

abbrev pub datagram_id : ℕ
datagram_id = bit_or bit_flag_datagram bit_flag_valid

pub datagram_id-is_datagram : is_datagram datagram_id ≡ true
datagram_id-is_datagram = (classes_ranges datagram_id (omega arith)).0

pub encode_datagram-wire :
    (lib : Buffer) (seq : ℕ) (frames : List (List ℕ))
    → encode_datagram lib seq frames ≡ datagram_id ∷ (le_bytes seq ++ concat frames)
unfolding encode_datagram
encode_datagram-wire lib seq frames =
    let low : bit_and seq 0xFF / 1 % 256 ≡ seq % 256 = omega (arith, and-mask 8 seq) in
    let middle : bit_and (seq / 2 ^ 8) 0xFF / 1 % 256 ≡ seq / 2 ^ 8 % 256 =
      omega (arith, and-mask 8 (seq / 2 ^ 8)) in
    let high : bit_and (seq / 2 ^ 16) 0xFF / 1 % 256 ≡ seq / 2 ^ 16 % 256 =
      omega (arith, and-mask 8 (seq / 2 ^ 16)) in
    simp (lib.put_u8_lem, put_frames-concat, append_assoc) (rw (low, middle, high) refl)

-- A datagram is decoded to its number, and to its frames with the three bytes of the number still in
-- front of them.
pub decode_datagram-encode :
    (lib : Buffer) (seq : ℕ) (frames : List (List ℕ))
    → IsU24 seq
    → decode_datagram (encode_datagram lib seq frames) ≡ ok (seq, le_bytes seq ++ concat frames)
unfolding decode_datagram
decode_datagram-encode lib seq frames h = rw (encode_datagram-wire lib seq frames) (
    rw
      (
        ltb_ge (length (datagram_id ∷ (le_bytes seq ++ concat frames))) 4 (omega arith),
        datagram_id-is_datagram,
        read_u24_le-le_bytes seq (concat frames) h,
      )
      refl)

-- The number of a datagram has 24 bits, whatever its bytes are.
read_u24_le-IsU24 : (buf : List ℕ) (seq : ℕ) → read_u24_le buf ≡ ok seq → IsU24 seq
unfolding read_u24_le
read_u24_le-IsU24 (b0 ∷ b1 ∷ b2 ∷ rest) seq e =
    ground (arith, e, new-mod (bit_or (bit_or b0 (b1 * 2 ^ 8)) (b2 * 2 ^ 16)))
read_u24_le-IsU24 [] seq e = absurd cc
read_u24_le-IsU24 (b0 ∷ []) seq e = absurd cc
read_u24_le-IsU24 (b0 ∷ b1 ∷ []) seq e = absurd cc

number_of :
    (r : Result ℕ) (rest buf : List ℕ) (seq : ℕ)
    → (◌>>=◌ {B = ℕ × List ℕ} r (λ n. ok (n, buf)) ≡ ok (seq, rest))
    → r ≡ ok seq
number_of (ok n) rest buf seq e = cc
number_of (err x) rest buf seq e = absurd cc
number_of panic rest buf seq e = absurd cc

passed :
    {A : Type 0} (failed : Bool) (x : Error) (k : Result A) (a : A)
    → ((reject_if failed x >> k) ≡ ok a)
    → k ≡ ok a
passed true x k a e = absurd cc
passed false x k a e = e

pub decode_datagram-IsU24 :
    (packet : List ℕ) (seq : ℕ) (rest : List ℕ)
    → decode_datagram packet ≡ ok (seq, rest)
    → IsU24 seq
unfolding decode_datagram
decode_datagram-IsU24 [] seq rest e = absurd cc
decode_datagram-IsU24 (id ∷ buf) seq rest e = read_u24_le-IsU24 buf seq (
    number_of (read_u24_le buf) rest buf seq (
      passed (not (is_datagram id)) _ _ (seq, rest)
        (passed (ltb (length (id ∷ buf)) 4) _ _ (seq, rest) e)))
