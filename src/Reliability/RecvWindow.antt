-- ===== src/Reliability/RecvWindow.antt =====
-- reliability/recv_window.rs: the receive window. The counters do not wrap.
pub mod Marks
pub mod Verdict
mod Examples
use raknet.Base.{
  ℕ, zero, suc, ◌+◌, ◌-◌, ◌/◌, ◌%◌, ◌^◌, min, bit_and, Bool, true, false, not, ◌&&◌, ◌||◌, Option,
  none, some, List, [], ◌∷◌, ltb, leb, ◌==◌, if◌then◌else◌, Result, ok, err, panic, ◌>>=◌,
}
use raknet.Protocol.Uint24.{wrapping_add32, wrapping_sub32, seq_less_than}
use raknet.Reliability.BitVec.{BitVec}

pub record RecvWindow : Type 0 where
  pub received : List Bool
  pub base_seq : ℕ
  pub max_size : ℕ
  pub highest_seq : ℕ
  pub total_received : ℕ
  pub total_duplicates : ℕ
  pub total_out_of_order : ℕ

pub record RecvWindowStats : Type 0 where
  pub total_received : ℕ
  pub total_duplicates : ℕ
  pub total_out_of_order : ℕ
  pub base_seq : ℕ
  pub highest_seq : ℕ
  pub window_size : ℕ

-- `seq.wrapping_sub(self.base_seq) & 0x00FFFFFF`
pub offset_of : ℕ → ℕ → ℕ
offset_of seq base_seq = bit_and (wrapping_sub32 seq base_seq) 0x00FFFFFF

pub stats : RecvWindow → RecvWindowStats
stats self = record {
  total_received = self.total_received;
  total_duplicates = self.total_duplicates;
  total_out_of_order = self.total_out_of_order;
  base_seq = self.base_seq;
  highest_seq = self.highest_seq;
  window_size = self.max_size;
}

module _ (lib : BitVec) where
  open lib use {repeat, index, set_bit, fill, copy_to_front, fill_from}

  pub with_capacity : ℕ → RecvWindow
  with_capacity max_size = record {
    received = repeat false max_size;
    base_seq = 0;
    max_size = max_size;
    highest_seq = 0;
    total_received = 0;
    total_duplicates = 0;
    total_out_of_order = 0;
  }

  -- `RecvWindow::new`
  pub new : RecvWindow
  new = with_capacity 2048

  -- The two arms of `slide_to` behind its early return.
  pub reset_to : RecvWindow → ℕ → RecvWindow
  reset_to self new_seq = record self {
    received = fill self.received false;
    base_seq = bit_and (wrapping_sub32 new_seq (self.max_size / 2 % 2 ^ 32)) 0x00FFFFFF;
  }

  pub shift_by : RecvWindow → ℕ → Result RecvWindow
  shift_by self shift = do
    received ← copy_to_front self.received shift
    received ← fill_from received (self.max_size - shift) false
    ok (record self {
      received = received;
      base_seq = bit_and (wrapping_add32 self.base_seq (shift % 2 ^ 32)) 0x00FFFFFF;
    })

  pub slide_to : RecvWindow → ℕ → Result RecvWindow
  unfolding reset_to shift_by
  slide_to self new_seq =
      let shift = offset_of new_seq self.base_seq in
      if shift == 0
      then ok self
      else if leb self.max_size shift
      then ok (reset_to self new_seq)
      else shift_by self shift

  -- `mark_received` for a number beyond the window.
  pub mark_beyond : RecvWindow → ℕ → Result (Option Bool × RecvWindow)
  mark_beyond self seq = do
    self ← slide_to self seq
    if leb self.max_size (offset_of seq self.base_seq) then ok (none, self) else do
      received ← set_bit self.received (offset_of seq self.base_seq) true
      ok (
        some true,
        record self {
          received = received;
          total_received = self.total_received + 1;
          highest_seq = if seq_less_than self.highest_seq seq then seq else self.highest_seq;
        },
      )

  -- `mark_received` for a number in the window.
  pub mark_within : RecvWindow → ℕ → Result (Option Bool × RecvWindow)
  mark_within self seq = do
    seen ← index self.received (offset_of seq self.base_seq)
    if seen
        then ok (some false, record self { total_duplicates = self.total_duplicates + 1 })
        else do
          received ← set_bit self.received (offset_of seq self.base_seq) true
          let total = self.total_received + 1
          ok (
            some true,
            record self {
              received = received;
              total_received = total;
              total_out_of_order =
                  if not (seq == wrapping_add32 self.highest_seq 1) && ltb 1 total
                  then self.total_out_of_order + 1
                  else self.total_out_of_order;
              highest_seq =
                  if seq_less_than self.highest_seq seq || total == 1
                  then seq
                  else self.highest_seq;
            },
          )

  pub mark_received : RecvWindow → ℕ → Result (Option Bool × RecvWindow)
  unfolding mark_beyond mark_within
  mark_received self seq =
      if seq_less_than seq self.base_seq && ltb 0 self.total_received
      then ok (none, self)
      else if leb self.max_size (offset_of seq self.base_seq)
      then mark_beyond self seq
      else mark_within self seq

  pub has_received : RecvWindow → ℕ → Result Bool
  has_received self seq =
      if seq_less_than seq self.base_seq
      then ok false
      else if leb self.max_size (offset_of seq self.base_seq)
      then ok false
      else index self.received (offset_of seq self.base_seq)

  -- The loop of `get_missing` over `rounds` offsets from `offset` on.
  pub missing_from : RecvWindow → ℕ → ℕ → Result (List ℕ)
  missing_from self offset zero = ok []
  missing_from self offset (suc rounds) = do
    seen ← index self.received offset
    missing ← missing_from self (offset + 1) rounds
    ok (
        if seen
        then missing
        else (bit_and (wrapping_add32 self.base_seq (offset % 2 ^ 32)) 0x00FFFFFF ∷ missing))

  -- `self.max_size - 1` panics for an empty window.
  pub get_missing : RecvWindow → Result (List ℕ)
  unfolding missing_from
  get_missing self =
      if self.highest_seq == self.base_seq && self.total_received == 0
      then ok []
      else if self.max_size == 0
      then panic
      else missing_from self 0
          (min (offset_of self.highest_seq self.base_seq) (self.max_size - 1) + 1)

  -- The loop of `advance_base`: the bits that are set from `offset` on.
  pub contiguous_from : RecvWindow → ℕ → ℕ → Result ℕ
  contiguous_from self offset zero = ok offset
  contiguous_from self offset (suc rounds) = do
    seen ← index self.received offset
    elim seen [ true ↦ contiguous_from self (offset + 1) rounds | false ↦ ok offset ]

  pub advance_base : RecvWindow → Result RecvWindow
  unfolding slide_to contiguous_from
  advance_base self = do
    shift ← contiguous_from self 0 self.max_size
    if ltb 0 shift then slide_to self (wrapping_add32 self.base_seq (shift % 2 ^ 32)) else ok self

  pub clear : RecvWindow → RecvWindow
  clear self = record self {
    received = fill self.received false;
    base_seq = 0;
    highest_seq = 0;
    total_received = 0;
    total_duplicates = 0;
    total_out_of_order = 0;
  }
