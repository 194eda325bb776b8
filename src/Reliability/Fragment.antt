-- ===== src/Reliability/Fragment.antt =====
-- reliability/fragment.rs: reassembly of split packets. The bytes of a fragment are a list; the
-- clock's reading is an argument. The hash map of splits is never walked in an order that shows.
pub mod Joined
pub mod Limits
pub mod Reassembly
mod Examples
use raknet.Base.{
  ℕ, suc, ◌+◌, ◌-◌, Bool, true, false, not, ◌&&◌, Option, none, some, is_some, List, [], ◌∷◌, ◌++◌,
  ltb, leb, ◌==◌, if◌then◌else◌, length,
}
use raknet.Base.Map
use raknet.Base.Map.{Map}

pub record FragmentEntry : Type 0 where
  pub total_count : ℕ
  pub fragments : Map (List ℕ)
  pub first_received : ℕ

pub record FragmentQueue : Type 0 where
  pub splits : Map FragmentEntry
  pub max_concurrent : ℕ
  pub timeout : ℕ

unfoldable pub with_capacity : ℕ → FragmentQueue
with_capacity max_concurrent = record { splits = []; max_concurrent = max_concurrent; timeout = 8 }

-- `FragmentQueue::new`
pub new : FragmentQueue
new = with_capacity 512

pub set_timeout : FragmentQueue → ℕ → FragmentQueue
set_timeout self timeout = record self { timeout = timeout }

-- The fragments in the order of their indices, one after another.
unfoldable pub reassemble : Map (List ℕ) → List ℕ
reassemble [] = []
reassemble ((index, fragment) ∷ fragments) = fragment ++ reassemble fragments

-- The entry of a split, or a new one.
pub entry_or_insert : FragmentQueue → ℕ → ℕ → ℕ → FragmentEntry
entry_or_insert self now split_id count = elim (Map.lookup split_id self.splits) [
  | some entry ↦ entry
  | none ↦ record { total_count = count; fragments = []; first_received = now }
]

-- `insert` once the entry is at hand: the entry lies in the map, and is written back there.
pub insert_in_entry :
    FragmentQueue → FragmentEntry → ℕ → ℕ → ℕ → List ℕ → Option (List ℕ) × FragmentQueue
insert_in_entry self entry split_id index count bytes =
    let fragments = Map.insert index bytes entry.fragments in
    if not (entry.total_count == count)
    then (none, record self { splits = Map.remove split_id self.splits })
    else if Map.contains_key index entry.fragments
    then (none, record self { splits = Map.insert split_id entry self.splits })
    else if length fragments == count
    then (some (reassemble fragments), record self { splits = Map.remove split_id self.splits })
    else (
      none,
      record self {
        splits = Map.insert split_id (record entry { fragments = fragments }) self.splits;
      },
    )

unfoldable pub insert : FragmentQueue → ℕ → ℕ → ℕ → ℕ → List ℕ → Option (List ℕ) × FragmentQueue
unfolding entry_or_insert insert_in_entry
insert self now split_id index count bytes =
    if leb count index
    then (none, self)
    else if leb self.max_concurrent (length self.splits)
        && not (Map.contains_key split_id self.splits)
    then (none, self)
    else insert_in_entry self (entry_or_insert self now split_id count) split_id index count bytes

-- The ids that `cleanup_expired` collects, and its loop over them.
pub expired_ids : ℕ → ℕ → Map FragmentEntry → List ℕ
expired_ids now timeout [] = []
expired_ids now timeout ((id, entry) ∷ splits) =
    if ltb timeout (now - entry.first_received)
    then id ∷ expired_ids now timeout splits
    else expired_ids now timeout splits

pub remove_each : List ℕ → Map FragmentEntry → Map FragmentEntry
remove_each [] splits = splits
remove_each (id ∷ expired) splits = remove_each expired (Map.remove id splits)

pub cleanup_expired : FragmentQueue → ℕ → ℕ × FragmentQueue
unfolding expired_ids remove_each
cleanup_expired self now =
    let expired = expired_ids now self.timeout self.splits in
    (length expired, record self { splits = remove_each expired self.splits })

pub clear : FragmentQueue → FragmentQueue
clear self = record self { splits = [] }
