-- ===== src/Nodes/LeafNode/Scan.antt =====
-- src/nodes/leaf_node.rs, src/range_scan.rs: the records of a leaf by position, and the part of
-- `ScanIter::next` inside a leaf.
pub mod Next
use bf_tree.Common.{
  ℕ, zero, suc, ◌+◌, ◌≤◌, ◌<◌, ◌≡◌, ◌≢◌, ◌∙◌, refl, sym, ap, inl, inr, arith, List, [], Option,
  none, some, Bool, true, false, Bool-cases, if◌then◌else◌, leb, Ordering,
}
use native.Mathlib.Decide.{ℕ_discrete}
use bf_tree.Common.Bytes.{Key, cmp}
use bf_tree.Nodes.OpType.{is_absent}
use bf_tree.Nodes.LeafKvMeta.{LeafKvMeta, op_type}
use bf_tree.Nodes.LeafNode.{LeafNode, count, get_full_key, get_value}

pub data ScanReturnField : Type 0 where
  key value key_and_value : ScanReturnField

-- `GetScanRecordByPosResult`, with the bytes that are copied to the buffer of the caller
pub data GetScanRecordByPosResult : Type 0 where
  end_of_leaf deleted_record bound_key_exceeded : GetScanRecordByPosResult
  found_record : Key → List ℕ → GetScanRecordByPosResult

abbrev pub is_gt : Ordering → Bool
is_gt Ordering.gt = true
is_gt _ = false

abbrev pub exceeds : Key → Option Key → Bool
exceeds full_key none = false
exceeds full_key (some bound_key) = is_gt (cmp full_key bound_key)

-- What is copied
abbrev pub copied : LeafNode → LeafKvMeta → ScanReturnField → GetScanRecordByPosResult
copied n m value = found_record [] (get_value n m)
copied n m key = found_record (get_full_key n m) []
copied n m key_and_value = found_record (get_full_key n m) (get_value n m)

unfoldable pub get_record_by_pos_with_bound :
    LeafNode → ℕ → ScanReturnField → Option Key → GetScanRecordByPosResult
get_record_by_pos_with_bound n pos return_field bound_key =
    let m = n.slots pos in
    if leb (count n) pos
    then end_of_leaf
    else if is_absent (op_type m)
    then deleted_record
    else if exceeds (get_full_key n m) bound_key
    then bound_key_exceeded
    else copied n m return_field

-- What a round of `next` makes of the record at `pos`, and the position behind it.
abbrev pub after_record :
    GetScanRecordByPosResult → ℕ → GetScanRecordByPosResult × ℕ → GetScanRecordByPosResult × ℕ
after_record deleted_record pos rest = rest
after_record (found_record k v) pos rest = (found_record k v, suc pos)
after_record end_of_leaf pos rest = (end_of_leaf, pos)
after_record bound_key_exceeded pos rest = (bound_key_exceeded, pos)

-- `next` up to the end of the leaf. It goes on to the next position behind a deleted record, so the count
-- is enough fuel.
unfoldable pub next_in_leaf :
    ℕ → LeafNode → ℕ → ScanReturnField → Option Key → GetScanRecordByPosResult × ℕ
next_in_leaf zero n pos return_field bound_key = (end_of_leaf, pos)
next_in_leaf (suc fuel) n pos return_field bound_key =
    after_record (get_record_by_pos_with_bound n pos return_field bound_key) pos
      (next_in_leaf fuel n (suc pos) return_field bound_key)
