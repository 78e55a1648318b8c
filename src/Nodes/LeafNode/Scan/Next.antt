-- ===== src/Nodes/LeafNode/Scan/Next.antt =====
-- Where a scan stops inside a leaf.
use bf_tree.Common.{ℕ, suc, ◌≤◌, ◌<◌, ◌≡◌, ◌≢◌, List, Option, true}
use bf_tree.Common.Bytes.{Key}
use bf_tree.Nodes.OpType.{is_absent}
use bf_tree.Nodes.LeafKvMeta.{op_type}
use bf_tree.Nodes.LeafNode.{LeafNode, count}
use bf_tree.Nodes.LeafNode.Scan.{
  ScanReturnField, GetScanRecordByPosResult, end_of_leaf, deleted_record, bound_key_exceeded,
  found_record, get_record_by_pos_with_bound,
}

-- Where `next` stops: at the first position from `pos` on that has no deleted record.
pub record IsNext (n : LeafNode) (pos : ℕ) (return_field : ScanReturnField) (bound_key : Option Key)
    (r : GetScanRecordByPosResult × ℕ) : Type 0 where
  pub at : ℕ
  pub forward : pos ≤ at
  pub skipped :
      (j : ℕ) → pos ≤ j → j < at → (j < count n) × (is_absent (op_type (n.slots j)) ≡ true)
  pub result : get_record_by_pos_with_bound n at return_field bound_key ≡ r.0
  pub not_deleted : r.0 ≢ deleted_record
  pub ended : r.0 ≡ end_of_leaf → count n ≤ at
  pub moved : (k : Key) (v : List ℕ) → r.0 ≡ found_record k v → (r.1 ≡ suc at) × (at < count n)

-- The four cases of a position.
pub data PositionCase (n : LeafNode) (pos : ℕ) : GetScanRecordByPosResult → Type 0 where
  outside : count n ≤ pos → PositionCase n pos end_of_leaf
  absent :
      pos < count n → is_absent (op_type (n.slots pos)) ≡ true → PositionCase n pos deleted_record
  behind : pos < count n → PositionCase n pos bound_key_exceeded
  live : (k : Key) (v : List ℕ) → pos < count n → PositionCase n pos (found_record k v)
