-- ===== src/Nodes/LeafNode/Merge.antt =====
-- The records of a mini page merged into a leaf, the kinds of records changed, and the sizes of pages.
use bf_tree.Common.{
  ℕ, zero, suc, ◌+◌, Bool, true, false, Option, none, some, List, [], ◌∷◌, ◌&&◌, if◌then◌else◌, u16,
  ltb, leb, ◌>>=◌,
}
use bf_tree.Common.Bits.{test_bit, set_bit}
use bf_tree.Common.Shift.{put_at}
use bf_tree.Nodes.OpType.{OpType, is_dirty}
use bf_tree.Nodes.LeafKvMeta.{LeafKvMeta, value_len, get_key_len, op_type, set_op_type}
use bf_tree.Nodes.LeafNode.{LeafNode, count, first_meta_pos_after_fence, full_with_fences}
use bf_tree.Nodes.LeafNode.Rebuild.{Pair, pair_of, insert_pairs, meta_iter, masked}

-- `need_actually_merge_to_disk`
unfoldable pub any_dirty : List LeafKvMeta → Bool
any_dirty [] = false
any_dirty (m ∷ ms) = let rest = any_dirty ms in if is_dirty (op_type m) then true else rest

abbrev pub need_actually_merge_to_disk : LeafNode → Bool
need_actually_merge_to_disk n = any_dirty (meta_iter n)

abbrev pub is_insert : OpType → Bool
is_insert OpType.insert = true
is_insert _ = false

-- `estimate_merge_size`: the sum of a key and a value is on `u16`, the whole on `usize`.
unfoldable pub estimate_from : List LeafKvMeta → ℕ
estimate_from [] = 0
estimate_from (m ∷ ms) =
    let rest = estimate_from ms in
    if is_insert (op_type m) then u16 (get_key_len m + value_len m) + 8 + rest else rest

abbrev pub estimate_merge_size : LeafNode → ℕ
estimate_merge_size n = estimate_from (meta_iter n)

-- The dirty records of a mini page.
unfoldable pub dirty_pairs : LeafNode → List LeafKvMeta → List Pair
dirty_pairs n [] = []
dirty_pairs n (m ∷ ms) =
    let rest = dirty_pairs n ms in
    if is_dirty (op_type m) then pair_of n m (op_type m) ∷ rest else rest

-- `merge_mini_page`
unfoldable pub merge_mini_page : LeafNode → LeafNode → ℕ → Option (Bool × LeafNode)
merge_mini_page n mini_page max_fence_len =
    if full_with_fences n (u16 (estimate_merge_size mini_page)) max_fence_len
    then some (false, n)
    else insert_pairs (record n { snapshot_version = masked mini_page.snapshot_version })
        (dirty_pairs mini_page (meta_iter mini_page))
      >>= λ n'. some (true, n')

-- A round of `covert_insert_records_to_cache`; on a base page there are no other kinds.
unfoldable pub as_cache : LeafKvMeta → Option LeafKvMeta
as_cache m = elim (op_type m) [
  | OpType.insert ↦ some (set_op_type m OpType.cache)
  | OpType.delete ↦ some (set_op_type m OpType.phantom)
  | OpType.cache ↦ none
  | OpType.phantom ↦ none
]

-- A round of `convert_cache_records_to_insert`
unfoldable pub as_dirty : LeafKvMeta → LeafKvMeta
as_dirty m = elim (op_type m) [
  | OpType.cache ↦ set_op_type m OpType.insert
  | OpType.phantom ↦ set_op_type m OpType.delete
  | OpType.insert ↦ m
  | OpType.delete ↦ m
]

unfoldable pub cache_from : LeafNode → ℕ → ℕ → Option LeafNode
cache_from n zero cur = some n
cache_from n (suc fuel) cur =
    if ltb cur (count n)
    then (as_cache (n.slots cur)
        >>= (λ m. cache_from (record n { slots = put_at n.slots cur m }) fuel (cur + 1)))
    else some n

unfoldable pub covert_insert_records_to_cache : LeafNode → Option LeafNode
covert_insert_records_to_cache n = cache_from n (count n) (first_meta_pos_after_fence n)

unfoldable pub convert_cache_records_to_insert : LeafNode → LeafNode
convert_cache_records_to_insert n = record n {
  slots = λ i.
      if leb (first_meta_pos_after_fence n) i && ltb i (count n)
      then as_dirty (n.slots i)
      else n.slots i;
}

-- The version and its flag in bit 63.
unfoldable pub get_clean_snapshot_version : LeafNode → ℕ
get_clean_snapshot_version n = masked n.snapshot_version

unfoldable pub set_snapshot_version : LeafNode → ℕ → Bool → LeafNode
set_snapshot_version n snapshot_version mark_changed = record n {
  snapshot_version =
      if mark_changed then set_bit (masked snapshot_version) 63 else masked snapshot_version;
}

unfoldable pub is_snapshot_version_changed : LeafNode → Bool
is_snapshot_version_changed n = test_bit n.snapshot_version 63

unfoldable pub set_snapshot_version_changed_flag : LeafNode → LeafNode
set_snapshot_version_changed_flag n = record n { snapshot_version = set_bit n.snapshot_version 63 }

unfoldable pub clear_snapshot_version_changed_flag : LeafNode → LeafNode
clear_snapshot_version_changed_flag n = record n { snapshot_version = masked n.snapshot_version }

-- The first class but the last that is greater than `size`, and the last class.
unfoldable pub first_above : ℕ → List ℕ → Option ℕ
first_above size [] = none
first_above size (c ∷ []) = none
first_above size (c ∷ d ∷ cs) =
    let rest = first_above size (d ∷ cs) in if ltb size c then some c else rest

unfoldable pub last_class : List ℕ → ℕ
last_class [] = 0
last_class (c ∷ []) = c
last_class (c ∷ d ∷ cs) = last_class (d ∷ cs)

-- The class for a record or an upgrade of `size` bytes in all.
unfoldable pub pick_class : ℕ → List ℕ → Bool → Option ℕ
pick_class size page_classes cache_only = elim (first_above size page_classes) [
  | some c ↦ some c
  | none ↦
      if cache_only && leb size (last_class page_classes)
      then some (last_class page_classes)
      else none
]

-- `get_chain_size_hint`: a record with its slot and the header of the page; `none` is the panic.
unfoldable pub get_chain_size_hint : ℕ → ℕ → List ℕ → Bool → Option ℕ
get_chain_size_hint key_len value_len page_classes cache_only =
    pick_class (key_len + value_len + 8 + 32) page_classes cache_only
