-- ===== src/Nodes/LeafNode/Split.antt =====
-- A leaf split in two. `none` is a failed `assert!` or the `unreachable!`.
use bf_tree.Common.{
  ℕ, zero, suc, ◌+◌, ◌-◌, ◌/◌, Bool, true, false, Option, none, some, List, [], ◌∷◌, ◌&&◌, ◌||◌,
  not, if◌then◌else◌, u16, leb, ◌==◌, is_lt, is_eq, ◌>>=◌, ◌>>◌, check,
}
use bf_tree.Common.Bytes.{Key, cmp, read}
use bf_tree.Nodes.OpType.{OpType}
use bf_tree.Nodes.NodeMeta
use bf_tree.Nodes.LeafKvMeta.{
  LeafKvMeta, value_len, get_key_len, op_type, is_infinite_high_fence_key,
  is_infinite_low_fence_key,
}
use bf_tree.Nodes.LeafNode.{LeafNode, new_null, is_base_page, get_full_key, is_delete}
use bf_tree.Nodes.LeafNode.Rebuild.{
  Pair, pair_of, insert_pairs, meta_iter, initialize, consolidate_after_split,
}

-- The size of a record with its slot, and the sum over a leaf, all on `u16`.
abbrev pub record_size : LeafKvMeta → ℕ
record_size m = u16 (get_key_len m + value_len m + 8)

unfoldable pub data_size : List LeafKvMeta → ℕ
data_size [] = 0
data_size (m ∷ ms) = u16 (record_size m + data_size ms)

-- The search of `get_split_key`: the first record with which half the size is reached.
unfoldable pub split_from : LeafNode → Bool → ℕ → ℕ → ℕ → List LeafKvMeta → Option (Key × ℕ)
split_from n cache_only target i cur_size [] = none
split_from n cache_only target i cur_size (m ∷ ms) =
    let size = u16 (cur_size + record_size m) in
    let rest = split_from n cache_only target (i + 1) size ms in
    if cache_only && (i == 0)
    then rest
    else if leb target size
    then some (get_full_key n m, u16 i)
    else rest

unfoldable pub get_split_key : LeafNode → Bool → Option (Key × ℕ)
get_split_key n cache_only = split_from n cache_only (data_size (meta_iter n) / 2) 0 0 (meta_iter n)

-- `get_kv_num_below_key`: the records before the first whose key is not smaller.
unfoldable pub below_from : LeafNode → Key → List LeafKvMeta → ℕ
below_from n merge_split_key [] = 0
below_from n merge_split_key (m ∷ ms) =
    let rest = below_from n merge_split_key ms in
    if is_lt (cmp (get_full_key n m) merge_split_key) then u16 (rest + 1) else 0

abbrev pub get_kv_num_below_key : LeafNode → Key → ℕ
get_kv_num_below_key n merge_split_key = below_from n merge_split_key (meta_iter n)

-- The records from `start` on that the sibling gets: tombstones stay behind.
unfoldable pub moved_pairs : LeafNode → ℕ → ℕ → List Pair
moved_pairs n zero start = []
moved_pairs n (suc fuel) start =
    let rest = moved_pairs n fuel (start + 1) in
    if is_delete (op_type (n.slots start))
    then rest
    else pair_of n (n.slots start) OpType.insert ∷ rest

-- The `assert!` at the head of both splits.
abbrev pub can_split : LeafNode → Bool → Bool
can_split n cache_only =
    if cache_only
    then NodeMeta.is_cache_only_leaf n.meta && not (NodeMeta.has_fence n.meta)
    else is_base_page n && NodeMeta.has_fence n.meta

-- The sibling before it gets records: from the split key to the high fence.
unfoldable pub make_sibling : LeafNode → LeafNode → Key → Bool → ℕ → Option LeafNode
make_sibling n sibling low_fence_key cache_only snapshot_version =
    let high = n.slots 1 in
    let high_fence_key = if is_infinite_high_fence_key high then [] else get_full_key n high in
    if cache_only
    then initialize sibling [] [] sibling.meta.node_size new_null false cache_only snapshot_version
    else initialize sibling low_fence_key high_fence_key sibling.meta.node_size new_null true
        cache_only snapshot_version

-- Both halves of a split at `splitting_key`, of which `new_cur_count` records stay in `n`.
unfoldable pub divide : LeafNode → LeafNode → Key → ℕ → Bool → ℕ → Option (LeafNode × LeafNode)
divide n sibling splitting_key new_cur_count cache_only snapshot_version = do
  let first = if cache_only then 0 else 2
  let sibling_cnt = u16 (NodeMeta.meta_count_without_fence n.meta + 65536 - new_cur_count)
  fresh ← make_sibling n sibling splitting_key cache_only snapshot_version
  right ← insert_pairs fresh (moved_pairs n sibling_cnt (new_cur_count + first))
  left ←
      consolidate_after_split
        (record n { meta = NodeMeta.set_value_count n.meta (new_cur_count + first) }) splitting_key
        snapshot_version
  some (left, right)

-- `split`: the splitting key and both halves.
unfoldable pub split : LeafNode → LeafNode → Bool → ℕ → Option (Key × (LeafNode × LeafNode))
split n sibling cache_only snapshot_version = do
  check (can_split n cache_only)
  chosen ← get_split_key n cache_only
  check (cache_only || not (is_infinite_low_fence_key (n.slots (2 + chosen.1))))
  halves ← divide n sibling chosen.0 chosen.1 cache_only snapshot_version
  some (chosen.0, halves)

-- `split_with_key`, with its last two assertions
unfoldable pub split_with_key : LeafNode → LeafNode → Key → Bool → ℕ → Option (LeafNode × LeafNode)
split_with_key n sibling merge_split_key cache_only snapshot_version = do
  check (can_split n cache_only)
  halves ←
      divide n sibling merge_split_key (get_kv_num_below_key n merge_split_key) cache_only
        snapshot_version
  let left = halves.0
  let right = halves.1
  let low_key = read right.bytes (right.slots 0).offset (get_key_len (right.slots 0))
  check (cache_only || is_eq (cmp (get_full_key left (left.slots 1)) merge_split_key))
  check (cache_only || is_eq (cmp low_key merge_split_key))
  some (left, right)
