-- ===== src/Nodes/LeafNode/Rebuild.antt =====
-- A leaf made anew, and its records put back: `initialize`, `consolidate`, `copy_initialize_to` and
-- `merge_mini_page`. `none` is a failed `assert!`.
use bf_tree.Common.{
  ℕ, zero, suc, ◌+◌, ◌-◌, ◌%◌, ◌^◌, Bool, true, false, Option, none, some, List, [], ◌∷◌, ◌&&◌,
  ◌||◌, not, if◌then◌else◌, u16, ltb, leb, ◌==◌, length, drop, is_eq, ◌>>=◌, ◌>>◌, check,
}
use bf_tree.Common.Bytes.{Key, cmp, write}
use bf_tree.Common.Shift.{put_at}
use bf_tree.Nodes.OpType.{OpType, is_cache}
use bf_tree.Nodes.NodeMeta
use bf_tree.Nodes.NodeMeta.{NodeMeta}
use bf_tree.Nodes.LeafKvMeta.{
  LeafKvMeta, make_prefixed_meta, make_infinite_low_fence_key, make_infinite_high_fence_key,
  op_type, is_referenced,
}
use bf_tree.Nodes.LeafNode.{
  LeafNode, count, first_meta_pos_after_fence, is_base_page, current_lowest_offset, get_full_key,
  get_value, get_low_fence_key, get_high_fence_key, insert, is_delete, max_data_size,
}

-- `common_prefix_len`
unfoldable pub common_prefix_len : Key → Key → ℕ
common_prefix_len [] high = 0
common_prefix_len (x ∷ xs) [] = 0
common_prefix_len (x ∷ xs) (y ∷ ys) =
    let rest = common_prefix_len xs ys in if x == y then rest + 1 else 0

-- `install_fence_key`: the next slot; subtractions are on `u16`.
unfoldable pub install_fence_key : LeafNode → Key → Bool → LeafNode
install_fence_key n [] is_high_fence = record n {
  slots =
      put_at n.slots (count n)
        (if is_high_fence then make_infinite_high_fence_key else make_infinite_low_fence_key);
  meta = record (NodeMeta.increment_value_count n.meta) {
    remaining_size = u16 (n.meta.remaining_size + 65536 - 8);
  };
}
install_fence_key n (x ∷ xs) is_high_fence =
    let key = x ∷ xs in
    let prefix_len = if is_high_fence then n.prefix_len else 0 in
    let kv_len = u16 (u16 (length key) + 65536 - prefix_len) in
    let offset = u16 (current_lowest_offset n + 65536 - kv_len) in
    record n {
      slots = put_at n.slots (count n) (make_prefixed_meta offset 0 key prefix_len OpType.insert);
      bytes = write n.bytes offset (drop prefix_len key);
      meta = record (NodeMeta.increment_value_count n.meta) {
        remaining_size = u16 (u16 (n.meta.remaining_size + 65536 - 8) + 65536 - kv_len);
      };
    }

-- `snapshot_version & LEAF_SNAPSHOT_VERSION_MASK`, of `u64`
abbrev pub masked : ℕ → ℕ
masked version = version % 2 ^ 63

abbrev pub is_empty : Key → Bool
is_empty [] = true
is_empty (_ ∷ _) = false

-- `initialize`
unfoldable pub initialize : LeafNode → Key → Key → ℕ → ℕ → Bool → Bool → ℕ → Option LeafNode
initialize n low_fence high_fence node_size next_level has_fence cache_only snapshot_version = do
  check (has_fence || (is_empty low_fence && is_empty high_fence))
  meta ← NodeMeta.new (u16 (max_data_size node_size)) false has_fence (u16 node_size) cache_only
  let fresh = record n {
    meta = meta;
    next_level = next_level;
    snapshot_version = masked snapshot_version;
    prefix_len = if has_fence then u16 (common_prefix_len low_fence high_fence) else 0;
  }
  some (
      if has_fence
      then install_fence_key (install_fence_key fresh low_fence false) high_fence true
      else fresh)

-- `meta_iter`: the slots behind the fences.
unfoldable pub metas_from : LeafNode → ℕ → ℕ → List LeafKvMeta
metas_from n zero cur = []
metas_from n (suc fuel) cur =
    let rest = metas_from n fuel (cur + 1) in if ltb cur (count n) then n.slots cur ∷ rest else []

abbrev pub meta_iter : LeafNode → List LeafKvMeta
meta_iter n = metas_from n (count n) (first_meta_pos_after_fence n)

-- A record that is to be put.
pub record Pair : Type 0 where
  pub key : Key
  pub value : List ℕ
  pub op : OpType

abbrev pub pair_of : LeafNode → LeafKvMeta → OpType → Pair
pair_of n m op = record { key = get_full_key n m; value = get_value n m; op = op }

-- `insert` with no room kept for fences, and `assert!(rt)`.
unfoldable pub insert_pair : LeafNode → Pair → Option LeafNode
insert_pair n p = do r ← insert n p.key p.value p.op 0; check r.0; some r.1

unfoldable pub insert_pairs : LeafNode → List Pair → Option LeafNode
insert_pairs n [] = some n
insert_pairs n (p ∷ ps) = insert_pair n p >>= λ n'. insert_pairs n' ps

-- Whether `consolidate_inner` keeps a record.
abbrev pub is_kept : LeafNode → Bool → Option Key → LeafKvMeta → Bool
is_kept n skip_tombstone none m = not (skip_tombstone && is_delete (op_type m))
is_kept n skip_tombstone (some s_k) m =
    not (skip_tombstone && is_delete (op_type m)) && not (is_eq (cmp s_k (get_full_key n m)))

-- The records that `consolidate_inner` puts back: a tombstone stays one.
unfoldable pub kept_pairs : LeafNode → OpType → Bool → Option Key → List LeafKvMeta → List Pair
kept_pairs n new_optype skip_tombstone skip_key [] = []
kept_pairs n new_optype skip_tombstone skip_key (m ∷ ms) =
    let rest = kept_pairs n new_optype skip_tombstone skip_key ms in
    if is_kept n skip_tombstone skip_key m
    then pair_of n m (if is_delete (op_type m) then OpType.delete else new_optype) ∷ rest
    else rest

abbrev pub or_else {ℓ} : {A : Type ℓ} → Option A → A → A
or_else none a = a
or_else (some x) a = x

unfoldable pub consolidate_inner :
    LeafNode → OpType → Option Key → Bool → Bool → Option Key → ℕ → Option LeafNode
consolidate_inner n new_optype new_high_fence skip_tombstone cache_only skip_key snapshot_version =
    do
      let has_fence = NodeMeta.has_fence n.meta
      let low_fence = if has_fence then get_low_fence_key n else []
      let high_fence = if has_fence then or_else new_high_fence (get_high_fence_key n) else []
      fresh ←
          initialize n low_fence high_fence n.meta.node_size n.next_level has_fence cache_only
            snapshot_version
      insert_pairs fresh (kept_pairs n new_optype skip_tombstone skip_key (meta_iter n))

unfoldable pub consolidate : LeafNode → ℕ → Option LeafNode
consolidate n snapshot_version =
    consolidate_inner n OpType.insert none true (NodeMeta.is_cache_only_leaf n.meta) none
      snapshot_version

unfoldable pub consolidate_after_merge : LeafNode → ℕ → Option LeafNode
consolidate_after_merge n snapshot_version = do
  check (not (is_base_page n))
  consolidate_inner n OpType.cache none false (NodeMeta.is_cache_only_leaf n.meta) none
      snapshot_version

unfoldable pub consolidate_after_split : LeafNode → Key → ℕ → Option LeafNode
consolidate_after_split n high_fence snapshot_version = do
  check (NodeMeta.is_cache_only_leaf n.meta || is_base_page n)
  consolidate_inner n OpType.insert (some high_fence) true (NodeMeta.is_cache_only_leaf n.meta) none
      snapshot_version

unfoldable pub consolidate_skip_key : LeafNode → Key → ℕ → Option LeafNode
consolidate_skip_key n key snapshot_version = do
  check (not (is_base_page n))
  check (NodeMeta.is_cache_only_leaf n.meta)
  consolidate_inner n OpType.insert none true (NodeMeta.is_cache_only_leaf n.meta) (some key)
      snapshot_version

-- The records that `copy_initialize_to` copies: not the cold ones, if these are to be discarded.
unfoldable pub warm_pairs : LeafNode → Bool → List LeafKvMeta → List Pair
warm_pairs n discard_cold_cache [] = []
warm_pairs n discard_cold_cache (m ∷ ms) =
    let rest = warm_pairs n discard_cold_cache ms in
    if discard_cold_cache && is_cache (op_type m) && not (is_referenced m)
    then rest
    else pair_of n m (op_type m) ∷ rest

-- `copy_initialize_to` the node `dst`
unfoldable pub copy_initialize_to : LeafNode → LeafNode → ℕ → Bool → ℕ → Option LeafNode
copy_initialize_to n dst dst_size discard_cold_cache snapshot_version = do
  check (not (is_base_page n))
  check (leb n.meta.node_size dst_size)
  fresh ←
      initialize dst [] [] dst_size n.next_level false (NodeMeta.is_cache_only_leaf n.meta)
        snapshot_version
  insert_pairs fresh (warm_pairs n discard_cold_cache (meta_iter n))
