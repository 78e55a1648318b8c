-- ===== src/Nodes/InnerNode/Build.antt =====
-- Making, compacting and splitting inner nodes, and the version word of a node. `none` is a panic:
-- a failed `assert!` or an `unwrap` of `None`.
pub mod Fresh
use bf_tree.Common.{
  ℕ, zero, suc, ◌+◌, ◌-◌, ◌*◌, ◌/◌, ◌%◌, ◌^◌, Bool, true, false, Option, none, some, List, [], ◌∷◌,
  ◌++◌, ◌>>=◌, ◌>>◌, check, not, if◌then◌else◌, u16, ◌==◌,
}
use bf_tree.Common.Bits.{test_bit, set_bit, clear_bit}
use bf_tree.Common.Bytes.{Key, write, le_bytes}
use bf_tree.Nodes.PageId.{PageId}
use bf_tree.Nodes.NodeMeta
use bf_tree.Nodes.NodeMeta.{NodeMeta}
use bf_tree.Nodes.Sizes.{inner_node_size}
use bf_tree.Nodes.InnerNode.{
  InnerKvMeta, InnerNode, count, max_data_size, current_lowest_offset, get_full_key, get_value,
  id_bytes, insert,
}

-- `INVALID_DISK_OFFSET`, `usize::MAX`
abbrev pub invalid_disk_offset : ℕ
invalid_disk_offset = 2 ^ 64 - 1

-- The two masks of the version word: bit 63 says that the node is the root.
unfoldable pub get_clean_snapshot_version : InnerNode → ℕ
get_clean_snapshot_version n = n.snapshot_version % 2 ^ 63

unfoldable pub set_snapshot_version : InnerNode → ℕ → Option InnerNode
set_snapshot_version n version = do
  check (not (test_bit version 63))
  some (record n { snapshot_version = version % 2 ^ 63 + n.snapshot_version / 2 ^ 63 % 2 * 2 ^ 63 })

unfoldable pub is_root : InnerNode → Bool
is_root n = test_bit n.snapshot_version 63

unfoldable pub set_root : InnerNode → Bool → InnerNode
set_root n root = record n {
  snapshot_version =
      if root then set_bit n.snapshot_version 63 else clear_bit n.snapshot_version 63;
}

unfoldable pub is_valid_disk_offset : InnerNode → Bool
is_valid_disk_offset n = not (n.disk_offset == invalid_disk_offset)

-- The node with a fresh header word: `NodeMeta::new` and `disk_offset` of `reinitialize`.
abbrev with_meta : InnerNode → NodeMeta → ℕ → InnerNode
with_meta n m disk_offset = record n { meta = m; disk_offset = disk_offset }

-- The rest of `reinitialize`: the dummy record that holds the left-most page id.
unfoldable pub put_left_most : InnerNode → PageId → InnerNode
put_left_most n left =
    let offset = u16 (current_lowest_offset n + 65536 - 8) in
    let new_meta : InnerKvMeta = record {
      offset = offset;
      key_len = 0;
      key_prefix = 0 ∷ 0 ∷ 0 ∷ 0 ∷ [];
    } in
    record n {
      slots = λ i. elim i [ zero ↦ new_meta | suc j ↦ n.slots (suc j) ];
      bytes = write n.bytes offset (id_bytes left);
      meta =
          NodeMeta.increment_value_count
            (record n.meta { remaining_size = n.meta.remaining_size - 16 });
    }

unfoldable pub reinitialize : InnerNode → PageId → Bool → ℕ → Option InnerNode
reinitialize n left children_is_leaf disk_offset = do
  m ← NodeMeta.new max_data_size children_is_leaf false inner_node_size false
  some (put_left_most (with_meta n m disk_offset) left)

-- `InnerNodeBuilder`, without the memory that it holds.
pub record InnerNodeBuilder : Type 0 where
  pub left_most_page_id : Option PageId
  pub children_is_leaf : Option Bool
  pub disk_offset : Option ℕ
  pub records : List (Key × PageId)

abbrev pub new_builder : InnerNodeBuilder
new_builder = record {
  left_most_page_id = none;
  children_is_leaf = none;
  disk_offset = none;
  records = [];
}

-- `for (key, value) in records { assert!(node.insert(&key, value)) }`
unfoldable pub insert_all : InnerNode → List (Key × PageId) → Option InnerNode
insert_all n [] = some n
insert_all n ((key, child) ∷ rest) =
    let (done, n') = insert n key child in
    let after = insert_all n' rest in if done then after else none

-- `build`; `raw` is what the allocated page holds before.
unfoldable pub build : InnerNode → InnerNodeBuilder → ℕ → Option InnerNode
build raw b snapshot_version = do
  left ← b.left_most_page_id
  leaf ← b.children_is_leaf
  let offset : ℕ = elim b.disk_offset [ some x ↦ x | none ↦ invalid_disk_offset ]
  n ← reinitialize (record raw { snapshot_version = 0 }) left leaf offset
  n' ← insert_all n b.records
  set_snapshot_version n' snapshot_version

-- The records of the slots from `i` on, `left` of them.
unfoldable pub pairs_from : InnerNode → ℕ → ℕ → List (Key × PageId)
pairs_from n i zero = []
pairs_from n i (suc left) =
    (get_full_key n (n.slots i), get_value n (n.slots i)) ∷ pairs_from n (suc i) left

-- The loop of `consolidate`, which ignores what `insert` returns.
unfoldable pub insert_each : InnerNode → List (Key × PageId) → InnerNode
insert_each n [] = n
insert_each n ((key, child) ∷ rest) = insert_each (insert n key child).1 rest

unfoldable pub consolidate : InnerNode → ℕ → Option InnerNode
consolidate n snapshot_version = do
  let pairs = pairs_from n 1 (count n - 1)
  let left = get_value n (n.slots 0)
  fresh ← reinitialize n left (NodeMeta.children_is_leaf n.meta) n.disk_offset
  versioned ← set_snapshot_version fresh snapshot_version
  some (insert_each versioned pairs)

unfoldable pub get_split_key : InnerNode → Key
get_split_key n = get_full_key n (n.slots (count n - count n / 2))

-- `split`: the key that goes up, the builder of the right node, and the left node.
unfoldable pub split :
    InnerNode → InnerNodeBuilder → ℕ → Option (Key × InnerNodeBuilder × InnerNode)
split n b snapshot_version = do
  let sibling_node_count = count n / 2
  let new_node_count = count n - sibling_node_count
  let middle = n.slots new_node_count
  let right : InnerNodeBuilder = record b {
    children_is_leaf = some (NodeMeta.children_is_leaf n.meta);
    left_most_page_id = some (get_value n middle);
    records = b.records ++ pairs_from n (new_node_count + 1) (sibling_node_count - 1);
  }
  left ←
      consolidate (record n { meta = NodeMeta.set_value_count n.meta new_node_count })
        snapshot_version
  some (get_full_key n middle, right, left)
