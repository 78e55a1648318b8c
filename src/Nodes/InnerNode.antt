-- ===== src/Nodes/InnerNode.antt =====
-- src/nodes/inner_node.rs: the routing nodes of the tree. The bytes behind the header hold the
-- array of `InnerKVMeta`, which grows upwards, and the payloads, which grow downwards from the end:
-- for each slot the key behind its first four bytes and then the page id of the child. The two are
-- modelled apart, as `slots` and `bytes`; `Layout` shows that they do not run into one another.
pub mod Build
pub mod Layout
pub mod Lookup
pub mod Insert
pub mod Overwrite
pub mod Routing
mod Tests
use bf_tree.Common.{
  ℕ, zero, suc, ◌+◌, ◌-◌, ◌*◌, ◌/◌, ◌<◌, ◌%◌, ◌^◌, Bool, true, false, Option, none, some, List, [],
  ◌∷◌, ◌++◌, ◌&&◌, ◌||◌, not, if◌then◌else◌, u16, ltb, leb, ◌==◌, length, take, drop, get_or,
  replicate, min, max, Ordering, is_eq,
}
use bf_tree.Common.Bytes.{Key, cmp, Memory, read, write, le_bytes, from_le}
use bf_tree.Common.Shift.{shift_in}
use bf_tree.Common.Search.{Outcome, found, missing, search_loop}
use bf_tree.Nodes.PageId.{PageId, from_raw}
use bf_tree.Nodes.NodeMeta
use bf_tree.Nodes.NodeMeta.{NodeMeta}
use bf_tree.Nodes.Sizes.{inner_node_size}

-- `InnerKVMeta`; `key_prefix` has four bytes.
pub record InnerKvMeta : Type 0 where
  pub offset : ℕ
  pub key_len : ℕ
  pub key_prefix : List ℕ

-- `InnerKVMeta::make_prefixed_meta`: the first four bytes of the key, padded with zeros.
unfoldable pub make_prefixed_meta : Key → ℕ → InnerKvMeta
make_prefixed_meta key offset = record {
  offset = offset;
  key_len = u16 (length key);
  key_prefix = take 4 key ++ replicate (4 - length key) 0;
}

-- `InnerNode`, without its lock word. A slot at or above the count holds garbage.
pub record InnerNode : Type 0 where
  pub meta : NodeMeta
  pub disk_offset : ℕ
  pub snapshot_version : ℕ
  pub slots : ℕ → InnerKvMeta
  pub bytes : Memory

-- `InnerNode::max_data_size`: the header takes 32 bytes.
abbrev pub max_data_size : ℕ
max_data_size = inner_node_size - 32

abbrev pub count : InnerNode → ℕ
count n = NodeMeta.meta_count_with_fence n.meta

-- `current_lowest_offset`, a sum of `u16`
unfoldable pub current_lowest_offset : InnerNode → ℕ
current_lowest_offset n = u16 (count n * 8 + n.meta.remaining_size)

unfoldable pub get_post_key_ref : InnerNode → InnerKvMeta → Key
get_post_key_ref n meta = read n.bytes meta.offset (meta.key_len - 4)

-- `&meta.key_prefix[0..min(4, key_len)]`
abbrev pub prefix_key : InnerKvMeta → Key
prefix_key meta = take (min 4 meta.key_len) meta.key_prefix

unfoldable pub get_full_key : InnerNode → InnerKvMeta → Key
get_full_key n meta = prefix_key meta ++ get_post_key_ref n meta

unfoldable pub get_value : InnerNode → InnerKvMeta → PageId
get_value n meta = from_raw (from_le (read n.bytes (meta.offset + (meta.key_len - 4)) 8))

unfoldable pub key_compare : InnerNode → Key → InnerKvMeta → Ordering
key_compare n key meta =
    let rest = cmp (get_post_key_ref n meta) (drop (min 4 (length key)) key) in
    elim (cmp (prefix_key meta) (take (min 4 (length key)) key)) [
      | Ordering.eq ↦ rest
      | Ordering.lt ↦ Ordering.lt
      | Ordering.gt ↦ Ordering.gt
    ]

-- `slice::is_empty`
abbrev pub is_empty : Key → Bool
is_empty [] = true
is_empty (_ ∷ _) = false

-- The comparison in a round of `lower_bound`, which reads the payload only if it must.
unfoldable pub probe : InnerNode → Key → ℕ → Ordering
probe n key mid =
    let meta = n.slots mid in
    let postfix = drop (min 4 (length key)) key in
    let first = cmp (prefix_key meta) (take (min 4 (length key)) key) in
    if is_eq first && (ltb 4 meta.key_len || not (is_empty postfix))
    then cmp (get_post_key_ref n meta) postfix
    else first

-- The position of `lower_bound`: that of the key, or the one before the first greater key.
abbrev pub position : Outcome → ℕ
position (found mid) = mid
position (missing lower) = lower - 1

-- The first key is a dummy, so the search begins at 1.
unfoldable pub lower_bound : InnerNode → Key → ℕ
lower_bound n key = position (search_loop (probe n key) (count n) 1 (count n))

-- The size of a record in the node, its slot included.
abbrev pub post_key_len : Key → ℕ
post_key_len key = max (length key) 4 - 4

abbrev pub required_len : Key → ℕ
required_len key = post_key_len key + 8 + 8

unfoldable pub have_space_for : InnerNode → Key → Bool
have_space_for n key = leb (u16 (required_len key)) n.meta.remaining_size

-- The page id as a word in memory.
abbrev pub id_bytes : PageId → List ℕ
id_bytes p = le_bytes 8 p.value

-- The branch of `insert` for a key that the node does not have.
unfoldable pub insert_new : InnerNode → Key → PageId → ℕ → ℕ → InnerNode
insert_new n key child offset pos =
    let post = drop 4 key in
    let meta =
      NodeMeta.increment_value_count
        (record n.meta { remaining_size = n.meta.remaining_size - u16 (required_len key) }) in
    record n {
      meta = meta;
      slots = shift_in n.slots pos (make_prefixed_meta key offset);
      bytes = write (write n.bytes offset post) (offset + post_key_len key) (id_bytes child);
    }

-- The write of a page id behind `post` bytes of key of the record of `meta`.
unfoldable pub write_child : InnerNode → InnerKvMeta → ℕ → PageId → InnerNode
write_child n meta post child = record n {
  bytes = write n.bytes (meta.offset + post) (id_bytes child);
}

-- `insert`: whether there was room, and the node.
unfoldable pub insert : InnerNode → Key → PageId → Bool × InnerNode
insert n key child =
    let kv_len = post_key_len key + 8 in
    let offset = u16 (current_lowest_offset n + 65536 - u16 kv_len) in
    let pos = lower_bound n key in
    if ltb n.meta.remaining_size (u16 (required_len key))
    then (false, n)
    else if ltb 0 pos && ltb pos (count n) && is_eq (key_compare n key (n.slots pos))
    then (true, write_child n (n.slots pos) (post_key_len key) child)
    else (true, insert_new n key child offset (pos + 1))

unfoldable pub update_at_pos : InnerNode → ℕ → PageId → InnerNode
update_at_pos n pos new_id = write_child n (n.slots pos) (max (n.slots pos).key_len 4 - 4) new_id
