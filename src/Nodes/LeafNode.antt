-- ===== src/Nodes/LeafNode.antt =====
-- src/nodes/leaf_node.rs: the leaves and the mini pages of the tree, which hold the records. As in an
-- inner node the slots grow upwards and the payloads downwards; a payload is the key behind the
-- prefix that all keys of the node share, and then the value. The first two slots of a node with
-- fences are its low and its high fence. A key is not shorter than the prefix (`debug_assert!`).
pub mod Layout
pub mod Lookup
pub mod Records
pub mod Replace
pub mod Payload
pub mod Existing
pub mod Fresh
pub mod ReadFresh
pub mod Put
pub mod Mark
pub mod Scan
pub mod Insert
pub mod Rebuild
pub mod Merge
pub mod Split
mod Tests
use bf_tree.Common.{
  ℕ, zero, suc, ◌+◌, ◌-◌, ◌*◌, ◌/◌, ◌<◌, ◌%◌, ◌^◌, Bool, true, false, Option, none, some, List, [],
  ◌∷◌, ◌++◌, ◌&&◌, ◌||◌, not, if◌then◌else◌, u16, ltb, leb, ◌==◌, length, take, drop, min, max,
  Ordering, is_eq, is_lt,
}
use bf_tree.Common.Bytes.{Key, cmp, Memory, read, write}
use bf_tree.Common.Bits.{test_bit, set_bit, clear_bit}
use bf_tree.Common.Shift.{shift_in, put_at}
use bf_tree.Common.Search.{Outcome, found, missing, search_loop}
use bf_tree.Nodes.OpType.{OpType, is_absent}
use bf_tree.Nodes.NodeMeta
use bf_tree.Nodes.NodeMeta.{NodeMeta}
use bf_tree.Nodes.LeafKvMeta.{
  LeafKvMeta, make_prefixed_meta, is_infinite_low_fence_key, is_infinite_high_fence_key, value_len,
  set_value_len, get_key_len, set_op_type, op_type, mark_as_ref, is_referenced, mark_as_deleted,
}

-- `LeafNode`, without its lock. A slot at or above the count holds garbage. `next_level` is the
-- word of `MiniPageNextLevel`.
pub record LeafNode : Type 0 where
  pub meta : NodeMeta
  pub prefix_len : ℕ
  pub next_level : ℕ
  pub lsn : ℕ
  pub snapshot_version : ℕ
  pub slots : ℕ → LeafKvMeta
  pub bytes : Memory

-- `MiniPageNextLevel::new_null`, `is_null` and `as_offset`
abbrev pub new_null : ℕ
new_null = 18446744073709551615

abbrev pub is_null : ℕ → Bool
is_null val = val == new_null

unfoldable pub as_offset : ℕ → Option ℕ
as_offset val = if is_null val then none else some val

-- `LeafNode::max_data_size`: the header takes 32 bytes.
abbrev pub max_data_size : ℕ → ℕ
max_data_size node_size = node_size - 32

abbrev pub count : LeafNode → ℕ
count n = NodeMeta.meta_count_with_fence n.meta

abbrev pub first_meta_pos_after_fence : LeafNode → ℕ
first_meta_pos_after_fence n = if NodeMeta.has_fence n.meta then 2 else 0

unfoldable pub is_base_page : LeafNode → Bool
is_base_page n = not (NodeMeta.is_cache_only_leaf n.meta) && is_null n.next_level

unfoldable pub current_lowest_offset : LeafNode → ℕ
current_lowest_offset n = u16 (count n * 8 + n.meta.remaining_size)

unfoldable pub get_remaining_key : LeafNode → LeafKvMeta → Key
get_remaining_key n m = read n.bytes m.offset (get_key_len m - n.prefix_len)

unfoldable pub get_prefix : LeafNode → Key
get_prefix n = read n.bytes (n.slots 0).offset n.prefix_len

unfoldable pub get_full_key : LeafNode → LeafKvMeta → Key
get_full_key n m = get_prefix n ++ get_remaining_key n m

-- The offset is a sum and a difference of `u16`.
unfoldable pub get_value : LeafNode → LeafKvMeta → List ℕ
get_value n m = read n.bytes (u16 (m.offset + get_key_len m + 65536 - n.prefix_len)) (value_len m)

-- A fence that is infinite reads as the empty key.
unfoldable pub get_low_fence_key : LeafNode → Key
get_low_fence_key n =
    let m = n.slots 0 in
    if is_infinite_low_fence_key m then [] else read n.bytes m.offset (get_key_len m)

unfoldable pub get_high_fence_key : LeafNode → Key
get_high_fence_key n =
    let m = n.slots 1 in if is_infinite_high_fence_key m then [] else get_full_key n m

-- `key_cmp`, which the rounds of `lower_bound` have in line: two bytes first, then the whole.
unfoldable pub key_cmp : LeafNode → Key → LeafKvMeta → Ordering
key_cmp n key m =
    let postfix = drop n.prefix_len key in
    let search_prefix = take (min (length key - n.prefix_len) 2) postfix in
    let first = cmp (take (min 2 (get_key_len m - n.prefix_len)) m.preview_bytes) search_prefix in
    if is_eq first then cmp (get_remaining_key n m) postfix else first

unfoldable pub probe : LeafNode → Key → ℕ → Ordering
probe n key mid = key_cmp n key (n.slots mid)

-- The position of `lower_bound`: that of the key, or that of the first greater key.
abbrev pub position : Outcome → ℕ
position (found mid) = mid
position (missing lower) = lower

unfoldable pub lower_bound : LeafNode → Key → ℕ
lower_bound n key =
    position (search_loop (probe n key) (count n) (first_meta_pos_after_fence n) (count n))

-- The loop of `linear_lower_bound`; a round takes one from `count n - index`.
unfoldable pub linear_loop : LeafNode → Key → ℕ → ℕ → ℕ
linear_loop n key zero index = index
linear_loop n key (suc fuel) index =
    let rest = linear_loop n key fuel (index + 1) in
    if ltb index (count n) && is_lt (probe n key index) then rest else index

unfoldable pub linear_lower_bound : LeafNode → Key → ℕ
linear_lower_bound n key = linear_loop n key (count n) (first_meta_pos_after_fence n)

-- `full_with_fences`: sums of `u16`
unfoldable pub full_with_fences : LeafNode → ℕ → ℕ → Bool
full_with_fences n requested_size max_fence_len =
    let low = if is_infinite_low_fence_key (n.slots 0) then 0 else get_key_len (n.slots 0) in
    let high = if is_infinite_high_fence_key (n.slots 1) then 0 else get_key_len (n.slots 1) in
    let empty_data_size = u16 (n.meta.remaining_size + low + high) in
    if ltb n.meta.remaining_size requested_size
    then true
    else if NodeMeta.has_fence n.meta
    then not (leb (u16 (requested_size + u16 max_fence_len)) empty_data_size)
    else false

-- `key.len() as u16 - self.prefix_len`, and the size of the payload
abbrev pub post_fix_len : LeafNode → Key → ℕ
post_fix_len n key = u16 (u16 (length key) + 65536 - n.prefix_len)

abbrev pub kv_len : LeafNode → Key → List ℕ → ℕ
kv_len n key value = u16 (post_fix_len n key + u16 (length value))

-- The place of a new payload, below all the others.
abbrev pub new_offset : LeafNode → Key → List ℕ → ℕ
new_offset n key value = u16 (current_lowest_offset n + 65536 - kv_len n key value)

-- The payload written at `offset`.
abbrev pub put_pair : LeafNode → Key → List ℕ → ℕ → Memory
put_pair n key value offset =
    write (write n.bytes offset (drop n.prefix_len key)) (offset + post_fix_len n key) value

-- The branches of `insert` that change the node. A key that is there is deleted by its kind,
unfoldable pub delete_at : LeafNode → ℕ → LeafNode
delete_at n pos = record n { slots = put_at n.slots pos (mark_as_deleted (n.slots pos)) }

-- its value is overwritten if the new one is not longer,
unfoldable pub overwrite : LeafNode → Key → List ℕ → OpType → ℕ → LeafNode
overwrite n key value op pos =
    let m = n.slots pos in
    record n {
      bytes = write n.bytes (m.offset + post_fix_len n key) value;
      slots = put_at n.slots pos (set_op_type (set_value_len m (u16 (length value))) op);
    }

-- or it gets a new payload.
unfoldable pub move_payload : LeafNode → Key → List ℕ → OpType → ℕ → LeafNode
move_payload n key value op pos =
    let m = set_op_type (set_value_len (n.slots pos) (u16 (length value))) op in
    let offset = new_offset n key value in
    record n {
      slots = put_at n.slots pos (record m { offset = offset });
      bytes = put_pair n key value offset;
      meta = record n.meta { remaining_size = n.meta.remaining_size - kv_len n key value };
    }

-- A new key gets a slot at its place.
unfoldable pub insert_new : LeafNode → Key → List ℕ → OpType → ℕ → LeafNode
insert_new n key value op pos =
    let offset = new_offset n key value in
    record n {
      slots =
          shift_in n.slots pos (make_prefixed_meta offset (u16 (length value)) key n.prefix_len op);
      bytes = put_pair n key value offset;
      meta =
          NodeMeta.increment_value_count (record n.meta {
            remaining_size = n.meta.remaining_size - u16 (kv_len n key value + 8);
          });
    }

-- Whether the slot at `pos` has the key.
abbrev pub has_key_at : LeafNode → Key → ℕ → Bool
has_key_at n key pos =
    ltb pos (count n) && is_eq (cmp (get_remaining_key n (n.slots pos)) (drop n.prefix_len key))

abbrev pub is_delete : OpType → Bool
is_delete OpType.delete = true
is_delete _ = false

abbrev pub is_cache_type : OpType → Bool
is_cache_type OpType.cache = true
is_cache_type _ = false

-- `insert`: whether there was room, and the node; `none` is the `assert!`.
unfoldable pub insert : LeafNode → Key → List ℕ → OpType → ℕ → Option (Bool × LeafNode)
insert n key value op max_fence_len =
    let pos = lower_bound n key in
    let size = kv_len n key value in
    if has_key_at n key pos
    then if is_delete op
      then some (true, delete_at n pos)
      else if leb (u16 (length value)) (value_len (n.slots pos))
      then some (true, overwrite n key value op pos)
      else if ltb n.meta.remaining_size size
      then some (false, n)
      else if is_cache_type op
      then none
      else some (true, move_payload n key value op pos)
    else if is_delete op && is_base_page n
    then some (true, n)
    else if full_with_fences n (u16 (size + 8)) max_fence_len
    then some (false, n)
    else some (true, insert_new n key value op pos)

-- `LeafReadResult`, with the bytes that are copied to the buffer of the caller
pub data LeafReadResult : Type 0 where
  hit : List ℕ → LeafReadResult
  deleted not_found : LeafReadResult

abbrev pub result_at : LeafNode → Key → ℕ → LeafReadResult
result_at n key pos =
    let m = n.slots pos in
    if has_key_at n key pos
    then if is_absent (op_type m) then deleted else hit (get_value n m)
    else not_found

-- What `read_by_key_inner` finds, and the node, in which the slot is marked as referenced.
unfoldable pub read_by_key_inner : LeafNode → Key → Bool → LeafReadResult × LeafNode
read_by_key_inner n search_key binary_search =
    let pos = if binary_search then lower_bound n search_key else linear_lower_bound n search_key in
    let m = n.slots pos in
    if leb (count n) pos then (not_found, n) else (
      result_at n search_key pos,
      if is_referenced m then n else record n { slots = put_at n.slots pos (mark_as_ref m) },
    )

unfoldable pub read_by_key : LeafNode → Key → LeafReadResult × LeafNode
read_by_key n search_key = read_by_key_inner n search_key true
