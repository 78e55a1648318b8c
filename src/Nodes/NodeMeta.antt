-- ===== src/Nodes/NodeMeta.antt =====
-- src/nodes/node_meta.rs: the count and the flags of a node in one 16-bit word. Bit 15 says that the
-- node has fences, bit 14 that it should be split, bit 13 that its children are leaves, bit 12 that
-- it is a leaf of a tree without a disk; bits 0 to 11 are the count.
pub mod Flags
mod Tests
use bf_tree.Common.{
  ℕ, ◌+◌, ◌-◌, ◌*◌, ◌/◌, ◌%◌, Bool, true, false, Option, none, some, not, ◌&&◌, if◌then◌else◌, u16,
  bit_or,
}
use bf_tree.Common.Bits.{test_bit, set_bit}

pub record NodeMeta : Type 0 where
  pub encoded : ℕ
  pub node_size : ℕ
  pub remaining_size : ℕ

-- `NodeMeta::new`; a leaf parent with fences is a panic.
unfoldable pub new : ℕ → Bool → Bool → ℕ → Bool → Option NodeMeta
new remaining_size children_is_leaf has_fence node_size cache_only =
    let e0 : ℕ = 0 in
    let e1 = if children_is_leaf then set_bit e0 13 else e0 in
    let e2 = if has_fence then set_bit e1 15 else e1 in
    let e3 = if cache_only then set_bit e2 12 else e2 in
    if has_fence && children_is_leaf
    then none
    else some (record { encoded = e3; node_size = node_size; remaining_size = remaining_size })

unfoldable pub meta_count_with_fence : NodeMeta → ℕ
meta_count_with_fence m = m.encoded % 4096

unfoldable pub has_fence : NodeMeta → Bool
has_fence m = test_bit m.encoded 15

-- The subtraction is on `u16`.
unfoldable pub meta_count_without_fence : NodeMeta → ℕ
unfolding meta_count_with_fence has_fence
meta_count_without_fence m =
    if has_fence m then u16 (meta_count_with_fence m + 65536 - 2) else meta_count_with_fence m

unfoldable pub set_value_count : NodeMeta → ℕ → NodeMeta
set_value_count m count = record m { encoded = bit_or (m.encoded / 4096 * 4096) count }

unfoldable pub children_is_leaf : NodeMeta → Bool
children_is_leaf m = test_bit m.encoded 13

unfoldable pub is_cache_only_leaf : NodeMeta → Bool
is_cache_only_leaf m = test_bit m.encoded 12

unfoldable pub increment_value_count : NodeMeta → NodeMeta
increment_value_count m = record m { encoded = u16 (m.encoded + 1) }

unfoldable pub get_split_flag : NodeMeta → Bool
get_split_flag m = test_bit m.encoded 14

unfoldable pub set_split_flag : NodeMeta → NodeMeta
set_split_flag m = record m { encoded = set_bit m.encoded 14 }
