-- ===== src/Nodes/NodeMeta/Flags.antt =====
-- What the setters of a node's word change and what they leave.
use bf_tree.Common.{ℕ, ◌+◌, ◌/◌, ◌<◌, ◌≡◌, Bool, true, false, some, arith}
use bf_tree.Common.Bits.{or_disjoint_12}
use bf_tree.Nodes.NodeMeta.{
  NodeMeta, new, meta_count_with_fence, has_fence, set_value_count, children_is_leaf,
  is_cache_only_leaf, increment_value_count, get_split_flag, set_split_flag,
}

-- The four flags of two words agree.
abbrev pub SameFlags : NodeMeta → NodeMeta → Type 0
SameFlags m m' =
    (has_fence m ≡ has_fence m')
    × (children_is_leaf m ≡ children_is_leaf m')
    × (is_cache_only_leaf m ≡ is_cache_only_leaf m')
    × (get_split_flag m ≡ get_split_flag m')

-- A new word has count 0, no split flag, and the flags and sizes that it was made with.
pub new_lem :
    (remaining : ℕ) (leaf fence : Bool) (size : ℕ) (cache : Bool) (m : NodeMeta)
    → new remaining leaf fence size cache ≡ some m
    → (meta_count_with_fence m ≡ 0)
      × (children_is_leaf m ≡ leaf)
      × (has_fence m ≡ fence)
      × (is_cache_only_leaf m ≡ cache)
      × (get_split_flag m ≡ false)
      × (m.remaining_size ≡ remaining)
      × (m.node_size ≡ size)
unfolding new meta_count_with_fence has_fence children_is_leaf is_cache_only_leaf get_split_flag
new_lem remaining leaf fence size cache m h = ground arith

-- Setting a count below 4096 sets it, and changes no flag and no size.
pub set_value_count_lem :
    (m : NodeMeta) (count : ℕ)
    → count < 4096
    → (meta_count_with_fence (set_value_count m count) ≡ count)
      × SameFlags (set_value_count m count) m
      × ((set_value_count m count).remaining_size ≡ m.remaining_size)
unfolding meta_count_with_fence set_value_count has_fence children_is_leaf is_cache_only_leaf
    get_split_flag
set_value_count_lem m count h = rw (or_disjoint_12 (m.encoded / 4096) count h) (ground arith)

-- Counting one up, below 4095, adds one and changes no flag and no size.
pub increment_value_count_lem :
    (m : NodeMeta)
    → m.encoded < 65536
    → meta_count_with_fence m < 4095
    → (meta_count_with_fence (increment_value_count m) ≡ meta_count_with_fence m + 1)
      × SameFlags (increment_value_count m) m
      × ((increment_value_count m).remaining_size ≡ m.remaining_size)
      × ((increment_value_count m).encoded < 65536)
unfolding meta_count_with_fence increment_value_count has_fence children_is_leaf is_cache_only_leaf
    get_split_flag
increment_value_count_lem m b h = ground arith

-- The split flag, once set, is read, and the count and the other flags stay.
pub set_split_flag_lem :
    (m : NodeMeta)
    → m.encoded < 65536
    → (get_split_flag (set_split_flag m) ≡ true)
      × (meta_count_with_fence (set_split_flag m) ≡ meta_count_with_fence m)
      × (has_fence (set_split_flag m) ≡ has_fence m)
      × (children_is_leaf (set_split_flag m) ≡ children_is_leaf m)
      × (is_cache_only_leaf (set_split_flag m) ≡ is_cache_only_leaf m)
unfolding meta_count_with_fence set_split_flag has_fence children_is_leaf is_cache_only_leaf
    get_split_flag
set_split_flag_lem m b = ground arith
