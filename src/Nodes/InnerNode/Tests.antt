-- ===== src/Nodes/InnerNode/Tests.antt =====
-- Runs of the inner node on small inputs, and the theorems at concrete nodes.
use bf_tree.Common.{ℕ, ◌+◌, ◌≡◌, ◌<◌, ◌^◌, refl, true, false, some, none, List, [], ◌∷◌, arith}
use bf_tree.Common.Bytes.{Key, cmp, read, write, le_bytes, from_le}
use bf_tree.Common.Shift.{shift_in}
use bf_tree.Common.Search.{search_loop}
use bf_tree.Nodes.PageId.{
  PageId, from_id, from_raw, from_pointer, as_id, as_inner_node, from_id-as_id,
  from_pointer-as_inner_node,
}
use bf_tree.Nodes.NodeMeta
use bf_tree.Nodes.InnerNode.{
  InnerNode, insert, lower_bound, have_space_for, get_full_key, get_value, update_at_pos, count,
  probe, key_compare, current_lowest_offset, insert_new, write_child, make_prefixed_meta,
  get_post_key_ref,
}
use bf_tree.Nodes.InnerNode.Layout.{key_at, child_at, IsValid}
use bf_tree.Nodes.InnerNode.Lookup.{IsPlaceOf, lower_bound_lem}
use bf_tree.Nodes.InnerNode.Overwrite.{IsOverwritten, update_at_pos_lem}
use bf_tree.Nodes.InnerNode.Routing.{route, Inserts, insert-Inserts}
use bf_tree.Nodes.InnerNode.Build.{
  reinitialize, put_left_most, InnerNodeBuilder, build, insert_all, set_snapshot_version,
}
use bf_tree.Nodes.InnerNode.Build.Fresh.{reinitialize_lem, build-IsValid}

abbrev id : ℕ → PageId
id v = record { value = v }

-- Memory before a node is made in it.
abbrev raw : InnerNode
raw = record {
  meta = record { encoded = 9; node_size = 7; remaining_size = 5 };
  disk_offset = 3;
  snapshot_version = 2 ^ 63 + 1;
  slots = λ _. record { offset = 1; key_len = 1; key_prefix = [] };
  bytes = λ a. 77;
}

-- A node with the left-most child 10 and no key.
abbrev empty_node : InnerNode
empty_node =
    put_left_most
      (record raw {
        meta = record { encoded = 0; node_size = 4096; remaining_size = 4064 };
        disk_offset = 0;
      })
      (id 10)

empty_node_lem :
    IsValid empty_node × (count empty_node ≡ 1) × ((k : Key) → route empty_node k ≡ id 10)
unfolding reinitialize NodeMeta.new
empty_node_lem = reinitialize_lem raw (id 10) false 0 empty_node (omega arith) refl

abbrev keys : List (Key × PageId)
keys =
    ((5 ∷ 6 ∷ 7 ∷ 8 ∷ 9 ∷ 1 ∷ []), id 20)
    ∷ ((2 ∷ []), id 30)
    ∷ ((5 ∷ 6 ∷ 7 ∷ 8 ∷ 9 ∷ 0 ∷ []), id 40)
    ∷ []

abbrev three : InnerNode
three =
    (insert (insert (insert empty_node (5 ∷ 6 ∷ 7 ∷ 8 ∷ 9 ∷ 1 ∷ []) (id 20)).1 (2 ∷ []) (id 30)).1
      (5 ∷ 6 ∷ 7 ∷ 8 ∷ 9 ∷ 0 ∷ []) (id 40)).1

-- The keys stand in order, whatever order they came in.
three_keys :
    (key_at three 1 ≡ 2 ∷ [])
    × (key_at three 2 ≡ 5 ∷ 6 ∷ 7 ∷ 8 ∷ 9 ∷ 0 ∷ [])
    × (key_at three 3 ≡ 5 ∷ 6 ∷ 7 ∷ 8 ∷ 9 ∷ 1 ∷ [])
    × (child_at three 0 ≡ id 10)
    × (child_at three 1 ≡ id 30)
    × (child_at three 2 ≡ id 40)
    × (child_at three 3 ≡ id 20)
unfolding insert put_left_most lower_bound probe key_compare current_lowest_offset insert_new
    write_child make_prefixed_meta get_post_key_ref get_full_key get_value search_loop cmp read
    write le_bytes from_le from_raw shift_in NodeMeta.meta_count_with_fence
    NodeMeta.increment_value_count
three_keys = (refl, refl, refl, refl, refl, refl, refl)

lower_bound_lem_example : IsPlaceOf empty_node (4 ∷ []) (lower_bound empty_node (4 ∷ []))
lower_bound_lem_example = lower_bound_lem empty_node (4 ∷ []) empty_node_lem.0

insert-Inserts_example :
    let (done, n') = insert empty_node (2 ∷ []) (id 30) in
    (done ≡ have_space_for empty_node (2 ∷ []))
    × ((done ≡ true) → Inserts empty_node n' (2 ∷ []) (id 30))
    × ((done ≡ false) → n' ≡ empty_node)
insert-Inserts_example =
    insert-Inserts empty_node (2 ∷ []) (id 30) empty_node_lem.0 (omega arith) (omega arith)

update_at_pos_lem_example :
    IsOverwritten empty_node (update_at_pos empty_node 0 (id 11)) (id 11) 0
    × IsValid (update_at_pos empty_node 0 (id 11))
update_at_pos_lem_example =
    update_at_pos_lem empty_node 0 (id 11) empty_node_lem.0 (omega (arith, empty_node_lem.1))
      (omega arith)

abbrev builder : InnerNodeBuilder
builder = record {
  left_most_page_id = some (id 10);
  children_is_leaf = some false;
  disk_offset = some 0;
  records = ((2 ∷ []), id 30) ∷ [];
}

abbrev built : InnerNode
built = record (insert empty_node (2 ∷ []) (id 30)).1 { snapshot_version = 6 }

build-IsValid_example : IsValid built
unfolding build reinitialize NodeMeta.new insert_all set_snapshot_version insert put_left_most
    lower_bound probe key_compare current_lowest_offset insert_new write_child make_prefixed_meta
    get_post_key_ref search_loop cmp NodeMeta.meta_count_with_fence NodeMeta.increment_value_count
build-IsValid_example =
    build-IsValid raw builder 6 (id 10) built refl (omega arith) (omega arith) refl

from_id-as_id_example :
    (as_id (from_id 7) ≡ some 7) × (as_inner_node (from_id 7) ≡ none) × ((from_id 7).value < 2 ^ 63)
from_id-as_id_example = from_id-as_id 7 (omega arith)

from_pointer-as_inner_node_example :
    (as_inner_node (from_pointer 4096) ≡ some 4096) × (as_id (from_pointer 4096) ≡ none)
from_pointer-as_inner_node_example = from_pointer-as_inner_node 4096 (omega arith)
