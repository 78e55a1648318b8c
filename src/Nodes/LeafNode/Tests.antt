-- ===== src/Nodes/LeafNode/Tests.antt =====
-- Runs of a leaf on small inputs, and the theorems at concrete leaves.
use bf_tree.Common.{◌≡◌, refl, true, [], ◌∷◌, arith}
use bf_tree.Common.Bytes.{cmp, read, write}
use bf_tree.Common.Shift.{shift_in}
use bf_tree.Common.Search.{search_loop}
use bf_tree.Nodes.OpType.{OpType, to_byte}
use bf_tree.Nodes.NodeMeta
use bf_tree.Nodes.LeafKvMeta.{
  LeafKvMeta, make_prefixed_meta, clear_ref, value_len, set_value_len, get_key_len, op_type,
  is_referenced,
}
use bf_tree.Nodes.LeafKvMeta.Fields.{set_value_len_lem}
use bf_tree.Nodes.LeafNode.{
  LeafNode, insert, lower_bound, linear_lower_bound, probe, key_cmp, get_remaining_key,
  current_lowest_offset, full_with_fences, insert_new,
}
use bf_tree.Nodes.LeafNode.Layout.{IsValid}
use bf_tree.Nodes.LeafNode.Lookup.{IsPlaceOf, lower_bound-linear_lower_bound}
use bf_tree.Nodes.LeafNode.Insert.{Ends, insert-Ends}

-- A mini page of 128 bytes with no record.
abbrev empty : LeafNode
empty = record {
  meta = record { encoded = 0; node_size = 128; remaining_size = 96 };
  prefix_len = 0;
  next_level = 4096;
  lsn = 0;
  snapshot_version = 0;
  slots = λ i. record { offset = 7; op_type_key_len = 3; ref_value_len = 1; preview_bytes = [] };
  bytes = λ a. 77;
}

empty-IsValid : IsValid empty
unfolding NodeMeta.meta_count_with_fence NodeMeta.has_fence
empty-IsValid = record {
  word = omega arith;
  size = omega arith;
  fences = omega arith;
  room = omega arith;
  records = λ i a b. absurd (omega arith);
  apart = λ i j a b c. absurd (omega arith);
  sorted = λ i j a b c. absurd (omega arith);
}

abbrev one : LeafNode
one = insert_new empty (5 ∷ 6 ∷ 7 ∷ []) (1 ∷ 2 ∷ []) OpType.insert 0

-- The first insertion.
one-Ends : Ends empty (5 ∷ 6 ∷ 7 ∷ []) (1 ∷ 2 ∷ []) OpType.insert (true, one)
unfolding insert lower_bound search_loop full_with_fences get_remaining_key cmp
    NodeMeta.meta_count_with_fence NodeMeta.has_fence
one-Ends =
    insert-Ends empty (5 ∷ 6 ∷ 7 ∷ []) (1 ∷ 2 ∷ []) OpType.insert 0 empty-IsValid
      (record { prefixed = omega arith; key_small = omega arith; value_small = omega arith })
      (true, one) refl

abbrev two : LeafNode
two = insert_new one (5 ∷ 6 ∷ 4 ∷ []) (3 ∷ []) OpType.cache 0

-- The second goes before the first.
insert-Ends_example : Ends one (5 ∷ 6 ∷ 4 ∷ []) (3 ∷ []) OpType.cache (true, two)
unfolding insert lower_bound search_loop probe key_cmp full_with_fences get_remaining_key
    get_key_len cmp read write insert_new current_lowest_offset make_prefixed_meta clear_ref to_byte
    shift_in NodeMeta.meta_count_with_fence NodeMeta.has_fence NodeMeta.increment_value_count
insert-Ends_example =
    insert-Ends one (5 ∷ 6 ∷ 4 ∷ []) (3 ∷ []) OpType.cache 0 one-Ends.valid
      (record { prefixed = omega arith; key_small = omega arith; value_small = omega arith })
      (true, two) refl

lower_bound-linear_lower_bound_example :
    IsPlaceOf one (5 ∷ []) (lower_bound one (5 ∷ []))
    × (linear_lower_bound one (5 ∷ []) ≡ lower_bound one (5 ∷ []))
lower_bound-linear_lower_bound_example = lower_bound-linear_lower_bound one (5 ∷ []) one-Ends.valid

abbrev slot : LeafKvMeta
slot = record {
  offset = 9;
  op_type_key_len = 16387;
  ref_value_len = 32770;
  preview_bytes = 1 ∷ 2 ∷ [];
}

set_value_len_lem_example :
    (value_len (set_value_len slot 5) ≡ 5)
    × (is_referenced (set_value_len slot 5) ≡ is_referenced slot)
    × (op_type (set_value_len slot 5) ≡ op_type slot)
    × (get_key_len (set_value_len slot 5) ≡ get_key_len slot)
set_value_len_lem_example = set_value_len_lem slot 5 (omega arith)
