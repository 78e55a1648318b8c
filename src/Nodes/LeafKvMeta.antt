-- ===== src/Nodes/LeafKvMeta.antt =====
-- src/nodes/leaf_node.rs: `LeafKVMeta`, the slot of a record in a leaf. One 16-bit word has the kind
-- in its two high bits and the length of the key below, another the reference bit above the length
-- of the value. `|` is written with the high part first.
pub mod Fields
use bf_tree.Common.{
  ℕ, ◌+◌, ◌-◌, ◌*◌, ◌/◌, ◌%◌, Bool, List, ◌++◌, if◌then◌else◌, u16, ◌==◌, length, take, drop,
  replicate, bit_or, [],
}
use bf_tree.Common.Bytes.{Key}
use bf_tree.Common.Bits.{test_bit, set_bit, clear_bit}
use bf_tree.Nodes.OpType.{OpType, to_byte}

-- `LeafKVMeta`; `preview_bytes` has two bytes.
pub record LeafKvMeta : Type 0 where
  pub offset : ℕ
  pub op_type_key_len : ℕ
  pub ref_value_len : ℕ
  pub preview_bytes : List ℕ

-- `preview_bytes`: the first two bytes of the key behind the prefix, padded with zeros.
abbrev pub preview : Key → ℕ → List ℕ
preview key prefix_len =
    take 2 (drop prefix_len key) ++ replicate (2 - length (drop prefix_len key)) 0

unfoldable pub clear_ref : LeafKvMeta → LeafKvMeta
clear_ref m = record m { ref_value_len = clear_bit m.ref_value_len 15 }

unfoldable pub make_prefixed_meta : ℕ → ℕ → Key → ℕ → OpType → LeafKvMeta
make_prefixed_meta offset value_len key prefix_len op_type = clear_ref (record {
  offset = offset;
  op_type_key_len = bit_or (to_byte op_type * 16384) (u16 (length key));
  ref_value_len = value_len;
  preview_bytes = preview key prefix_len;
})

unfoldable pub make_infinite_high_fence_key : LeafKvMeta
make_infinite_high_fence_key = record {
  offset = 65535;
  op_type_key_len = 0;
  ref_value_len = 0;
  preview_bytes = replicate 2 0;
}

unfoldable pub make_infinite_low_fence_key : LeafKvMeta
make_infinite_low_fence_key = record {
  offset = 65534;
  op_type_key_len = 0;
  ref_value_len = 0;
  preview_bytes = replicate 2 0;
}

unfoldable pub is_infinite_low_fence_key : LeafKvMeta → Bool
is_infinite_low_fence_key m = m.offset == 65534

unfoldable pub is_infinite_high_fence_key : LeafKvMeta → Bool
is_infinite_high_fence_key m = m.offset == 65535

unfoldable pub value_len : LeafKvMeta → ℕ
value_len m = m.ref_value_len % 32768

unfoldable pub set_value_len : LeafKvMeta → ℕ → LeafKvMeta
set_value_len m value = record m {
  ref_value_len = bit_or (m.ref_value_len / 32768 * 32768) (value % 32768);
}

unfoldable pub get_key_len : LeafKvMeta → ℕ
get_key_len m = m.op_type_key_len % 16384

unfoldable pub set_op_type : LeafKvMeta → OpType → LeafKvMeta
set_op_type m op_type = record m {
  op_type_key_len = bit_or (to_byte op_type * 16384) (get_key_len m);
}

-- `op_type`: two bits of a word of 16, so every case is a kind.
unfoldable pub op_type : LeafKvMeta → OpType
op_type m =
    let b = m.op_type_key_len / 16384 in
    if b == 0
    then OpType.insert
    else if b == 1
    then OpType.delete
    else if b == 2
    then OpType.cache
    else OpType.phantom

unfoldable pub mark_as_ref : LeafKvMeta → LeafKvMeta
mark_as_ref m = record m { ref_value_len = set_bit m.ref_value_len 15 }

unfoldable pub is_referenced : LeafKvMeta → Bool
is_referenced m = test_bit m.ref_value_len 15

abbrev pub mark_as_deleted : LeafKvMeta → LeafKvMeta
mark_as_deleted m = set_op_type m OpType.delete
