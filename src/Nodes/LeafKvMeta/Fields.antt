-- ===== src/Nodes/LeafKvMeta/Fields.antt =====
-- The fields packed in the words of a slot do not disturb one another.
use bf_tree.Common.{ℕ, ◌*◌, ◌/◌, ◌+◌, ◌%◌, ◌<◌, ◌≡◌, refl, arith, length, true, false, u16}
use bf_tree.Common.Bytes.{Key}
use bf_tree.Common.Bits.{or_disjoint_14, or_disjoint_15}
use bf_tree.Nodes.OpType.{OpType, to_byte}
use bf_tree.Nodes.LeafKvMeta.{
  LeafKvMeta, make_prefixed_meta, clear_ref, value_len, set_value_len, get_key_len, set_op_type,
  op_type, mark_as_ref, is_referenced,
}

op_type_lem :
    (m : LeafKvMeta) (op : OpType) (k : ℕ)
    → k < 16384
    → m.op_type_key_len ≡ to_byte op * 16384 + k
    → (op_type m ≡ op) × (get_key_len m ≡ k)
unfolding op_type get_key_len to_byte
op_type_lem m OpType.insert k h e = ground arith
op_type_lem m OpType.delete k h e = ground arith
op_type_lem m OpType.cache k h e = ground arith
op_type_lem m OpType.phantom k h e = ground arith

-- The kind that is set is read back; the length of the key, and all that is in other words, stays.
pub set_op_type_lem :
    (m : LeafKvMeta) (op : OpType)
    → (op_type (set_op_type m op) ≡ op)
      × (get_key_len (set_op_type m op) ≡ get_key_len m)
      × (value_len (set_op_type m op) ≡ value_len m)
      × (is_referenced (set_op_type m op) ≡ is_referenced m)
unfolding set_op_type
set_op_type_lem m op =
    let l : get_key_len m < 16384 = unfold get_key_len in omega arith in
    let both =
      op_type_lem (set_op_type m op) op (get_key_len m) l
        (unfold set_op_type in or_disjoint_14 (to_byte op) (get_key_len m) l) in
    (both.0, both.1, unfold value_len in refl, unfold is_referenced in refl)

-- The length of the value that is set is read back; the reference bit and the other words stay.
pub set_value_len_lem :
    (m : LeafKvMeta) (v : ℕ)
    → v < 32768
    → (value_len (set_value_len m v) ≡ v)
      × (is_referenced (set_value_len m v) ≡ is_referenced m)
      × (op_type (set_value_len m v) ≡ op_type m)
      × (get_key_len (set_value_len m v) ≡ get_key_len m)
unfolding set_value_len value_len is_referenced op_type get_key_len
set_value_len_lem m v h =
    let e = or_disjoint_15 (m.ref_value_len / 32768) (v % 32768) (omega arith) in
    rw e (omega arith, ground arith, refl, refl)

-- A slot that is made has the length of the key, the kind and the length of the value it is given,
-- and is not referenced.
pub make_prefixed_meta_lem :
    (offset v : ℕ) (key : Key) (p : ℕ) (op : OpType)
    → length key < 16384
    → v < 32768
    → let m = make_prefixed_meta offset v key p op in
      (get_key_len m ≡ length key)
      × (op_type m ≡ op)
      × (value_len m ≡ v)
      × (is_referenced m ≡ false)
unfolding make_prefixed_meta
make_prefixed_meta_lem offset v key p op k h =
    let u : u16 (length key) ≡ length key = omega arith in
    let word = or_disjoint_14 (to_byte op) (length key) k in
    let both =
      op_type_lem (make_prefixed_meta offset v key p op) op (length key) k
        (unfold make_prefixed_meta clear_ref in rw u word) in
    (
      both.1,
      both.0,
      unfold value_len clear_ref in ground arith,
      unfold is_referenced clear_ref in ground arith,
    )

-- Marking a slot as referenced, and clearing the mark, changes nothing else.
pub mark_as_ref_lem :
    (m : LeafKvMeta)
    → m.ref_value_len < 65536
    → (is_referenced (mark_as_ref m) ≡ true)
      × (value_len (mark_as_ref m) ≡ value_len m)
      × (is_referenced (clear_ref m) ≡ false)
      × (value_len (clear_ref m) ≡ value_len m)
unfolding mark_as_ref clear_ref is_referenced value_len
mark_as_ref_lem m w = ground arith
