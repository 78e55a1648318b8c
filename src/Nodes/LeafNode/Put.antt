-- ===== src/Nodes/LeafNode/Put.antt =====
-- `insert` as an operation on the records that reads see.
use bf_tree.Common.{ℕ, ◌+◌, ◌-◌, ◌≤◌, ◌≡◌, ◌≢◌, ◌∙◌, refl, sym, List, length}
use bf_tree.Common.Bytes.{Key, Memory, write, read-write_self}
use bf_tree.Nodes.OpType.{OpType, is_absent}
use bf_tree.Nodes.LeafKvMeta.{LeafKvMeta, value_len, set_op_type, set_value_len}
use bf_tree.Nodes.LeafKvMeta.Fields.{set_op_type_lem}
use bf_tree.Nodes.LeafNode.{
  LeafNode, get_value, kv_len, post_fix_len, new_offset, put_pair, delete_at, overwrite,
  move_payload, read_by_key, LeafReadResult, deleted,
}
use bf_tree.Nodes.LeafNode.Layout.{rest_at, rest_len, IsValid}
use bf_tree.Nodes.LeafNode.Lookup.{rest_of}
use bf_tree.Nodes.LeafNode.Payload.{post_size, put_pair_parts}
use bf_tree.Nodes.LeafNode.Records.{shown, get_value_lem}
use bf_tree.Nodes.LeafNode.Replace.{
  replaced, IsReplacement, replaced-IsValid, read-replaced, read-replaced_other,
}
use bf_tree.Nodes.LeafNode.Existing.{
  IsAt, rest_size, new_meta_lem, moved_meta_lem, deleted_meta, new_meta, moved_meta,
  delete_at-IsReplacement, overwrite-IsReplacement, move_payload-IsReplacement,
}
use bf_tree.Nodes.LeafNode.ReadFresh.{put_result}

-- `n'` is a valid leaf in which a read of `key` returns `result`, and of any other key what it returned
-- in `n`.
pub record Puts (n n' : LeafNode) (key : Key) (result : LeafReadResult) : Type 0 where
  pub valid : IsValid n'
  pub read_key : (read_by_key n' key).0 ≡ result
  pub read_other :
      (other : Key)
      → rest_of n other ≢ rest_of n key
      → (read_by_key n' other).0 ≡ (read_by_key n other).0

Puts-replaced :
    (n : LeafNode) (key : Key) (pos : ℕ) (m : LeafKvMeta) (bytes : Memory) (remaining : ℕ)
    (result : LeafReadResult)
    → IsValid n
    → rest_at n pos ≡ rest_of n key
    → IsReplacement n pos m bytes remaining
    → (IsValid (replaced n pos m bytes remaining)
        → shown (replaced n pos m bytes remaining) m ≡ result)
    → Puts n (replaced n pos m bytes remaining) key result
Puts-replaced n key pos m bytes remaining result v e r t =
    let valid = replaced-IsValid n pos m bytes remaining v r in
    record {
      valid = valid;
      read_key = read-replaced n pos m bytes remaining v r key e ∙ t valid;
      read_other =
          λ other d. read-replaced_other n pos m bytes remaining v r other (λ h. d (sym h ∙ e));
    }

module _ (n : LeafNode) (key : Key) (value : List ℕ) (op : OpType) (pos : ℕ) (v : IsValid n)
    (at : IsAt n key value pos) where
  pub delete_at-Puts : Puts n (delete_at n pos) key deleted
  unfolding delete_at is_absent
  delete_at-Puts =
      let r = delete_at-IsReplacement n key value op pos v at in
      Puts-replaced n key pos (deleted_meta n key value op pos v at) n.bytes n.meta.remaining_size
        deleted v at.same r (λ valid. rw ((set_op_type_lem (n.slots pos) OpType.delete).0) refl)

  pub overwrite-Puts :
      length value ≤ value_len (n.slots pos)
      → Puts n (overwrite n key value op pos) key (put_result op value)
  unfolding overwrite
  overwrite-Puts short =
      let r = overwrite-IsReplacement n key value op pos v at short in
      let m = new_meta n key value op pos v at in
      let bytes = write n.bytes ((n.slots pos).offset + post_fix_len n key) value in
      let n' = replaced n pos m bytes n.meta.remaining_size in
      let f = new_meta_lem n key value op pos v at in
      let l : rest_len n' m ≡ post_fix_len n key =
        rw f.0 (rest_size n key value op pos v at ∙ sym (post_size n key value at.sizes)) in
      Puts-replaced n key pos m bytes n.meta.remaining_size (put_result op value) v at.same r
        (λ valid.
          let e : get_value n' m ≡ value =
            get_value_lem n' m valid r.fits
            ∙ rw (l, f.1)
                (unfold set_op_type set_value_len in
                  read-write_self n.bytes ((n.slots pos).offset + post_fix_len n key) value) in
          rw (f.2, e) refl)

  pub move_payload-Puts :
      kv_len n key value ≤ n.meta.remaining_size
      → Puts n (move_payload n key value op pos) key (put_result op value)
  unfolding move_payload
  move_payload-Puts room =
      let r = move_payload-IsReplacement n key value op pos v at room in
      let m = moved_meta n key value op pos v at in
      let bytes = put_pair n key value (new_offset n key value) in
      let n' = replaced n pos m bytes (n.meta.remaining_size - kv_len n key value) in
      let f = moved_meta_lem n key value op pos v at in
      let l : rest_len n' m ≡ length key - n.prefix_len =
        rw f.0 (rest_size n key value op pos v at) in
      Puts-replaced n key pos m bytes (n.meta.remaining_size - kv_len n key value)
        (put_result op value) v at.same r
        (λ valid.
          let e : get_value n' m ≡ value =
            get_value_lem n' m valid r.fits
            ∙ rw (l, f.1) (put_pair_parts n key value at.sizes (new_offset n key value)).1 in
          rw (f.2, e) refl)
