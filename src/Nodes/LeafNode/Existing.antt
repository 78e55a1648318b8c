-- ===== src/Nodes/LeafNode/Existing.antt =====
-- `insert` of a key that is there: each of the three changes is a replacement of its record.
use native.Mathlib.Decide.{dec_lt}
use bf_tree.Common.{
  ℕ, ◌+◌, ◌-◌, ◌≤◌, ◌<◌, ◌≡◌, ◌≢◌, ◌∙◌, ◌⊎◌, inl, inr, refl, ap, sym, arith, List, length, u16,
  take, length-drop, min,
}
use bf_tree.Common.Bytes.{Key, write, write_apart, read-write_apart, length-read}
use bf_tree.Nodes.OpType.{OpType}
use bf_tree.Nodes.NodeMeta
use bf_tree.Nodes.LeafKvMeta.{
  LeafKvMeta, get_key_len, value_len, op_type, set_op_type, set_value_len, mark_as_deleted,
}
use bf_tree.Nodes.LeafKvMeta.Fields.{set_op_type_lem, set_value_len_lem}
use bf_tree.Nodes.LeafNode.{
  LeafNode, count, get_remaining_key, post_fix_len, kv_len, new_offset, put_pair,
}
use bf_tree.Nodes.LeafNode.Layout.{rest_at, rest_len, payload_end, first, IsRecord, IsValid}
use bf_tree.Nodes.LeafNode.Lookup.{rest_of}
use bf_tree.Nodes.LeafNode.Payload.{
  HasSizes, post_size, kv_size, put_pair_parts, put_pair_behind, new_offset_lem,
}
use bf_tree.Nodes.LeafNode.Replace.{IsReplacement}

-- The key at `pos` is the key that is inserted; key and value have the sizes that a slot can hold.
pub record IsAt (n : LeafNode) (key : Key) (value : List ℕ) (pos : ℕ) : Type 0 where
  pub start : first n ≤ pos
  pub inside : pos < count n
  pub same : rest_at n pos ≡ rest_of n key
  pub sizes : HasSizes n key value

module _ (n : LeafNode) (key : Key) (value : List ℕ) (op : OpType) (pos : ℕ) (v : IsValid n)
    (at : IsAt n key value pos) where
  abbrev m : LeafKvMeta
  m = n.slots pos

  here : IsRecord n m
  here = v.records pos at.start at.inside

  -- The record has as many bytes of key as the key behind the prefix.
  pub rest_size : rest_len n m ≡ length key - n.prefix_len
  unfolding get_remaining_key
  rest_size =
      sym (length-read n.bytes m.offset (rest_len n m))
      ∙ ap length at.same
      ∙ length-drop n.prefix_len key

  apart_here :
      (i : ℕ)
      → first n ≤ i
      → i < count n
      → i ≢ pos
      → (payload_end n (n.slots i) ≤ m.offset) ⊎ (payload_end n m ≤ (n.slots i).offset)
  apart_here i a b h = elim (dec_lt i pos) [
    | yes l ↦ v.apart i pos a l at.inside
    | no l ↦ elim (v.apart pos i at.start (omega arith) b) [ inl p ↦ inr p | inr p ↦ inl p ]
  ]

  abbrev pub deleted_meta : LeafKvMeta
  deleted_meta = mark_as_deleted m

  pub delete_at-IsReplacement : IsReplacement n pos deleted_meta n.bytes n.meta.remaining_size
  unfolding get_remaining_key set_op_type
  delete_at-IsReplacement =
      let f = set_op_type_lem m OpType.delete in
      record {
        start = at.start;
        inside = at.inside;
        lower = omega arith;
        fits = record {
          prefixed = omega (arith, here.prefixed, f.1);
          above = here.above;
          inside = omega (arith, here.inside, f.1, f.2);
          preview = rw f.1 here.preview;
        };
        same_key = rw f.1 refl;
        apart = λ i a b h. elim (apart_here i a b h) [
          | inl p ↦ inl p
          | inr p ↦ inr (omega (arith, p, f.1, f.2))
        ];
        kept = λ i a p q h c d. refl;
      }

  abbrev pub new_meta : LeafKvMeta
  new_meta = set_op_type (set_value_len m (u16 (length value))) op

  -- The fields of the new slot.
  pub new_meta_lem :
      (get_key_len new_meta ≡ get_key_len m)
      × (value_len new_meta ≡ length value)
      × (op_type new_meta ≡ op)
  new_meta_lem =
      let u : u16 (length value) ≡ length value = omega (arith, at.sizes.value_small) in
      let f = set_op_type_lem (set_value_len m (u16 (length value))) op in
      let g = set_value_len_lem m (length value) at.sizes.value_small in
      (f.1 ∙ rw u g.3, f.2 ∙ rw u g.0, f.0)

  -- The value is written over the old one, which is not shorter.
  pub overwrite-IsReplacement :
      length value ≤ value_len m
      → IsReplacement n pos new_meta
          (write n.bytes (m.offset + post_fix_len n key) value)
          n.meta.remaining_size
  unfolding get_remaining_key set_op_type set_value_len
  overwrite-IsReplacement short =
      let f = new_meta_lem in
      let p = post_size n key value at.sizes in
      let start : m.offset + rest_len n m ≤ m.offset + post_fix_len n key =
        omega (arith, p, rest_size) in
      let same =
        read-write_apart n.bytes m.offset (rest_len n m) (m.offset + post_fix_len n key) value
          (inl start) in
      record {
        start = at.start;
        inside = at.inside;
        lower = omega arith;
        fits = record {
          prefixed = omega (arith, here.prefixed, f.0);
          above = here.above;
          inside = omega (arith, here.inside, f.0, f.1, short);
          preview = rw (f.0, same) here.preview;
        };
        same_key = rw f.0 same;
        apart = λ i a b h. elim (apart_here i a b h) [
          | inl q ↦ inl q
          | inr q ↦ inr (omega (arith, q, f.0, f.1, short))
        ];
        kept = λ i k a b h c d. sym (
            write_apart n.bytes (m.offset + post_fix_len n key) value k (elim (apart_here i a b h) [
              | inl q ↦ inl (omega (arith, q, d))
              | inr q ↦ inr (omega (arith, q, c, p, rest_size, short))
            ]));
      }

  abbrev pub moved_meta : LeafKvMeta
  moved_meta = record new_meta { offset = new_offset n key value }

  pub moved_meta_lem :
      (get_key_len moved_meta ≡ get_key_len m)
      × (value_len moved_meta ≡ length value)
      × (op_type moved_meta ≡ op)
      × (moved_meta.preview_bytes ≡ m.preview_bytes)
  unfolding get_key_len value_len op_type set_op_type set_value_len
  moved_meta_lem = (new_meta_lem.0, new_meta_lem.1, new_meta_lem.2, refl)

  preview_here : take (min 2 (length key - n.prefix_len)) m.preview_bytes ≡ take 2 (rest_of n key)
  preview_here = rw rest_size at (here.preview ∙ ap (take 2) at.same)

  -- The record gets a new payload below the others.
  pub move_payload-IsReplacement :
      kv_len n key value ≤ n.meta.remaining_size
      → IsReplacement n pos moved_meta
          (put_pair n key value (new_offset n key value))
          (n.meta.remaining_size - kv_len n key value)
  unfolding get_remaining_key NodeMeta.meta_count_with_fence
  move_payload-IsReplacement room =
      let f = moved_meta_lem in
      let e = new_offset_lem n key value at.sizes v room in
      let k = kv_size n key value at.sizes in
      let l : get_key_len moved_meta - n.prefix_len ≡ length key - n.prefix_len =
        rw f.0 rest_size in
      let parts = put_pair_parts n key value at.sizes (new_offset n key value) in
      record {
        start = at.start;
        inside = at.inside;
        lower = omega arith;
        fits = record {
          prefixed = omega (arith, here.prefixed, f.0);
          above = omega (arith, e, k, room);
          inside = omega (arith, e, v.room, l, f.1);
          preview = rw (l, f.3, parts.0) preview_here;
        };
        same_key = rw (l, parts.0) (sym at.same);
        apart = λ i a b h. inr (omega (arith, e, l, f.1, (v.records i a b).above));
        kept = λ i a b c h p q.
            put_pair_behind n key value at.sizes (new_offset n key value) a
              (omega (arith, e, (v.records i b c).above, p));
      }
