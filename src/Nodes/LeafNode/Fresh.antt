-- ===== src/Nodes/LeafNode/Fresh.antt =====
-- `insert` of a key that is not there: a new slot at its place.
use native.Mathlib.Decide.{dec_lt}
use bf_tree.Common.{
  ℕ, suc, ◌+◌, ◌-◌, ◌≤◌, ◌<◌, ◌≡◌, ◌∙◌, ◌⊎◌, inl, inr, refl, ap, sym, arith, List, [], ◌∷◌, length,
  u16, take, drop, length-drop, min, ◌++◌, replicate, Ordering, if◌then◌else◌, Ordering-cases,
}
use bf_tree.Common.Bytes.{Key, cmp, cmp-eq, cmp-gt_swap, read}
use bf_tree.Common.Shift.{shift_in, shift_in_from, shift_in_pairs}
use bf_tree.Nodes.OpType.{OpType}
use bf_tree.Nodes.NodeMeta
use bf_tree.Nodes.NodeMeta.Flags.{increment_value_count_lem}
use bf_tree.Nodes.LeafKvMeta.{
  LeafKvMeta, get_key_len, value_len, op_type, make_prefixed_meta, clear_ref, preview,
}
use bf_tree.Nodes.LeafKvMeta.Fields.{make_prefixed_meta_lem}
use bf_tree.Nodes.LeafNode.{LeafNode, count, get_remaining_key, kv_len, new_offset, insert_new}
use bf_tree.Nodes.LeafNode.Layout.{rest_at, rest_len, payload_end, first, low, IsRecord, IsValid}
use bf_tree.Nodes.LeafNode.Lookup.{rest_of, IsPlaceOf}
use bf_tree.Nodes.LeafNode.Payload.{
  HasSizes, kv_size, put_pair_parts, put_pair_behind, new_offset_lem,
}
use bf_tree.Nodes.LeafNode.Records.{shown, IsMissing, same_record}

-- The two bytes of a slot are the first of the key behind the prefix.
preview_lem :
    (key : Key) (p : ℕ) → take (min 2 (length (drop p key))) (preview key p) ≡ take 2 (drop p key)
preview_lem key p = go (drop p key)
  where
    go :
        (xs : Key) → take (min 2 (length xs)) (take 2 xs ++ replicate (2 - length xs) 0) ≡ take 2 xs
    go [] = refl
    go (a ∷ []) = refl
    go (a ∷ b ∷ xs) = let e : min 2 (suc (suc (length xs))) ≡ 2 = omega arith in rw e refl

module _ (n : LeafNode) (key : Key) (value : List ℕ) (op : OpType) (pos : ℕ) (v : IsValid n)
    (s : HasSizes n key value) (place : IsPlaceOf n key pos) (gone : IsMissing n key)
    (room : kv_len n key value + 8 ≤ n.meta.remaining_size) where
  abbrev pub made : LeafNode
  made = insert_new n key value op pos

  abbrev pub slot : LeafKvMeta
  slot = make_prefixed_meta (new_offset n key value) (u16 (length value)) key n.prefix_len op

  pub slot_lem :
      (get_key_len slot ≡ length key) × (op_type slot ≡ op) × (value_len slot ≡ length value)
  slot_lem =
      let u : u16 (length value) ≡ length value = omega (arith, s.value_small) in
      let f =
        make_prefixed_meta_lem (new_offset n key value) (u16 (length value)) key n.prefix_len op
          s.key_small (omega (arith, s.value_small)) in
      (f.0, f.1, f.2 ∙ u)

  slot_fields :
      (slot.offset ≡ new_offset n key value) × (slot.preview_bytes ≡ preview key n.prefix_len)
  unfolding make_prefixed_meta clear_ref
  slot_fields = (refl, refl)

  slot_end : slot.offset + (length key - n.prefix_len) + length value ≡ low n
  slot_end = rw slot_fields.0 (new_offset_lem n key value s v (omega arith))

  pub made_slots : (i : ℕ) → made.slots i ≡ shift_in n.slots pos slot i
  unfolding insert_new
  made_slots i = refl

  -- One more slot, and the free space smaller by the slot and the payload.
  pub made-count :
      (count made ≡ count n + 1)
      × (first made ≡ first n)
      × (made.meta.encoded < 65536)
      × (low made + kv_len n key value ≡ low n)
  unfolding insert_new NodeMeta.meta_count_with_fence NodeMeta.has_fence
  made-count =
      let k = kv_size n key value s in
      let small : count n < 4095 = omega (arith, v.room, v.size, room) in
      let f =
        increment_value_count_lem
          (record n.meta { remaining_size = n.meta.remaining_size - u16 (kv_len n key value + 8) })
          v.word small in
      (
        f.0,
        ap (λ b. if b then 2 else 0) f.1.0,
        f.3,
        omega (arith, f.0, k, room, s.key_small, s.value_small, f.2),
      )

  -- The old payloads lie above the new one.
  pub old_record :
      (m : LeafKvMeta)
      → IsRecord n m
      → (get_remaining_key n m ≡ get_remaining_key made m) × (shown n m ≡ shown made m)
  old_record m r = same_record n made m (unfold insert_new in refl) v r (λ a p q.
      unfold insert_new in
      put_pair_behind n key value s (new_offset n key value) a
        (omega (arith, new_offset_lem n key value s v (omega arith), r.above, p)))

  pub new_rest_len : rest_len made slot ≡ length key - n.prefix_len
  unfolding insert_new
  new_rest_len = rw slot_lem.0 refl

  pub new_parts :
      (get_remaining_key made slot ≡ rest_of n key)
      × (read made.bytes (slot.offset + (length key - n.prefix_len)) (length value) ≡ value)
  unfolding get_remaining_key
  new_parts =
      let parts = put_pair_parts n key value s (new_offset n key value) in
      rw (new_rest_len, slot_fields.0) (unfold insert_new in parts)

  pub new-IsRecord : IsRecord made slot
  new-IsRecord = record {
    prefixed = rw slot_lem.0 (unfold insert_new in s.prefixed);
    above = omega (arith, slot_end, made-count.3, kv_size n key value s);
    inside =
        rw (new_rest_len, slot_lem.2, slot_end)
          (unfold insert_new NodeMeta.increment_value_count in v.room);
    preview =
        rw (new_rest_len, new_parts.0, slot_fields.1)
          (ap (λ k. take (min 2 k) (preview key n.prefix_len)) (sym (length-drop n.prefix_len key))
            ∙ preview_lem key n.prefix_len);
  }

  IsRecord-made : (m : LeafKvMeta) → IsRecord n m → IsRecord made m
  IsRecord-made m r = record {
    prefixed = unfold insert_new in r.prefixed;
    above = omega (arith, r.above, made-count.3);
    inside = unfold insert_new NodeMeta.increment_value_count in r.inside;
    preview = unfold insert_new in (r.preview ∙ ap (take 2) (old_record m r).0);
  }

  less_before :
      (i : ℕ)
      → first n ≤ i
      → i < pos
      → i < count n
      → cmp (get_remaining_key made (n.slots i)) (get_remaining_key made slot) ≡ Ordering.lt
  less_before i a b c =
      rw (← (old_record (n.slots i) (v.records i a c)).0, new_parts.0) (place.smaller i a b)

  less_after :
      (i : ℕ)
      → pos ≤ i
      → i < count n
      → cmp (get_remaining_key made slot) (get_remaining_key made (n.slots i)) ≡ Ordering.lt
  less_after i b c =
      rw (← (old_record (n.slots i) (v.records i (omega (arith, place.start)) c)).0, new_parts.0)
        (cmp-gt_swap (rest_at n i) (rest_of n key) (elim (dec_lt pos i) [
          | yes l ↦ place.greater i l c
          | no l ↦
              let e : i ≡ pos = omega arith in
              elim (Ordering-cases (cmp (rest_at n i) (rest_of n key))) [
                | inl less ↦ absurd (place.here (omega arith) (rw e at less))
                | inr (inl same) ↦ absurd (
                    gone i (omega (arith, place.start)) c
                      (cmp-eq (rest_at n i) (rest_of n key) same))
                | inr (inr more) ↦ more
              ]
        ]))

  end_apart : (i : ℕ) → first n ≤ i → i < count n → payload_end made slot ≤ (n.slots i).offset
  end_apart i a b = omega (arith, new_rest_len, slot_lem.2, slot_end, (v.records i a b).above)

  made_records : (i : ℕ) → first n ≤ i → i < count n + 1 → IsRecord made (made.slots i)
  made_records i a b = rw (made_slots i) (
      shift_in_from n.slots pos slot (IsRecord made) (first n) (count n)
        (λ j c d. IsRecord-made (n.slots j) (v.records j c d)) new-IsRecord place.start place.bound
        i a b)

  made_apart :
      (i j : ℕ)
      → first n ≤ i
      → i < j
      → j < count n + 1
      → (payload_end made (made.slots i) ≤ (made.slots j).offset)
        ⊎ (payload_end made (made.slots j) ≤ (made.slots i).offset)
  made_apart i j a b c =
      rw (made_slots i, made_slots j)
        (shift_in_pairs n.slots pos slot
          (λ m1 m2. (payload_end made m1 ≤ m2.offset) ⊎ (payload_end made m2 ≤ m1.offset)) (first n)
          (count n) (λ k l p q r. unfold insert_new in v.apart k l p q r)
          (λ k p q r. inr (end_apart k p r))
          (λ k p q. inl (end_apart k (omega (arith, place.start)) q)) place.start place.bound i j a
          b c)

  made_sorted :
      (i j : ℕ)
      → first n ≤ i
      → i < j
      → j < count n + 1
      → cmp (rest_at made i) (rest_at made j) ≡ Ordering.lt
  made_sorted i j a b c =
      rw (made_slots i, made_slots j)
        (shift_in_pairs n.slots pos slot
          (λ m1 m2. cmp (get_remaining_key made m1) (get_remaining_key made m2) ≡ Ordering.lt)
          (first n) (count n)
          (λ k l p q r.
            rw
              (
                ← (old_record (n.slots k) (v.records k p (omega arith))).0,
                ← (old_record (n.slots l) (v.records l (omega arith) r)).0,
              )
              (v.sorted k l p q r))
          less_before less_after place.start place.bound i j a b c)

  pub insert_new-IsValid : IsValid made
  insert_new-IsValid = record {
    word = made-count.2;
    size = unfold insert_new NodeMeta.increment_value_count in v.size;
    fences = rw (made-count.0, made-count.1) (omega (arith, v.fences));
    room = unfold insert_new NodeMeta.increment_value_count in omega (arith, v.room, made-count.3);
    records = λ i a b. made_records i (rw made-count.1 at a) (rw made-count.0 at b);
    apart = λ i j a b c. made_apart i j (rw made-count.1 at a) b (rw made-count.0 at c);
    sorted = λ i j a b c. made_sorted i j (rw made-count.1 at a) b (rw made-count.0 at c);
  }
