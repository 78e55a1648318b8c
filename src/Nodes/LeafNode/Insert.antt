-- ===== src/Nodes/LeafNode/Insert.antt =====
-- All branches of `insert` together.
use bf_tree.Common.{
  ℕ, ◌+◌, ◌≤◌, ◌<◌, ◌≡◌, ◌∙◌, inl, inr, refl, sym, subst, arith, List, length, if◌then◌else◌, u16,
  Bool, true, false, ltb, leb, Bool-cases, some, some-injective, none-ne-some, ◌&&◌,
}
use bf_tree.Common.Bytes.{Key}
use bf_tree.Nodes.OpType.{OpType, is_absent}
use bf_tree.Nodes.NodeMeta
use bf_tree.Nodes.LeafKvMeta.{value_len, op_type}
use bf_tree.Nodes.LeafNode.{
  LeafNode, count, kv_len, lower_bound, has_key_at, is_delete, is_cache_type, is_base_page,
  full_with_fences, insert, read_by_key, LeafReadResult, not_found, deleted, hit,
}
use bf_tree.Nodes.LeafNode.Layout.{rest_at, first, IsValid}
use bf_tree.Nodes.LeafNode.Lookup.{rest_of, lower_bound_place}
use bf_tree.Nodes.LeafNode.Payload.{HasSizes, kv_size}
use bf_tree.Nodes.LeafNode.Records.{
  IsMissing, place_of_record, has_key_at-true, has_key_at_only, read_at, read_missing, record_cases,
}
use bf_tree.Nodes.LeafNode.Existing.{IsAt}
use bf_tree.Nodes.LeafNode.Fresh.{insert_new-IsValid}
use bf_tree.Nodes.LeafNode.ReadFresh.{put_result, read-insert_new, read-insert_new_other}
use bf_tree.Nodes.LeafNode.Put.{Puts, delete_at-Puts, overwrite-Puts, move_payload-Puts}

-- What a delete makes of what a base page shows: a record that is not there is not put.
abbrev pub erased : LeafReadResult → LeafReadResult
erased not_found = not_found
erased deleted = deleted
erased (hit value) = deleted

-- What a read of the key returns after `insert`.
abbrev pub outcome : LeafNode → Key → List ℕ → OpType → LeafReadResult
outcome n key value op =
    if is_delete op && is_base_page n then erased (read_by_key n key).0 else put_result op value

-- How `insert` ends: with the record put, or with the node as it was and too little space.
abbrev pub Ends : LeafNode → Key → List ℕ → OpType → Bool × LeafNode → Type 0
Ends n key value op (true, n') = Puts n n' key (outcome n key value op)
Ends n key value op (false, n') =
    (n' ≡ n) × (NodeMeta.has_fence n.meta ≡ false → n.meta.remaining_size < kv_len n key value + 8)

-- A slot shows a deleted record or a value.
erased_shown :
    (n : LeafNode) (key : Key) (i : ℕ)
    → IsValid n
    → first n ≤ i
    → i < count n
    → rest_at n i ≡ rest_of n key
    → erased (read_by_key n key).0 ≡ deleted
erased_shown n key i v a b e = elim (Bool-cases (is_absent (op_type (n.slots i)))) [
  | inl absent ↦ rw (read_at n key i v a b e, absent) refl
  | inr there ↦ rw (read_at n key i v a b e, there) refl
]

put_delete : (op : OpType) (value : List ℕ) → is_delete op ≡ true → put_result op value ≡ deleted
unfolding is_absent
put_delete OpType.delete value h = refl
put_delete OpType.insert value h = cc
put_delete OpType.cache value h = cc
put_delete OpType.phantom value h = cc

module _ (n : LeafNode) (key : Key) (value : List ℕ) (op : OpType) (max_fence_len : ℕ)
    (v : IsValid n) (s : HasSizes n key value) where
  abbrev pos : ℕ
  pos = lower_bound n key

  -- The branches for a key that is there, by what the code tests.
  existing :
      IsAt n key value pos
      → (r : Bool × LeafNode) → insert n key value op max_fence_len ≡ some r
      → Ends n key value op r
  unfolding insert
  existing at r e =
      let t = has_key_at-true n key pos at.inside at.same in
      elim (Bool-cases (is_delete op)) [
        | inl del ↦
            let made = delete_at-Puts n key value op pos v at in
            let result : outcome n key value op ≡ deleted = deleted_outcome del in
            subst (Ends n key value op) (some-injective _ _ (rw (t, del) at e)) (rw result made)
        | inr other ↦
            let result : outcome n key value op ≡ put_result op value = rw other refl in
            elim (Bool-cases (leb (u16 (length value)) (value_len (n.slots pos)))) [
              | inl short ↦
                  let le : length value ≤ value_len (n.slots pos) = ground (arith, s.value_small) in
                  subst (Ends n key value op) (some-injective _ _ (rw (t, other, short) at e))
                    (rw result (overwrite-Puts n key value op pos v at le))
              | inr long ↦ elim (Bool-cases (ltb n.meta.remaining_size (kv_len n key value))) [
                | inl full ↦
                    subst (Ends n key value op)
                      (some-injective _ _ (rw (t, other, long, full) at e))
                      (refl, λ h. ground arith)
                | inr room ↦ elim (Bool-cases (is_cache_type op)) [
                  | inl cache ↦ none-ne-some (rw (t, other, long, room, cache) at e)
                  | inr clean ↦
                      let le : kv_len n key value ≤ n.meta.remaining_size = ground arith in
                      subst (Ends n key value op)
                        (some-injective _ _ (rw (t, other, long, room, clean) at e))
                        (rw result (move_payload-Puts n key value op pos v at le))
                ]
              ]
            ]
      ]
    where
      deleted_outcome : is_delete op ≡ true → outcome n key value op ≡ deleted
      deleted_outcome del = elim (Bool-cases (is_base_page n)) [
        | inl base ↦ rw (del, base) (erased_shown n key pos v at.start at.inside at.same)
        | inr mini ↦ rw (del, mini) (put_delete op value del)
      ]

  abbrev size : ℕ
  size = kv_len n key value

  -- The test for room of a new record: without fences it is only that.
  room_test :
      (full_with_fences n (u16 (size + 8)) max_fence_len ≡ false → size + 8 ≤ n.meta.remaining_size)
      × (full_with_fences n (u16 (size + 8)) max_fence_len ≡ true
          → NodeMeta.has_fence n.meta ≡ false
          → n.meta.remaining_size < size + 8)
  unfolding full_with_fences
  room_test =
      let k = kv_size n key value s in
      let small : u16 (size + 8) ≡ size + 8 = omega (arith, k, s.key_small, s.value_small) in
      rw small (λ h. ground arith, λ h f. ground arith)

  -- The branches for a key that is not there.
  absent :
      IsMissing n key
      → (r : Bool × LeafNode) → insert n key value op max_fence_len ≡ some r
      → Ends n key value op r
  unfolding insert
  absent gone r e =
      let t = not_there in
      elim (Bool-cases (is_delete op && is_base_page n)) [
        | inl skip ↦
            let lost = read_missing n key v gone in
            subst (Ends n key value op) (some-injective _ _ (rw (t, skip) at e)) (record {
              valid = v;
              read_key = lost ∙ sym (rw (skip, lost) refl);
              read_other = λ other d. refl;
            })
        | inr put ↦ elim (Bool-cases (full_with_fences n (u16 (size + 8)) max_fence_len)) [
          | inl full ↦
              subst (Ends n key value op) (some-injective _ _ (rw (t, put, full) at e))
                (refl, room_test.1 full)
          | inr free ↦
              let room = room_test.0 free in
              let place = lower_bound_place n key v in
              subst (Ends n key value op) (some-injective _ _ (rw (t, put, free) at e)) (record {
                valid = insert_new-IsValid n key value op pos v s place gone room;
                read_key =
                    read-insert_new n key value op pos v s place gone room ∙ sym (rw put refl);
                read_other = read-insert_new_other n key value op pos v s place gone room;
              })
        ]
      ]
    where
      not_there : has_key_at n key pos ≡ false
      not_there = elim (Bool-cases (has_key_at n key pos)) [
        | inr no_key ↦ no_key
        | inl there ↦
            let both = has_key_at_only n key pos there in
            absurd (gone pos (lower_bound_place n key v).start both.0 both.1)
      ]

  -- `insert` of a key that is not shorter than the prefix into a valid leaf, with sizes that a slot
  -- can hold. If it returns true, the leaf is valid, a read of the key returns what was put (a deleted
  -- record for the kinds that are absent, else the value; for a delete in a base page of a key that is
  -- not there still nothing), and a read of any other key returns what it returned before. If it
  -- returns false the leaf is as it was, and without fences the free space was too small for the record.
  pub insert-Ends :
      (r : Bool × LeafNode) → insert n key value op max_fence_len ≡ some r → Ends n key value op r
  insert-Ends r e = elim (record_cases n key v) [
    | inl (i, a, b, same) ↦
        let p = place_of_record n key i v a b same in
        existing (record { start = rw p a; inside = rw p b; same = rw p same; sizes = s }) r e
    | inr gone ↦ absent gone r e
  ]
