-- ===== src/Nodes/LeafNode/ReadFresh.antt =====
-- What reads return after `insert` has made a new slot.
use native.Mathlib.Decide.{dec_lt}
use bf_tree.Common.{
  ℕ, suc, ◌+◌, ◌-◌, ◌≤◌, ◌<◌, ◌≡◌, ◌≢◌, ◌∙◌, inl, inr, refl, ap, sym, arith, List, length,
  if◌then◌else◌,
}
use bf_tree.Common.Bytes.{Key, read}
use bf_tree.Common.Shift.{shift_in, shift_in_below, shift_in_self, shift_in-suc}
use bf_tree.Nodes.OpType.{OpType, is_absent}
use bf_tree.Nodes.LeafKvMeta.{LeafKvMeta, value_len, op_type}
use bf_tree.Nodes.LeafNode.{
  LeafNode, count, get_remaining_key, get_value, kv_len, insert_new, read_by_key, LeafReadResult,
  hit, deleted,
}
use bf_tree.Nodes.LeafNode.Layout.{rest_at, first, IsValid}
use bf_tree.Nodes.LeafNode.Lookup.{rest_of, IsPlaceOf}
use bf_tree.Nodes.LeafNode.Payload.{HasSizes}
use bf_tree.Nodes.LeafNode.Records.{
  shown, IsMissing, get_value_lem, read_at, read_missing, record_cases,
}
use bf_tree.Nodes.LeafNode.Fresh.{
  slot, slot_lem, made_slots, made-count, old_record, new_parts, new_rest_len, new-IsRecord,
  insert_new-IsValid,
}

-- What a read returns of a record that was put as `op` with `value`.
abbrev pub put_result : OpType → List ℕ → LeafReadResult
put_result op value = if is_absent op then deleted else hit value

module _ (n : LeafNode) (key : Key) (value : List ℕ) (op : OpType) (pos : ℕ) (v : IsValid n)
    (s : HasSizes n key value) (place : IsPlaceOf n key pos) (gone : IsMissing n key)
    (room : kv_len n key value + 8 ≤ n.meta.remaining_size) where
  abbrev n' : LeafNode
  n' = insert_new n key value op pos

  abbrev m' : LeafKvMeta
  m' = slot n key value op pos v s place gone room

  valid : IsValid n'
  valid = insert_new-IsValid n key value op pos v s place gone room

  slots' : (i : ℕ) → n'.slots i ≡ shift_in n.slots pos m' i
  slots' = made_slots n key value op pos v s place gone room

  slot_here : n'.slots pos ≡ m'
  slot_here = slots' pos ∙ shift_in_self n.slots pos m'

  slot_below : (i : ℕ) → i < pos → n'.slots i ≡ n.slots i
  slot_below i h = slots' i ∙ shift_in_below n.slots pos m' i h

  slot_above : (i : ℕ) → pos ≤ i → n'.slots (suc i) ≡ n.slots i
  slot_above i h = slots' (suc i) ∙ shift_in-suc n.slots pos m' i h

  counts : (count n' ≡ count n + 1) × (first n' ≡ first n)
  counts = let c = made-count n key value op pos v s place gone room in (c.0, c.1)

  fields : (op_type m' ≡ op) × (value_len m' ≡ length value)
  fields = let f = slot_lem n key value op pos v s place gone room in (f.1, f.2)

  parts :
      (get_remaining_key n' m' ≡ rest_of n key)
      × (read n'.bytes (m'.offset + (length key - n.prefix_len)) (length value) ≡ value)
  parts = new_parts n key value op pos v s place gone room

  -- The key that is inserted is read as what was put.
  pub read-insert_new : (read_by_key n' key).0 ≡ put_result op value
  read-insert_new =
      let r = new-IsRecord n key value op pos v s place gone room in
      let l = new_rest_len n key value op pos v s place gone room in
      let at_key : rest_at n' pos ≡ rest_of n' key =
        ap (get_remaining_key n') slot_here ∙ parts.0 ∙ (unfold insert_new in refl) in
      let value_here : get_value n' m' ≡ value =
        get_value_lem n' m' valid r ∙ rw (l, fields.1) parts.1 in
      read_at n' key pos valid (rw counts.1 place.start) (rw counts.0 (omega (arith, place.bound)))
        at_key
      ∙ ap (shown n') slot_here
      ∙ rw (fields.0, value_here) refl

  -- Any other key is read as before.
  pub read-insert_new_other :
      (other : Key)
      → rest_of n other ≢ rest_of n key
      → (read_by_key n' other).0 ≡ (read_by_key n other).0
  read-insert_new_other other d = elim (record_cases n other v) [
    | inl (i, a, b, e) ↦
        let old = old_record n key value op pos v s place gone room (n.slots i) (v.records i a b) in
        let before = read_at n other i v a b e in
        elim (dec_lt i pos) [
          | yes l ↦
              let at_key : rest_at n' i ≡ rest_of n' other =
                ap (get_remaining_key n') (slot_below i l) ∙ sym old.0 ∙ (unfold insert_new in e) in
              read_at n' other i valid (rw counts.1 a) (rw counts.0 (omega arith)) at_key
              ∙ ap (shown n') (slot_below i l)
              ∙ sym old.1
              ∙ sym before
          | no l ↦
              let at_key : rest_at n' (suc i) ≡ rest_of n' other =
                ap (get_remaining_key n') (slot_above i (omega arith))
                ∙ sym old.0
                ∙ (unfold insert_new in e) in
              read_at n' other (suc i) valid (rw counts.1 (omega arith)) (rw counts.0 (omega arith))
                at_key
              ∙ ap (shown n') (slot_above i (omega arith))
              ∙ sym old.1
              ∙ sym before
        ]
    | inr lost ↦
        read_missing n' other valid (still_lost other d lost) ∙ sym (read_missing n other v lost)
  ]
    where
      still_lost :
          (other : Key) → rest_of n other ≢ rest_of n key → IsMissing n other → IsMissing n' other
      still_lost other d lost i a b e = elim (dec_lt i pos) [
        | yes l ↦
            let old =
              old_record n key value op pos v s place gone room (n.slots i)
                (v.records i (rw counts.1 at a) (omega (arith, place.bound))) in
            lost i (rw counts.1 at a) (omega (arith, place.bound)) (
              old.0
              ∙ sym (ap (get_remaining_key n') (slot_below i l))
              ∙ e
              ∙ (unfold insert_new in refl))
        | no l ↦ elim (dec_lt pos i) [
          | yes k ↦
              let j : i ≡ suc (i - 1) = omega arith in
              let f : first n ≤ i - 1 = omega (arith, place.start) in
              let g : i - 1 < count n = omega (arith, rw counts.0 at b) in
              let old =
                old_record n key value op pos v s place gone room (n.slots (i - 1))
                  (v.records (i - 1) f g) in
              lost (i - 1) f g (
                old.0
                ∙ sym (ap (get_remaining_key n') (slot_above (i - 1) (omega arith)))
                ∙ (rw j at e)
                ∙ (unfold insert_new in refl))
          | no k ↦
              let j : i ≡ pos = omega arith in
              let at_pos : rest_at n' pos ≡ rest_of n' other = rw j at e in
              let same : rest_of n' other ≡ rest_of n key =
                sym at_pos ∙ ap (get_remaining_key n') slot_here ∙ parts.0 in
              d (unfold insert_new in same)
        ]
      ]
