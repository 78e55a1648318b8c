-- ===== src/Nodes/LeafNode/Replace.antt =====
-- A leaf in which the record at one position is replaced, with the same key: the three branches of
-- `insert` for a key that is there.
use native.Mathlib.Decide.{ℕ_discrete}
use bf_tree.Common.{ℕ, ◌≤◌, ◌<◌, ◌≡◌, ◌≢◌, ◌∙◌, ◌⊎◌, inl, inr, refl, ap, sym, arith, take}
use bf_tree.Common.Bytes.{Key, Memory}
use bf_tree.Common.Shift.{put_at, put_at_self, put_at_other}
use bf_tree.Nodes.NodeMeta
use bf_tree.Nodes.LeafKvMeta.{LeafKvMeta}
use bf_tree.Nodes.LeafNode.{LeafNode, count, get_remaining_key, read_by_key}
use bf_tree.Nodes.LeafNode.Layout.{rest_at, payload_end, first, IsRecord, IsValid}
use bf_tree.Nodes.LeafNode.Lookup.{rest_of}
use bf_tree.Nodes.LeafNode.Records.{shown, read_at, read_missing, record_cases, same_record}

-- `n` with the slot at `pos`, the bytes and the size of the free space replaced.
abbrev pub replaced : LeafNode → ℕ → LeafKvMeta → Memory → ℕ → LeafNode
replaced n pos m bytes remaining = record n {
  slots = put_at n.slots pos m;
  bytes = bytes;
  meta = record n.meta { remaining_size = remaining };
}

-- The new record has the key of the old one and a place apart from the other records, whose payloads
-- are as they were.
pub record IsReplacement (n : LeafNode) (pos : ℕ) (m : LeafKvMeta) (bytes : Memory) (remaining : ℕ)
    : Type 0 where
  pub start : first n ≤ pos
  pub inside : pos < count n
  pub lower : remaining ≤ n.meta.remaining_size
  pub fits : IsRecord (replaced n pos m bytes remaining) m
  pub same_key : get_remaining_key (replaced n pos m bytes remaining) m ≡ rest_at n pos
  pub apart :
      (i : ℕ)
      → first n ≤ i
      → i < count n
      → i ≢ pos
      → (payload_end n (n.slots i) ≤ m.offset) ⊎ (payload_end n m ≤ (n.slots i).offset)
  pub kept :
      (i a : ℕ)
      → first n ≤ i
      → i < count n
      → i ≢ pos
      → (n.slots i).offset ≤ a
      → a < payload_end n (n.slots i)
      → n.bytes a ≡ bytes a

module _ (n : LeafNode) (pos : ℕ) (m : LeafKvMeta) (bytes : Memory) (remaining : ℕ) (v : IsValid n)
    (r : IsReplacement n pos m bytes remaining) where
  abbrev after : LeafNode
  after = replaced n pos m bytes remaining

  slot_here : after.slots pos ≡ m
  slot_here = put_at_self n.slots pos m

  slot_other : (i : ℕ) → i ≢ pos → after.slots i ≡ n.slots i
  slot_other i h = put_at_other n.slots pos m i h

  record_other :
      (i : ℕ)
      → first n ≤ i
      → i < count n
      → i ≢ pos
      → (get_remaining_key n (n.slots i) ≡ get_remaining_key after (n.slots i))
        × (shown n (n.slots i) ≡ shown after (n.slots i))
  record_other i a b h =
      same_record n after (n.slots i) refl v (v.records i a b) (λ k p q. r.kept i k a b h p q)

  -- All keys are the same as before.
  key_same : (i : ℕ) → first n ≤ i → i < count n → rest_at after i ≡ rest_at n i
  key_same i a b = elim (ℕ_discrete i pos) [
    | yes e ↦ rw (e, slot_here) r.same_key
    | no h ↦ rw (slot_other i h) (sym (record_other i a b h).0)
  ]

  IsRecord-after : (i : ℕ) → first n ≤ i → i < count n → IsRecord after (after.slots i)
  unfolding NodeMeta.has_fence NodeMeta.meta_count_with_fence
  IsRecord-after i a b = elim (ℕ_discrete i pos) [
    | yes e ↦ rw (e, slot_here) r.fits
    | no h ↦
        let old = v.records i a b in
        rw (slot_other i h) (record {
          prefixed = old.prefixed;
          above = omega (arith, old.above, r.lower);
          inside = old.inside;
          preview = old.preview ∙ ap (take 2) (record_other i a b h).0;
        })
  ]

  apart-after :
      (i j : ℕ)
      → first n ≤ i
      → i < j
      → j < count n
      → (payload_end after (after.slots i) ≤ (after.slots j).offset)
        ⊎ (payload_end after (after.slots j) ≤ (after.slots i).offset)
  apart-after i j a b c = elim (ℕ_discrete i pos) [
    | yes e ↦
        let h : j ≢ pos = omega arith in
        rw (slot_other j h, e, slot_here)
          (elim (r.apart j (omega arith) c h) [ inl p ↦ inr p | inr p ↦ inl p ])
    | no h ↦ elim (ℕ_discrete j pos) [
      | yes e ↦ rw (slot_other i h, e, slot_here) (r.apart i a (omega arith) h)
      | no k ↦ rw (slot_other i h, slot_other j k) (v.apart i j a b c)
    ]
  ]

  pub replaced-IsValid : IsValid after
  unfolding NodeMeta.has_fence NodeMeta.meta_count_with_fence
  replaced-IsValid = record {
    word = v.word;
    size = v.size;
    fences = v.fences;
    room = omega (arith, v.room, r.lower);
    records = IsRecord-after;
    apart = apart-after;
    sorted = λ i j a b c.
        rw (key_same i a (omega arith), key_same j (omega arith) c) (v.sorted i j a b c);
  }

  -- A read of the key of the record returns the new record, and a read of any other key what it
  -- returned before.
  pub read-replaced :
      (key : Key) → rest_at n pos ≡ rest_of n key → (read_by_key after key).0 ≡ shown after m
  unfolding NodeMeta.has_fence NodeMeta.meta_count_with_fence
  read-replaced key e =
      read_at after key pos replaced-IsValid r.start r.inside (key_same pos r.start r.inside ∙ e)
      ∙ ap (shown after) slot_here

  pub read-replaced_other :
      (key : Key)
      → rest_at n pos ≢ rest_of n key
      → (read_by_key after key).0 ≡ (read_by_key n key).0
  unfolding NodeMeta.has_fence NodeMeta.meta_count_with_fence
  read-replaced_other key d = elim (record_cases n key v) [
    | inl (i, a, b, e) ↦
        let h : i ≢ pos = λ same. d (ap (rest_at n) (sym same) ∙ e) in
        read_at after key i replaced-IsValid a b (key_same i a b ∙ e)
        ∙ ap (shown after) (slot_other i h)
        ∙ sym (record_other i a b h).1
        ∙ sym (read_at n key i v a b e)
    | inr gone ↦
        read_missing after key replaced-IsValid (λ i a b e. gone i a b (sym (key_same i a b) ∙ e))
        ∙ sym (read_missing n key v gone)
  ]
