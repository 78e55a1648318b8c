-- ===== src/Nodes/InnerNode/Overwrite.antt =====
-- A new child for a key that the node has: `update_at_pos`, and `insert` of such a key.
use bf_tree.Common.{
  ℕ, ◌+◌, ◌-◌, ◌≤◌, ◌<◌, ◌^◌, ◌≡◌, ◌≢◌, ◌⊎◌, inl, inr, refl, length, max, arith, ap, sym, ◌++◌,
  dec_lt, ℕ_discrete,
}
use bf_tree.Common.Bytes.{
  from_le-le_bytes, length-le_bytes, read-write_apart, read-write_self, write_apart,
}
use bf_tree.Nodes.PageId.{PageId, from_raw}
use bf_tree.Nodes.InnerNode.{
  InnerKvMeta, InnerNode, count, prefix_key, get_post_key_ref, get_full_key, get_value, id_bytes,
  write_child, update_at_pos,
}
use bf_tree.Nodes.InnerNode.Layout.{key_at, child_at, payload_end, IsValid}
use bf_tree.Nodes.InnerNode.Insert.{SamePayload-lem}

-- `n'` is `n` with another child at `pos`.
pub record IsOverwritten (n n' : InnerNode) (child : PageId) (pos : ℕ) : Type 0 where
  pub same_count : count n' ≡ count n
  pub same_space : n'.meta.remaining_size ≡ n.meta.remaining_size
  pub keys : (i : ℕ) → i < count n → key_at n' i ≡ key_at n i
  pub at_child : child_at n' pos ≡ child
  pub others : (i : ℕ) → i < count n → i ≢ pos → child_at n' i ≡ child_at n i

module _ (n : InnerNode) (pos : ℕ) (child : PageId) (v : IsValid n) (inside : pos < count n)
    (word : child.value < 2 ^ 64) where
  unfoldable pub overwritten : InnerNode
  overwritten = write_child n (n.slots pos) ((n.slots pos).key_len - 4) child

  id_at : ℕ
  id_at = (n.slots pos).offset + ((n.slots pos).key_len - 4)

  same_key :
      (m : InnerKvMeta)
      → (payload_end m ≤ (n.slots pos).offset) ⊎ (payload_end (n.slots pos) ≤ m.offset)
      → (get_full_key n m ≡ get_full_key overwritten m) × (get_value n m ≡ get_value overwritten m)
  unfolding overwritten write_child
  same_key m far = SamePayload-lem n overwritten m (λ a q r. sym (
      write_apart n.bytes ((n.slots pos).offset + ((n.slots pos).key_len - 4)) (id_bytes child) a
        (side a q r far)))
    where
      side :
          (a : ℕ)
          → m.offset ≤ a
          → a < payload_end m
          → (payload_end m ≤ (n.slots pos).offset) ⊎ (payload_end (n.slots pos) ≤ m.offset)
          → (a < (n.slots pos).offset + ((n.slots pos).key_len - 4))
            ⊎ ((n.slots pos).offset + ((n.slots pos).key_len - 4) + length (id_bytes child) ≤ a)
      side a q r (inl l) = inl (omega arith)
      side a q r (inr g) = inr (omega (arith, length-le_bytes 8 child.value))

  -- The key of the slot itself ends where the page id begins.
  own_key : get_full_key overwritten (n.slots pos) ≡ get_full_key n (n.slots pos)
  unfolding overwritten write_child get_full_key get_post_key_ref
  own_key =
      ap (λ k. prefix_key (n.slots pos) ++ k)
        (read-write_apart n.bytes (n.slots pos).offset ((n.slots pos).key_len - 4)
          ((n.slots pos).offset + ((n.slots pos).key_len - 4)) (id_bytes child) (inl (omega arith)))

  own_child : get_value overwritten (n.slots pos) ≡ child
  unfolding overwritten write_child get_value from_raw
  own_child =
      let o = (n.slots pos).offset + ((n.slots pos).key_len - 4) in
      let g : length (id_bytes child) ≡ 8 = length-le_bytes 8 child.value in
      let back = rw g at (read-write_self n.bytes o (id_bytes child)) in
      rw (back, from_le-le_bytes child.value word)

  -- The payloads of two slots lie apart.
  far :
      (i : ℕ)
      → i < count n
      → i ≢ pos
      → (payload_end (n.slots i) ≤ (n.slots pos).offset)
        ⊎ (payload_end (n.slots pos) ≤ (n.slots i).offset)
  far i b ne = elim (dec_lt i pos) [
    | yes p ↦ v.apart i pos p inside
    | no p ↦ swap (v.apart pos i (omega arith) b)
  ]
    where
      swap : {A B : Type 0} → A ⊎ B → B ⊎ A
      swap (inl a) = inr a
      swap (inr b) = inl b

  all_keys : (i : ℕ) → i < count n → get_full_key overwritten (n.slots i) ≡ key_at n i
  all_keys i b = elim (ℕ_discrete i pos) [
    | yes e ↦ rw e own_key
    | no ne ↦ sym (same_key (n.slots i) (far i b ne)).0
  ]

  -- The page id at `pos` is the new one, and all else is as it was.
  pub overwritten-IsOverwritten : IsOverwritten n overwritten child pos
  unfolding overwritten write_child
  overwritten-IsOverwritten = record {
    same_count = refl;
    same_space = refl;
    keys = all_keys;
    at_child = own_child;
    others = λ i b ne. sym (same_key (n.slots i) (far i b ne)).1;
  }

  pub overwritten-IsValid : IsValid overwritten
  unfolding overwritten write_child
  overwritten-IsValid = record {
    word = v.word;
    dummy = v.dummy;
    room = v.room;
    placed = v.placed;
    apart = v.apart;
    sorted = λ i j a b c. rw (all_keys i (omega arith), all_keys j c) (v.sorted i j a b c);
  }

-- `update_at_pos` in a valid node puts the child at that position, and changes nothing else.
pub update_at_pos_lem :
    (n : InnerNode) (pos : ℕ) (child : PageId)
    → IsValid n
    → pos < count n
    → child.value < 2 ^ 64
    → IsOverwritten n (update_at_pos n pos child) child pos × IsValid (update_at_pos n pos child)
unfolding update_at_pos
update_at_pos_lem n pos child v inside word =
    let e : max (n.slots pos).key_len 4 - 4 ≡ (n.slots pos).key_len - 4 = omega arith in
    rw e (
      unfold overwritten in
      (
        overwritten-IsOverwritten n pos child v inside word,
        overwritten-IsValid n pos child v inside word,
      ))
