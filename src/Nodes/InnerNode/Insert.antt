-- ===== src/Nodes/InnerNode/Insert.antt =====
-- `insert`: what it does on each branch, and that it keeps the invariant.
use bf_tree.Common.{
  ℕ, suc, ◌+◌, ◌-◌, ◌*◌, ◌≤◌, ◌<◌, ◌^◌, ◌≡◌, ◌⊎◌, inl, inr, ◌∙◌, refl, length, take, drop, min,
  Ordering, arith, [], ◌∷◌, ◌++◌, length-drop, ap, sym, take-append-drop, u16,
}
use bf_tree.Common.Bytes.{
  Key, cmp, read, write, from_le, from_le-le_bytes, length-le_bytes, write_apart, read-write_append,
  read_ext,
}
use bf_tree.Common.Shift.{
  shift_in, shift_in_below, shift_in_self, shift_in-suc, shift_in_all, shift_in_pairs,
}
use bf_tree.Nodes.PageId.{PageId, from_raw}
use bf_tree.Nodes.NodeMeta
use bf_tree.Nodes.InnerNode.{
  InnerKvMeta, InnerNode, count, prefix_key, get_post_key_ref, get_full_key, get_value,
  make_prefixed_meta, current_lowest_offset, post_key_len, required_len, id_bytes, insert_new,
}
use bf_tree.Nodes.InnerNode.Layout.{key_at, child_at, payload_end, IsPlaced, IsValid}

-- A record whose payload two nodes share has the same key and the same child in both.
pub SamePayload-lem :
    (n n' : InnerNode) (m : InnerKvMeta)
    → ((a : ℕ) → m.offset ≤ a → a < payload_end m → n.bytes a ≡ n'.bytes a)
    → (get_full_key n m ≡ get_full_key n' m) × (get_value n m ≡ get_value n' m)
unfolding get_full_key get_value get_post_key_ref
SamePayload-lem n n' m h = (
  ap (λ k. prefix_key m ++ k)
      (read_ext n.bytes n'.bytes m.offset (m.key_len - 4) (λ a p q. h a p (omega arith))),
  ap (λ b. from_raw (from_le b))
      (read_ext n.bytes n'.bytes (m.offset + (m.key_len - 4)) 8
        (λ a p q. h a (omega arith) (omega arith))),
)

-- The prefix of a slot holds the first bytes of its key.
prefix_of_make :
    (key : Key) (offset : ℕ)
    → length key < 65536
    → (prefix_key (make_prefixed_meta key offset) ≡ take 4 key)
      × (length (make_prefixed_meta key offset).key_prefix ≡ 4)
unfolding make_prefixed_meta
prefix_of_make [] offset h = (refl, refl)
prefix_of_make (a ∷ []) offset h = (refl, refl)
prefix_of_make (a ∷ b ∷ []) offset h = (refl, refl)
prefix_of_make (a ∷ b ∷ c ∷ []) offset h = (refl, refl)
prefix_of_make (a ∷ b ∷ c ∷ d ∷ xs) offset h =
    let l = suc (suc (suc (suc (length xs)))) in
    let e : 4 - l ≡ 0 = omega arith in
    let f : min 4 (u16 l) ≡ 4 = omega arith in rw (e, f) (refl, refl)

-- What holds where `insert` makes a new record: the room was tested, and the key and the page id
-- are those of the tree.
pub record CanInsert (n : InnerNode) (key : Key) (child : PageId) : Type 0 where
  pub room : required_len key ≤ n.meta.remaining_size
  pub key_small : length key < 65536
  pub child_word : child.value < 2 ^ 64

-- The start of the payloads of `n`, and the place of a new payload below it.
abbrev pub low : InnerNode → ℕ
low n = count n * 8 + n.meta.remaining_size

abbrev pub new_offset : InnerNode → Key → ℕ
new_offset n key = low n - (post_key_len key + 8)

-- The offset that `insert` computes in `u16` does not wrap.
pub offset_exact :
    (n : InnerNode) (key : Key) (child : PageId)
    → IsValid n
    → CanInsert n key child
    → u16 (current_lowest_offset n + 65536 - u16 (post_key_len key + 8)) ≡ new_offset n key
unfolding current_lowest_offset
offset_exact n key child v c = omega (arith, v.room, c.room)

-- `n'` is `n` with a record at `pos` and with those from `pos` on one place further up.
pub record IsInserted (n n' : InnerNode) (key : Key) (child : PageId) (pos : ℕ) : Type 0 where
  pub one_more : count n' ≡ count n + 1
  pub space : n'.meta.remaining_size + required_len key ≡ n.meta.remaining_size
  pub before :
      (i : ℕ) → i < pos → i < count n → (key_at n' i ≡ key_at n i) × (child_at n' i ≡ child_at n i)
  pub at_key : key_at n' pos ≡ key
  pub at_child : child_at n' pos ≡ child
  pub after :
      (i : ℕ)
      → pos ≤ i
      → i < count n
      → (key_at n' (suc i) ≡ key_at n i) × (child_at n' (suc i) ≡ child_at n i)

-- `key` is new to the node, and belongs before slot `pos`.
pub record IsNewAt (n : InnerNode) (key : Key) (pos : ℕ) : Type 0 where
  pub first : 1 ≤ pos
  pub last : pos ≤ count n
  pub smaller : (i : ℕ) → 1 ≤ i → i < pos → i < count n → cmp (key_at n i) key ≡ Ordering.lt
  pub greater : (i : ℕ) → pos ≤ i → i < count n → cmp key (key_at n i) ≡ Ordering.lt

module _ (n : InnerNode) (key : Key) (child : PageId) (pos : ℕ) (v : IsValid n)
    (c : CanInsert n key child) where
  unfoldable pub result : InnerNode
  result = insert_new n key child (new_offset n key) pos

  result-count :
      (count result ≡ count n + 1)
      × (result.meta.encoded < 65536)
      × (result.meta.remaining_size + required_len key ≡ n.meta.remaining_size)
  unfolding result insert_new NodeMeta.meta_count_with_fence NodeMeta.increment_value_count
  result-count = omega (arith, v.room, v.word, c.room)

  -- The old payloads lie above both writes.
  old_payload :
      (m : InnerKvMeta)
      → IsPlaced (low n) m
      → (get_full_key n m ≡ get_full_key result m) × (get_value n m ≡ get_value result m)
  unfolding result insert_new
  old_payload m p = SamePayload-lem n result m (λ a q r. sym (
      write_apart (write n.bytes (new_offset n key) (drop 4 key))
        (new_offset n key + post_key_len key) (id_bytes child) a
        (inr (omega (arith, length-le_bytes 8 child.value, p.above, c.room)))
      ∙ write_apart n.bytes (new_offset n key) (drop 4 key) a
          (inr (omega (arith, length-drop 4 key, p.above, c.room)))))

  new_meta : InnerKvMeta
  new_meta = make_prefixed_meta key (new_offset n key)

  -- Both writes are read back.
  new_payload :
      (read result.bytes (new_offset n key) (post_key_len key) ≡ drop 4 key)
      × (read result.bytes (new_offset n key + post_key_len key) 8 ≡ id_bytes child)
  unfolding result insert_new
  new_payload =
      let both = read-write_append n.bytes (new_offset n key) (drop 4 key) (id_bytes child) in
      let e : length (drop 4 key) ≡ post_key_len key = omega (arith, length-drop 4 key) in
      let g : length (id_bytes child) ≡ 8 = length-le_bytes 8 child.value in rw (e, g) at both

  stored_len : new_meta.key_len - 4 ≡ post_key_len key
  unfolding new_meta make_prefixed_meta
  stored_len = omega (arith, c.key_small)

  stored_offset : new_meta.offset ≡ new_offset n key
  unfolding new_meta make_prefixed_meta
  stored_offset = refl

  new_key : get_full_key result new_meta ≡ key
  unfolding get_full_key get_post_key_ref
  new_key =
      rw (stored_len, stored_offset)
        (ap (λ k. prefix_key new_meta ++ k) new_payload.0
          ∙ (unfold new_meta in
              rw ((prefix_of_make key (new_offset n key) c.key_small).0) (take-append-drop 4 key)))

  new_child : get_value result new_meta ≡ child
  unfolding get_value from_raw
  new_child =
      rw (stored_len, stored_offset, new_payload.1, from_le-le_bytes child.value c.child_word)

  new-IsPlaced : IsPlaced (new_offset n key) new_meta
  new-IsPlaced = record {
    prefix = unfold new_meta in (prefix_of_make key (new_offset n key) c.key_small).1;
    above = omega (arith, stored_offset);
    inside = omega (arith, stored_offset, stored_len, v.room, c.room);
  }

  -- The slots of the result.
  slot_before : (i : ℕ) → i < pos → result.slots i ≡ n.slots i
  unfolding result insert_new new_meta
  slot_before i h = shift_in_below n.slots pos new_meta i h

  slot_at : result.slots pos ≡ new_meta
  unfolding result insert_new new_meta
  slot_at = shift_in_self n.slots pos new_meta

  slot_after : (i : ℕ) → pos ≤ i → result.slots (suc i) ≡ n.slots i
  unfolding result insert_new new_meta
  slot_after i h = shift_in-suc n.slots pos new_meta i h

  -- A new record at `pos`: the keys and the children of the others are what they were.
  pub insert_new-IsInserted : IsInserted n result key child pos
  insert_new-IsInserted = record {
    one_more = result-count.0;
    space = result-count.2;
    before = λ i h b. rw (slot_before i h) (same i b);
    at_key = rw slot_at new_key;
    at_child = rw slot_at new_child;
    after = λ i h b. rw (slot_after i h) (same i b);
  }
    where
      same :
          (i : ℕ)
          → i < count n
          → (get_full_key result (n.slots i) ≡ key_at n i)
            × (get_value result (n.slots i) ≡ child_at n i)
      same i b = let p = old_payload (n.slots i) (v.placed i b) in (sym p.0, sym p.1)

  slots_of_result : (i : ℕ) → result.slots i ≡ shift_in n.slots pos new_meta i
  unfolding result insert_new new_meta
  slots_of_result i = refl

  -- The slots of the result are old ones or the new one, and the payloads begin at the new one.
  new_low : low result ≡ new_offset n key
  new_low = omega (arith, result-count, c.room)

  new_end : payload_end new_meta ≤ low n
  new_end = omega (arith, stored_offset, stored_len, c.room)

  -- A new key at its place keeps the invariant.
  pub insert_new-IsValid : IsNewAt n key pos → IsValid result
  insert_new-IsValid w = record {
    word = result-count.1;
    dummy = omega (arith, result-count);
    room = omega (arith, new_low, v.room);
    placed = λ i h.
        rw (slots_of_result i, new_low)
          (shift_in_all n.slots pos new_meta (IsPlaced (new_offset n key)) (count n)
            (λ j b. old_placed j b) new-IsPlaced w.last i (omega (arith, result-count)));
    apart = λ i j a b.
        rw (slots_of_result i, slots_of_result j)
          (shift_in_pairs n.slots pos new_meta Apart 0 (count n) (λ i j _ a b. v.apart i j a b)
            (λ i _ _ b. inr (omega (arith, new_end, (v.placed i b).above)))
            (λ j _ b. inl (omega (arith, new_end, (v.placed j b).above))) (omega arith) w.last i j
            (omega arith) a (omega (arith, result-count)));
    sorted = λ i j l a b.
        rw (slots_of_result i, slots_of_result j)
          (shift_in_pairs n.slots pos new_meta Rises 1 (count n)
            (λ i j l a b. rw (← old_key i (omega arith), ← old_key j b) (v.sorted i j l a b))
            (λ i l a b. rw (← old_key i b, new_key) (w.smaller i l a b))
            (λ j a b. rw (← old_key j b, new_key) (w.greater j a b)) w.first w.last i j l a
            (omega (arith, result-count)));
  }
    where
      Apart : InnerKvMeta → InnerKvMeta → Type 0
      Apart a b = (payload_end a ≤ b.offset) ⊎ (payload_end b ≤ a.offset)

      Rises : InnerKvMeta → InnerKvMeta → Type 0
      Rises a b = cmp (get_full_key result a) (get_full_key result b) ≡ Ordering.lt

      old_key : (i : ℕ) → i < count n → key_at n i ≡ get_full_key result (n.slots i)
      old_key i b = (old_payload (n.slots i) (v.placed i b)).0

      old_placed : (i : ℕ) → i < count n → IsPlaced (new_offset n key) (n.slots i)
      old_placed i b =
          let p = v.placed i b in
          record { prefix = p.prefix; above = omega (arith, p.above); inside = p.inside }
