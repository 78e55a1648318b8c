-- ===== src/Nodes/InnerNode/Routing.antt =====
-- `insert` as a change of the function from keys to children that the node stands for.
use bf_tree.Common.{
  ℕ, suc, ◌+◌, ◌-◌, ◌≤◌, ◌<◌, ◌^◌, ◌≡◌, ◌≢◌, ◌⊎◌, inl, inr, ◌∙◌, refl, length, Ordering, arith, ap,
  dec_lt, ℕ_discrete, Bool, true, false, ◌&&◌, if◌then◌else◌, ltb, ◌==◌, not, is_eq, is_lt,
  Ordering-cases, u16, leb, length-append, length-take, min, test_eq, test_ne, and_false,
}
use bf_tree.Common.Bytes.{
  Key, length-read, read, cmp, cmp-eq, cmp-lt_trans, cmp-gt_swap, cmp-lt_swap, cmp-lt-le_trans,
  cmp-lt_not_gt,
}
use bf_tree.Nodes.PageId.{PageId}
use bf_tree.Nodes.InnerNode.{
  InnerNode, count, lower_bound, get_full_key, get_post_key_ref, prefix_key, insert, have_space_for,
  required_len, key_compare, post_key_len,
}
use bf_tree.Nodes.InnerNode.Layout.{key_at, child_at, IsValid}
use bf_tree.Nodes.InnerNode.Lookup.{IsPlaceOf, lower_bound_lem, key_compare_lem}
use bf_tree.Nodes.InnerNode.Insert.{
  CanInsert, IsInserted, IsNewAt, result, insert_new-IsInserted, insert_new-IsValid, offset_exact,
}
use bf_tree.Nodes.InnerNode.Overwrite.{
  IsOverwritten, overwritten, overwritten-IsOverwritten, overwritten-IsValid,
}

-- The child to which the node sends a key.
abbrev pub route : InnerNode → Key → PageId
route n key = child_at n (lower_bound n key)

-- The place of a key is unique.
place_unique_lt :
    (n : InnerNode) (k : Key) (p q : ℕ) → IsPlaceOf n k p → IsPlaceOf n k q → p < q → ⊥
place_unique_lt n k p q a b h = b.here (omega arith) (a.greater q h b.bound)

place_unique : (n : InnerNode) (k : Key) (p q : ℕ) → IsPlaceOf n k p → IsPlaceOf n k q → p ≡ q
place_unique n k p q a b = elim (dec_lt p q) [
  | yes h ↦ absurd (place_unique_lt n k p q a b h)
  | no h ↦ elim (dec_lt q p) [ yes g ↦ absurd (place_unique_lt n k q p b a g) | no g ↦ omega arith ]
]

module _ (n : InnerNode) (key : Key) (child : PageId) (p : ℕ) (a : IsPlaceOf n key p)
    (new : 1 ≤ p → cmp (key_at n p) key ≢ Ordering.eq) where
  -- The keys up to `p` are smaller than `key`.
  up_to : (i : ℕ) → 1 ≤ i → i ≤ p → cmp (key_at n i) key ≡ Ordering.lt
  up_to i l h = elim (dec_lt i p) [
    | yes q ↦ a.smaller i l q
    | no q ↦ let e : i ≡ p = omega arith in rw e (at_p (omega arith))
  ]
    where
      at_p : 1 ≤ p → cmp (key_at n p) key ≡ Ordering.lt
      at_p l = elim (Ordering-cases (cmp (key_at n p) key)) [
        | inl less ↦ less
        | inr (inl same) ↦ absurd (new l same)
        | inr (inr greater) ↦ absurd (a.here l greater)
      ]

  -- So the place of the new record is behind `p`.
  pub new_at : IsNewAt n key (p + 1)
  new_at = record {
    first = omega arith;
    last = omega (arith, a.bound);
    smaller = λ i l h b. up_to i l (omega arith);
    greater = λ i l b. cmp-gt_swap (key_at n i) key (a.greater i (omega arith) b);
  }

  module _ (n' : InnerNode) (ins : IsInserted n n' key child (p + 1)) (k : Key) (q : ℕ)
      (b : IsPlaceOf n k q) where
    old_before : (i : ℕ) → i ≤ p → i < count n → key_at n' i ≡ key_at n i
    old_before i h l = (ins.before i (omega arith) l).0

    old_after : (i : ℕ) → p + 1 < i → i < count n' → key_at n' i ≡ key_at n (i - 1)
    old_after i h l =
        let e : suc (i - 1) ≡ i = omega arith in
        rw e at (ins.after (i - 1) (omega arith) (omega (arith, ins.one_more))).0

    -- A key below the new one keeps its place.
    place_below : cmp k key ≡ Ordering.lt → (q ≤ p) × IsPlaceOf n' k q
    place_below h = (
      le,
      record {
        bound = omega (arith, ins.one_more, b.bound);
        smaller = λ i l g.
            rw (old_before i (omega (arith, le)) (omega (arith, b.bound))) (b.smaller i l g);
        here = λ l. rw (old_before q le b.bound) (b.here l);
        greater = λ i l g. elim (dec_lt i (p + 1)) [
          | yes low ↦
              rw (old_before i (omega arith) (omega (arith, a.bound)))
                (b.greater i l (omega (arith, a.bound)))
          | no not_low ↦ elim (dec_lt (p + 1) i) [
            | yes high ↦
                rw (old_after i high g)
                  (b.greater (i - 1) (omega (arith, le)) (omega (arith, ins.one_more)))
            | no mid ↦ let e : i ≡ p + 1 = omega arith in rw (e, ins.at_key) (cmp-lt_swap k key h)
          ]
        ];
      },
    )
      where
        le : q ≤ p
        le = elim (dec_lt p q) [
          | yes g ↦ absurd (
              b.here (omega arith) (
                cmp-lt_swap k (key_at n q) (
                  cmp-lt_trans k key (key_at n q) h
                    (cmp-gt_swap (key_at n q) key (a.greater q g b.bound)))))
          | no g ↦ omega arith
        ]

    -- Any other moves up by one.
    place_above : cmp k key ≢ Ordering.lt → (p ≤ q) × IsPlaceOf n' k (q + 1)
    place_above h = (
      ge,
      record {
        bound = omega (arith, ins.one_more, b.bound);
        smaller = λ i l g. elim (dec_lt i (p + 1)) [
          | yes low ↦
              rw (old_before i (omega arith) (omega (arith, a.bound)))
                (cmp-lt-le_trans (key_at n i) key k (up_to i l (omega arith)) key_le)
          | no not_low ↦ elim (dec_lt (p + 1) i) [
            | yes high ↦
                rw (old_after i high (omega (arith, ins.one_more, b.bound)))
                  (b.smaller (i - 1) (omega arith) (omega arith))
            | no mid ↦
                let e : i ≡ p + 1 = omega arith in rw (e, ins.at_key) (above_new (omega arith))
          ]
        ];
        here = λ l. elim (dec_lt p q) [
          | yes high ↦
              rw (old_after (q + 1) (omega arith) (omega (arith, ins.one_more, b.bound)))
                (let e : q + 1 - 1 ≡ q = omega arith in rw e (b.here (omega arith)))
          | no mid ↦ let e : q + 1 ≡ p + 1 = omega (arith, ge) in rw (e, ins.at_key) key_le
        ];
        greater = λ i l g.
            rw (old_after i (omega (arith, ge)) g)
              (b.greater (i - 1) (omega arith) (omega (arith, ins.one_more)));
      },
    )
      where
        key_le : cmp key k ≢ Ordering.gt
        key_le = cmp-lt_not_gt k key h

        ge : p ≤ q
        ge = elim (dec_lt q p) [
          | yes g ↦ absurd (
              cmp_absurd
                (cmp-lt-le_trans (key_at n p) key k (up_to p (omega arith) (omega arith)) key_le)
                (b.greater p g a.bound))
          | no g ↦ omega arith
        ]
          where
            cmp_absurd : {o : Ordering} → o ≡ Ordering.lt → o ≡ Ordering.gt → ⊥
            cmp_absurd e f = cc

        above_new : p < q → cmp key k ≡ Ordering.lt
        above_new g =
            cmp-lt-le_trans key (key_at n q) k
              (cmp-gt_swap (key_at n q) key (a.greater q g b.bound)) (b.here (omega arith))

-- After `insert` of `key`, a key `k` goes to the new child if it is not below `key` and went to the
-- slot where `key` belongs.
abbrev pub covers : InnerNode → Key → Key → Bool
covers n key k = not (is_lt (cmp k key)) && lower_bound n k == lower_bound n key

-- What `insert` makes of a node that has room.
pub record Inserts (n n' : InnerNode) (key : Key) (child : PageId) : Type 0 where
  pub valid : IsValid n'
  pub routes : (k : Key) → route n' k ≡ (if covers n key k then child else route n k)

not-less :
    (o : Ordering) → (o ≡ Ordering.eq) ⊎ (o ≡ Ordering.gt) → (o ≢ Ordering.lt) × (is_lt o ≡ false)
not-less Ordering.eq h = (λ e. cc, refl)
not-less Ordering.gt h = (λ e. cc, refl)
not-less Ordering.lt (inl h) = cc
not-less Ordering.lt (inr h) = cc

module _ (n : InnerNode) (key : Key) (child : PageId) (v : IsValid n)
    (c : CanInsert n key child) where
  place : (k : Key) → IsPlaceOf n k (lower_bound n k)
  place k = lower_bound_lem n k v

  -- A route in a node is known from a place of the key.
  route_at :
      (n' : InnerNode) (k : Key) (q : ℕ)
      → IsValid n'
      → IsPlaceOf n' k q
      → route n' k ≡ child_at n' q
  route_at n' k q w b =
      ap (child_at n') (place_unique n' k (lower_bound n' k) q (lower_bound_lem n' k w) b)

  insert_new-Inserts :
      (1 ≤ lower_bound n key → cmp (key_at n (lower_bound n key)) key ≢ Ordering.eq)
      → Inserts n (result n key child (lower_bound n key + 1) v c) key child
  insert_new-Inserts new = record { valid = valid; routes = routes }
    where
      p : ℕ
      p = lower_bound n key

      n' : InnerNode
      n' = result n key child (p + 1) v c

      ins : IsInserted n n' key child (p + 1)
      ins = insert_new-IsInserted n key child (p + 1) v c

      valid : IsValid n'
      valid = insert_new-IsValid n key child (p + 1) v c (new_at n key child p (place key) new)

      routes : (k : Key) → route n' k ≡ (if covers n key k then child else route n k)
      routes k = elim (Ordering-cases (cmp k key)) [
        | inl less ↦
            let b =
              place_below n key child p (place key) new n' ins k (lower_bound n k) (place k) less in
            rw less (
              route_at n' k (lower_bound n k) valid b.1
              ∙ (ins.before (lower_bound n k) (omega (arith, b.0)) (place k).bound).1)
        | inr more ↦
            let not_less = not-less (cmp k key) more in
            let b =
              place_above n key child p (place key) new n' ins k (lower_bound n k) (place k)
                not_less.0 in
            rw not_less.1 (
              route_at n' k (lower_bound n k + 1) valid b.1
              ∙ elim (ℕ_discrete (lower_bound n k) p) [
                | yes e ↦
                    rw (test_eq (lower_bound n k) p e)
                      (ap (λ j. child_at n' (j + 1)) e ∙ ins.at_child)
                | no ne ↦ rw (test_ne (lower_bound n k) p ne) (
                    let up : lower_bound n k + 1 ≡ suc (lower_bound n k) = omega arith in
                    ap (child_at n') up
                    ∙ (ins.after (lower_bound n k) (omega (arith, b.0)) (place k).bound).1)
              ])
      ]

  overwrite-Inserts :
      1 ≤ lower_bound n key
      → cmp (key_at n (lower_bound n key)) key ≡ Ordering.eq
      → Inserts n
          (overwritten n (lower_bound n key) child v (place key).bound c.child_word)
          key
          child
  overwrite-Inserts pos same = record { valid = valid; routes = routes }
    where
      p : ℕ
      p = lower_bound n key

      n' : InnerNode
      n' = overwritten n p child v (place key).bound c.child_word

      over : IsOverwritten n n' child p
      over = overwritten-IsOverwritten n p child v (place key).bound c.child_word

      valid : IsValid n'
      valid = overwritten-IsValid n p child v (place key).bound c.child_word

      same_place : (k : Key) → IsPlaceOf n' k (lower_bound n k)
      same_place k =
          let b = place k in
          record {
            bound = omega (arith, over.same_count, b.bound);
            smaller = λ i l g. rw (over.keys i (omega (arith, b.bound))) (b.smaller i l g);
            here = λ l. rw (over.keys (lower_bound n k) b.bound) (b.here l);
            greater = λ i l g.
                rw (over.keys i (omega (arith, over.same_count)))
                  (b.greater i l (omega (arith, over.same_count)));
          }

      not_below : (k : Key) → lower_bound n k ≡ p → is_lt (cmp k key) ≡ false
      not_below k e = elim (Ordering-cases (cmp k key)) [
        | inl less ↦ absurd (
            (place k).here (omega (arith, e, pos))
              (rw (e, cmp-eq (key_at n p) key same) (cmp-lt_swap k key less)))
        | inr more ↦ (not-less (cmp k key) more).1
      ]

      routes : (k : Key) → route n' k ≡ (if covers n key k then child else route n k)
      routes k =
          route_at n' k (lower_bound n k) valid (same_place k)
          ∙ elim (ℕ_discrete (lower_bound n k) p) [
            | yes e ↦
                rw (not_below k e, test_eq (lower_bound n k) p e)
                  (ap (child_at n') e ∙ over.at_child)
            | no ne ↦
                rw (test_ne (lower_bound n k) p ne, and_false (not (is_lt (cmp k key))))
                  (over.others (lower_bound n k) (place k).bound ne)
          ]

-- The length field of a slot is the length of its key.
key_len_exact :
    (n : InnerNode) (i : ℕ) → IsValid n → i < count n → (n.slots i).key_len ≡ length (key_at n i)
unfolding get_full_key get_post_key_ref
key_len_exact n i v b =
    let m = n.slots i in
    omega (
      arith,
      length-append {0} (prefix_key m) (read n.bytes m.offset (m.key_len - 4)),
      length-take {0} (min 4 m.key_len) m.key_prefix,
      length-read n.bytes m.offset (m.key_len - 4),
      (v.placed i b).prefix,
    )

-- The test of `insert` for a key that the node has.
abbrev has_key : InnerNode → Key → Bool
has_key n key =
    let pos = lower_bound n key in
    ltb 0 pos && ltb pos (count n) && is_eq (key_compare n key (n.slots pos))

has_key_cases :
    (n : InnerNode) (key : Key)
    → IsValid n
    → ((has_key n key ≡ true)
        × (1 ≤ lower_bound n key)
        × (cmp (key_at n (lower_bound n key)) key ≡ Ordering.eq))
      ⊎ ((has_key n key ≡ false)
          × (1 ≤ lower_bound n key → cmp (key_at n (lower_bound n key)) key ≢ Ordering.eq))
has_key_cases n key v =
    let pos = lower_bound n key in
    let b = (lower_bound_lem n key v).bound in
    let e = key_compare_lem n (n.slots pos) key (v.placed pos b) in
    elim (dec_lt 0 pos) [
      | yes p ↦ elim (Ordering-cases (cmp (key_at n pos) key)) [
        | inr (inl same) ↦ inl (ground arith, p, same)
        | inl less ↦ inr (ground arith, λ _ f. cc)
        | inr (inr greater) ↦ inr (ground arith, λ _ f. cc)
      ]
      | no p ↦ inr (ground arith, λ q. absurd (p q))
    ]

module _ (n : InnerNode) (key : Key) (child : PageId) (v : IsValid n) (small : length key < 65520)
    (word : child.value < 2 ^ 64) (room : u16 (required_len key) ≤ n.meta.remaining_size) where
  can : CanInsert n key child
  can = record { room = omega arith; key_small = omega arith; child_word = word }

  insert_with_room : (insert n key child).0 ≡ true × Inserts n (insert n key child).1 key child
  unfolding insert
  insert_with_room =
      let fits : ltb n.meta.remaining_size (u16 (required_len key)) ≡ false = ground arith in
      elim (has_key_cases n key v) [
        | inl (t, pos, same) ↦
            let len = key_len_exact n (lower_bound n key) v (lower_bound_lem n key v).bound in
            let len' = rw (cmp-eq (key_at n (lower_bound n key)) key same) at len in
            let post : post_key_len key ≡ (n.slots (lower_bound n key)).key_len - 4 =
              omega (arith, len') in
            rw (fits, t, post)
              (refl, unfold overwritten in overwrite-Inserts n key child v can pos same)
        | inr (t, new) ↦
            rw (fits, t, offset_exact n key child v can)
              (refl, unfold result in insert_new-Inserts n key child v can new)
      ]

insert_without_room :
    (n : InnerNode) (key : Key) (child : PageId)
    → n.meta.remaining_size < u16 (required_len key)
    → insert n key child ≡ (false, n)
unfolding insert
insert_without_room n key child full =
    let a : ltb n.meta.remaining_size (u16 (required_len key)) ≡ true = ground arith in rw a

-- `insert` into a valid node: without room it refuses and leaves the node; with room it succeeds,
-- keeps the node valid, and afterwards exactly the keys from `key` up to the next key of the node
-- go to the new child. Keys are shorter than 2 ^ 16 - 16 bytes, and the page id is a `u64`.
pub insert-Inserts :
    (n : InnerNode) (key : Key) (child : PageId)
    → IsValid n
    → length key < 65520
    → child.value < 2 ^ 64
    → let (done, n') = insert n key child in
      (done ≡ have_space_for n key)
      × ((done ≡ true) → Inserts n n' key child)
      × ((done ≡ false) → n' ≡ n)
unfolding have_space_for
insert-Inserts n key child v small word =
    elim (dec_lt n.meta.remaining_size (u16 (required_len key))) [
      | yes full ↦
          let b : leb (u16 (required_len key)) n.meta.remaining_size ≡ false = ground arith in
          rw (insert_without_room n key child full, b) (refl, λ e. cc, λ e. refl)
      | no fits ↦
          let b : leb (u16 (required_len key)) n.meta.remaining_size ≡ true = ground arith in
          let done = insert_with_room n key child v small word (omega arith) in
          rw (b) (done.0, λ e. done.1, λ e. cc (done.0))
    ]
