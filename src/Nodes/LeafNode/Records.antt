-- ===== src/Nodes/LeafNode/Records.antt =====
-- What a read returns, in terms of the records of a leaf.
use native.Mathlib.Decide.{dec_lt, dec_le}
use bf_tree.Common.{
  ℕ, ◌+◌, ◌-◌, ◌≤◌, ◌<◌, ◌≡◌, ◌≢◌, ◌∙◌, ◌⊎◌, inl, inr, ap, Ordering, arith, ltb, leb, if◌then◌else◌,
  true, false, Ordering-cases, u16, Bool-cases,
}
use bf_tree.Common.Bytes.{Key, cmp, cmp_refl, cmp-eq, read, read_ext}
use bf_tree.Nodes.OpType.{is_absent}
use bf_tree.Nodes.LeafKvMeta.{LeafKvMeta, get_key_len, value_len, op_type}
use bf_tree.Nodes.LeafNode.{
  LeafNode, count, get_remaining_key, get_value, lower_bound, has_key_at, LeafReadResult, hit,
  deleted, not_found, read_by_key, read_by_key_inner, result_at,
}
use bf_tree.Nodes.LeafNode.Layout.{rest_at, rest_len, payload_end, first, IsRecord, IsValid}
use bf_tree.Nodes.LeafNode.Lookup.{rest_of, lower_bound_place, place_unique, greater_behind}

-- What a read of the record in a slot returns.
abbrev pub shown : LeafNode → LeafKvMeta → LeafReadResult
shown n m = if is_absent (op_type m) then deleted else hit (get_value n m)

-- A value stands right behind the key.
pub get_value_lem :
    (n : LeafNode) (m : LeafKvMeta)
    → IsValid n
    → IsRecord n m
    → get_value n m ≡ read n.bytes (m.offset + rest_len n m) (value_len m)
unfolding get_value
get_value_lem n m v r =
    let e : u16 (m.offset + get_key_len m + 65536 - n.prefix_len) ≡ m.offset + rest_len n m =
      omega (arith, r.prefixed, r.inside, v.size) in
    rw e

-- A record is at most at one place, which the search finds.
pub place_of_record :
    (n : LeafNode) (key : Key) (i : ℕ)
    → IsValid n
    → first n ≤ i
    → i < count n
    → rest_at n i ≡ rest_of n key
    → lower_bound n key ≡ i
place_of_record n key i v f l e =
    place_unique n key (lower_bound n key) i (lower_bound_place n key v) (record {
      start = f;
      bound = omega arith;
      smaller = λ j a b. rw e at (v.sorted j i a b l);
      here = λ a h. cc (here, h);
      greater = λ j a b. greater_behind n key i j v f (λ h. cc (here, h)) a b;
    })
  where
    here : cmp (rest_at n i) (rest_of n key) ≡ Ordering.eq
    here = rw e (cmp_refl (rest_of n key))

read_result :
    (n : LeafNode) (key : Key) → (read_by_key n key).0 ≡ result_at n key (lower_bound n key)
unfolding read_by_key read_by_key_inner
read_result n key = elim (dec_le (count n) (lower_bound n key)) [
  | yes out ↦
      let t1 : leb (count n) (lower_bound n key) ≡ true = ground arith in
      let t2 : ltb (lower_bound n key) (count n) ≡ false = ground arith in rw (t1, t2)
  | no inside ↦ let t : leb (count n) (lower_bound n key) ≡ false = ground arith in rw t
]

pub has_key_at-true :
    (n : LeafNode) (key : Key) (i : ℕ)
    → i < count n
    → rest_at n i ≡ rest_of n key
    → has_key_at n key i ≡ true
has_key_at-true n key i l e =
    let t : ltb i (count n) ≡ true = ground arith in rw (t, e, cmp_refl (rest_of n key))

pub has_key_at_only :
    (n : LeafNode) (key : Key) (i : ℕ)
    → has_key_at n key i ≡ true
    → (i < count n) × (rest_at n i ≡ rest_of n key)
has_key_at_only n key i h = elim (dec_lt i (count n)) [
  | no out ↦ let t : ltb i (count n) ≡ false = ground arith in cc (rw t at h)
  | yes inside ↦
      let t : ltb i (count n) ≡ true = ground arith in
      elim (Ordering-cases (cmp (rest_at n i) (rest_of n key))) [
        | inl less ↦ cc (rw (t, less) at h)
        | inr (inl eq) ↦ (inside, cmp-eq (rest_at n i) (rest_of n key) eq)
        | inr (inr gt) ↦ cc (rw (t, gt) at h)
      ]
]

-- A read of a key that a record has returns that record.
pub read_at :
    (n : LeafNode) (key : Key) (i : ℕ)
    → IsValid n
    → first n ≤ i
    → i < count n
    → rest_at n i ≡ rest_of n key
    → (read_by_key n key).0 ≡ shown n (n.slots i)
read_at n key i v f l e =
    let p = place_of_record n key i v f l e in
    let t = has_key_at-true n key i l e in read_result n key ∙ rw (p, t)

-- No record has the key.
abbrev pub IsMissing : LeafNode → Key → Type 0
IsMissing n key = (i : ℕ) → first n ≤ i → i < count n → rest_at n i ≢ rest_of n key

pub read_missing :
    (n : LeafNode) (key : Key) → IsValid n → IsMissing n key → (read_by_key n key).0 ≡ not_found
read_missing n key v h = elim (Bool-cases (has_key_at n key (lower_bound n key))) [
  | inl there ↦
      let both = has_key_at_only n key (lower_bound n key) there in
      absurd (h (lower_bound n key) (lower_bound_place n key v).start both.0 both.1)
  | inr gone ↦ read_result n key ∙ rw gone
]

-- The record that has the key, or none.
pub record_cases :
    (n : LeafNode) (key : Key)
    → IsValid n
    → ((i : ℕ) × (first n ≤ i) × (i < count n) × (rest_at n i ≡ rest_of n key)) ⊎ IsMissing n key
record_cases n key v = elim (Bool-cases (has_key_at n key (lower_bound n key))) [
  | inl there ↦
      let both = has_key_at_only n key (lower_bound n key) there in
      inl (lower_bound n key, (lower_bound_place n key v).start, both.0, both.1)
  | inr gone ↦ inr (λ i a b e.
      let p = place_of_record n key i v a b e in
      let t = has_key_at-true n key i b e in cc (gone, p, t))
]

-- A record whose payload two leaves share is the same record in both.
pub same_record :
    (n n' : LeafNode) (m : LeafKvMeta)
    → n'.prefix_len ≡ n.prefix_len
    → IsValid n
    → IsRecord n m
    → ((a : ℕ) → m.offset ≤ a → a < payload_end n m → n.bytes a ≡ n'.bytes a)
    → (get_remaining_key n m ≡ get_remaining_key n' m) × (shown n m ≡ shown n' m)
unfolding get_remaining_key get_value
same_record n n' m e v r h =
    let at : u16 (m.offset + get_key_len m + 65536 - n.prefix_len) ≡ m.offset + rest_len n m =
      omega (arith, r.prefixed, r.inside, v.size) in
    let value =
      read_ext n.bytes n'.bytes (m.offset + rest_len n m) (value_len m)
        (λ a p q. h a (omega arith) (omega arith)) in
    (
      rw e (read_ext n.bytes n'.bytes m.offset (rest_len n m) (λ a p q. h a p (omega arith))),
      ap (λ b. if is_absent (op_type m) then deleted else hit b) (rw (e, at) value),
    )
