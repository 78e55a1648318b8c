-- ===== src/Nodes/LeafNode/Lookup.antt =====
-- `lower_bound` and `linear_lower_bound`: where a key is, or belongs.
use native.Mathlib.Decide.{dec_lt}
use bf_tree.Common.{
  ℕ, zero, suc, ◌+◌, ◌-◌, ◌≤◌, ◌<◌, ◌≡◌, ◌≢◌, ◌∙◌, inl, inr, refl, ap, sym, length, take, drop, min,
  Ordering, arith, is_eq, ltb, if◌then◌else◌, take-min, length-drop, true, false, Ordering-cases,
}
use bf_tree.Common.Bytes.{
  Key, cmp, cmp_then, cmp_split, cmp-eq, cmp-lt_trans, cmp-gt_swap, cmp-lt_swap,
}
use bf_tree.Common.Search.{Outcome, found, missing, search_loop, IsRising, Finds, search_loop-Finds}
use bf_tree.Nodes.LeafKvMeta.{LeafKvMeta}
use bf_tree.Nodes.LeafNode.{
  LeafNode, count, get_remaining_key, key_cmp, probe, position, lower_bound, linear_loop,
  linear_lower_bound,
}
use bf_tree.Nodes.LeafNode.Layout.{rest_at, first, IsRecord, IsValid}

-- The part of a key that a search in `n` compares.
abbrev pub rest_of : LeafNode → Key → Key
rest_of n key = drop n.prefix_len key

-- If the heads differ they decide, and if not the whole keys are compared.
head_first :
    (head tail whole : Ordering)
    → cmp_then head tail ≡ whole
    → (if is_eq head then whole else head) ≡ whole
head_first Ordering.lt tail whole h = h
head_first Ordering.eq tail whole h = refl
head_first Ordering.gt tail whole h = h

-- So `key_cmp` is the order of the keys behind the prefix.
pub key_cmp_lem :
    (n : LeafNode) (key : Key) (m : LeafKvMeta)
    → IsRecord n m
    → key_cmp n key m ≡ cmp (get_remaining_key n m) (rest_of n key)
unfolding key_cmp
key_cmp_lem n key m r =
    let rest = rest_of n key in
    let k : min (length key - n.prefix_len) 2 ≡ min 2 (length rest) =
      omega (arith, length-drop n.prefix_len key) in
    let t : take (min (length key - n.prefix_len) 2) rest ≡ take 2 rest = rw k (take-min 2 rest) in
    rw (t, r.preview)
      (head_first (cmp (take 2 (get_remaining_key n m)) (take 2 rest))
        (cmp (drop 2 (get_remaining_key n m)) (drop 2 rest)) (cmp (get_remaining_key n m) rest)
        (cmp_split 2 (get_remaining_key n m) rest))

probe_lem :
    (n : LeafNode) (key : Key) (mid : ℕ)
    → IsRecord n (n.slots mid)
    → probe n key mid ≡ cmp (rest_at n mid) (rest_of n key)
unfolding probe
probe_lem n key mid r = key_cmp_lem n key (n.slots mid) r

probe-IsRising : (n : LeafNode) (key : Key) → IsValid n → IsRising (probe n key) (first n) (count n)
probe-IsRising n key v = record {
  above = λ i j a b c g.
      let gi = sym (probe_lem n key i (v.records i a (omega arith))) ∙ g in
      probe_lem n key j (v.records j (omega arith) c)
      ∙ cmp-lt_swap (rest_of n key) (rest_at n j) (
          cmp-lt_trans (rest_of n key) (rest_at n i) (rest_at n j)
            (cmp-gt_swap (rest_at n i) (rest_of n key) gi) (v.sorted i j a b c));
  below = λ i j a b c g.
      let gj = sym (probe_lem n key j (v.records j (omega arith) c)) ∙ g in
      probe_lem n key i (v.records i a (omega arith))
      ∙ cmp-lt_trans (rest_at n i) (rest_at n j) (rest_of n key) (v.sorted i j a b c) gj;
}

-- Position `p` is where `key` is or belongs: the records before it have smaller keys, its own key is
-- not smaller, and the records behind it have greater keys.
pub record IsPlaceOf (n : LeafNode) (key : Key) (p : ℕ) : Type 0 where
  pub start : first n ≤ p
  pub bound : p ≤ count n
  pub smaller : (i : ℕ) → first n ≤ i → i < p → cmp (rest_at n i) (rest_of n key) ≡ Ordering.lt
  pub here : p < count n → cmp (rest_at n p) (rest_of n key) ≢ Ordering.lt
  pub greater : (i : ℕ) → p < i → i < count n → cmp (rest_at n i) (rest_of n key) ≡ Ordering.gt

-- What is behind a record that is not smaller is greater.
pub greater_behind :
    (n : LeafNode) (key : Key) (p i : ℕ)
    → IsValid n
    → first n ≤ p
    → cmp (rest_at n p) (rest_of n key) ≢ Ordering.lt
    → p < i
    → i < count n
    → cmp (rest_at n i) (rest_of n key) ≡ Ordering.gt
greater_behind n key p i v f h a b = elim (Ordering-cases (cmp (rest_at n p) (rest_of n key))) [
  | inl less ↦ absurd (h less)
  | inr (inl same) ↦
      cmp-lt_swap (rest_of n key) (rest_at n i)
        (rw (cmp-eq (rest_at n p) (rest_of n key) same) at (v.sorted p i f a b))
  | inr (inr more) ↦ cmp-lt_swap (rest_of n key) (rest_at n i) (
      cmp-lt_trans (rest_of n key) (rest_at n p) (rest_at n i)
        (cmp-gt_swap (rest_at n p) (rest_of n key) more) (v.sorted p i f a b))
]

place_of_outcome :
    (n : LeafNode) (key : Key) (o : Outcome)
    → IsValid n
    → Finds (probe n key) (first n) (count n) o
    → IsPlaceOf n key (position o)
place_of_outcome n key (found m) v f = record {
  start = f.0;
  bound = omega arith;
  smaller = λ i a b. rw (cmp-eq (rest_at n m) (rest_of n key) at_m) at (v.sorted i m a b f.1);
  here = λ a h. cc at_m;
  greater = λ i a b. greater_behind n key m i v f.0 (λ h. cc at_m) a b;
}
  where
    at_m : cmp (rest_at n m) (rest_of n key) ≡ Ordering.eq
    at_m = sym (probe_lem n key m (v.records m f.0 f.1)) ∙ f.2
place_of_outcome n key (missing l) v f = record {
  start = f.0;
  bound = f.1;
  smaller = λ i a b. sym (probe_lem n key i (v.records i a (omega arith))) ∙ f.2 i a b;
  here = λ a h. cc (sym (probe_lem n key l (v.records l f.0 a)), f.3 l (omega arith) a);
  greater = λ i a b. sym (probe_lem n key i (v.records i (omega arith) b)) ∙ f.3 i (omega arith) b;
}

-- In a valid leaf the binary search finds the place of a key.
pub lower_bound_place : (n : LeafNode) (key : Key) → IsValid n → IsPlaceOf n key (lower_bound n key)
unfolding lower_bound
lower_bound_place n key v =
    place_of_outcome n key (search_loop (probe n key) (count n) (first n) (count n)) v (
      search_loop-Finds (probe n key) (first n) (count n) (probe-IsRising n key v) (count n)
        v.fences (omega arith))

-- A key has one place.
pub place_unique :
    (n : LeafNode) (key : Key) (p q : ℕ) → IsPlaceOf n key p → IsPlaceOf n key q → p ≡ q
place_unique n key p q a b = elim (dec_lt p q) [
  | yes l ↦ absurd (a.here (omega (arith, b.bound)) (b.smaller p a.start l))
  | no l ↦ elim (dec_lt q p) [
    | yes k ↦ absurd (b.here (omega (arith, a.bound)) (a.smaller q b.start k))
    | no k ↦ omega arith
  ]
]

-- The linear search stops at the place, from any index up to it.
linear_loop_place :
    (n : LeafNode) (key : Key) (p fuel index : ℕ)
    → IsValid n
    → IsPlaceOf n key p
    → first n ≤ index
    → index ≤ p
    → count n ≤ fuel + index
    → linear_loop n key fuel index ≡ p
unfolding linear_loop
linear_loop_place n key p zero index v a f l e = omega (arith, a.bound)
linear_loop_place n key p (suc fuel) index v a f l e = elim (dec_lt index p) [
  | yes before ↦
      let t : ltb index (count n) ≡ true = ground (arith, a.bound) in
      let c : probe n key index ≡ Ordering.lt =
        probe_lem n key index (v.records index f (omega (arith, a.bound)))
        ∙ a.smaller index f before in
      rw (t, c)
        (linear_loop_place n key p fuel (index + 1) v a (omega arith) (omega arith) (omega arith))
  | no there ↦
      let same : index ≡ p = omega arith in
      elim (dec_lt index (count n)) [
        | no out ↦ let t : ltb index (count n) ≡ false = ground arith in rw t same
        | yes inside ↦
            let r = probe_lem n key index (v.records index f inside) in
            elim (Ordering-cases (probe n key index)) [
              | inl less ↦ absurd (
                  a.here (omega arith)
                    (ap (λ i. cmp (rest_at n i) (rest_of n key)) (sym same) ∙ sym r ∙ less))
              | inr (inl eq) ↦ let t : ltb index (count n) ≡ true = ground arith in rw (t, eq) same
              | inr (inr gt) ↦ let t : ltb index (count n) ≡ true = ground arith in rw (t, gt) same
            ]
      ]
]

-- In a valid leaf the binary search and the linear search find the same position, the place of the
-- key.
pub lower_bound-linear_lower_bound :
    (n : LeafNode) (key : Key)
    → IsValid n
    → IsPlaceOf n key (lower_bound n key) × (linear_lower_bound n key ≡ lower_bound n key)
unfolding linear_lower_bound
lower_bound-linear_lower_bound n key v =
    let place = lower_bound_place n key v in
    (
      place,
      linear_loop_place n key (lower_bound n key) (count n) (first n) v place (omega arith)
          place.start (omega arith),
    )
