-- ===== src/Nodes/InnerNode/Lookup.antt =====
-- `lower_bound`: the child that a key belongs to.
use mathlib.Core.List.{append-nil}
use native.Mathlib.Decide.{dec_lt}
use bf_tree.Common.{
  ℕ, ◌-◌, ◌≤◌, ◌<◌, ◌≡◌, ◌≢◌, ◌∙◌, refl, length, take, drop, min, Ordering, arith, [], ◌∷◌, ◌++◌,
  length-take, sym, is_eq, ltb, take-min, drop-min, take-append_exact, drop-append_exact, take_all,
  drop_all, Bool, true, false, ◌&&◌, ◌||◌, not, if◌then◌else◌,
}
use bf_tree.Common.Bytes.{
  Key, Memory, cmp, cmp_then, cmp_split, cmp-eq, cmp-lt_trans, cmp-gt_swap, cmp-lt_swap, read,
}
use bf_tree.Common.Search.{Outcome, found, missing, search_loop, IsRising, Finds, search_loop-Finds}
use bf_tree.Nodes.InnerNode.{
  is_empty, InnerKvMeta, InnerNode, count, prefix_key, get_post_key_ref, get_full_key, key_compare,
  probe, position, lower_bound,
}
use bf_tree.Nodes.InnerNode.Layout.{key_at, IsPlaced, IsValid}

-- A key is stored in two parts, of which the first is cut at four bytes.
record AreParts (xs ys : Key) : Type 0 where
  first : take 4 (xs ++ ys) ≡ xs
  last : drop 4 (xs ++ ys) ≡ ys

full_key_parts :
    (n : InnerNode) {low : ℕ} (m : InnerKvMeta)
    → IsPlaced low m
    → AreParts (prefix_key m) (get_post_key_ref n m)
unfolding get_post_key_ref read
full_key_parts n m p = elim (dec_lt m.key_len 4) [
  | yes short ↦
      let e : m.key_len - 4 ≡ 0 = omega arith in
      let l : length (prefix_key m) ≤ 4 =
        omega (arith, length-take {0} (min 4 m.key_len) m.key_prefix) in
      rw (e) (record {
        first = rw (append-nil (prefix_key m)) (take_all 4 (prefix_key m) l);
        last = rw (append-nil (prefix_key m)) (drop_all 4 (prefix_key m) l);
      })
  | no long ↦
      let l : length (prefix_key m) ≡ 4 =
        omega (arith, p.prefix, length-take {0} (min 4 m.key_len) m.key_prefix) in
      record {
        first = take-append_exact 4 (prefix_key m) (get_post_key_ref n m) l;
        last = drop-append_exact 4 (prefix_key m) (get_post_key_ref n m) l;
      }
]

-- The comparison of the first parts and then of the last parts is that of the whole keys.
full_key-cmp :
    (n : InnerNode) {low : ℕ} (m : InnerKvMeta) (key : Key)
    → IsPlaced low m
    → cmp_then
        (cmp (prefix_key m) (take (min 4 (length key)) key))
        (cmp (get_post_key_ref n m) (drop (min 4 (length key)) key))
      ≡ cmp (get_full_key n m) key
unfolding get_full_key get_post_key_ref
full_key-cmp n m key p =
    let parts = full_key_parts n m p in
    let split = cmp_split 4 (prefix_key m ++ get_post_key_ref n m) key in
    let split' = rw (parts.first, parts.last) at split in rw (take-min 4 key, drop-min 4 key) split'

-- `key_compare` is the order of the whole keys.
pub key_compare_lem :
    (n : InnerNode) {low : ℕ} (m : InnerKvMeta) (key : Key)
    → IsPlaced low m
    → key_compare n key m ≡ cmp (get_full_key n m) key
unfolding key_compare get_post_key_ref
key_compare_lem n m key p = ground (arith, full_key-cmp n m key p)

-- The last parts are left alone only where both are empty.
two_stage :
    (first : Ordering) (long : Bool) (rest : Ordering)
    → (long ≡ false → rest ≡ Ordering.eq)
    → (if is_eq first && long then rest else first) ≡ cmp_then first rest
two_stage Ordering.lt long rest h = refl
two_stage Ordering.gt long rest h = refl
two_stage Ordering.eq true rest h = refl
two_stage Ordering.eq false rest h = sym (h refl)

cmp_empty :
    (len : ℕ) (m : Memory) (o : ℕ) (postfix : Key)
    → (ltb 4 len || not (is_empty postfix)) ≡ false
    → cmp (read m o (len - 4)) postfix ≡ Ordering.eq
unfolding cmp read
cmp_empty len m o [] h = let e : len - 4 ≡ 0 = ground arith in rw e
cmp_empty len m o (x ∷ xs) h = ground arith

-- So is the comparison of a round of `lower_bound`, which skips the last parts if both are empty.
probe_lem :
    (n : InnerNode) {low : ℕ} (key : Key) (mid : ℕ)
    → IsPlaced low (n.slots mid)
    → probe n key mid ≡ cmp (key_at n mid) key
unfolding probe get_post_key_ref
probe_lem n key mid p =
    let m = n.slots mid in
    let postfix = drop (min 4 (length key)) key in
    two_stage (cmp (prefix_key m) (take (min 4 (length key)) key))
      (ltb 4 m.key_len || not (is_empty postfix)) (cmp (get_post_key_ref n m) postfix)
      (cmp_empty m.key_len n.bytes m.offset postfix)
    ∙ full_key-cmp n m key p

-- In a valid node the keys rise also as the search sees them.
probe-IsRising : (n : InnerNode) (key : Key) → IsValid n → IsRising (probe n key) 1 (count n)
probe-IsRising n key v = record {
  above = λ i j a b c g.
      let gi = sym (probe_lem n key i (v.placed i (omega arith))) ∙ g in
      probe_lem n key j (v.placed j c)
      ∙ cmp-lt_swap key (key_at n j) (
          cmp-lt_trans key (key_at n i) (key_at n j) (cmp-gt_swap (key_at n i) key gi)
            (v.sorted i j a b c));
  below = λ i j a b c g.
      let gj = sym (probe_lem n key j (v.placed j c)) ∙ g in
      probe_lem n key i (v.placed i (omega arith))
      ∙ cmp-lt_trans (key_at n i) (key_at n j) key (v.sorted i j a b c) gj;
}

-- Position `p` is where `key` belongs: the keys up to `p` are not greater, all smaller but perhaps
-- that at `p`, and the keys behind it are greater.
pub record IsPlaceOf (n : InnerNode) (key : Key) (p : ℕ) : Type 0 where
  pub bound : p < count n
  pub smaller : (i : ℕ) → 1 ≤ i → i < p → cmp (key_at n i) key ≡ Ordering.lt
  pub here : 1 ≤ p → cmp (key_at n p) key ≢ Ordering.gt
  pub greater : (i : ℕ) → p < i → i < count n → cmp (key_at n i) key ≡ Ordering.gt

place_of_outcome :
    (n : InnerNode) (key : Key) (o : Outcome)
    → IsValid n
    → Finds (probe n key) 1 (count n) o
    → IsPlaceOf n key (position o)
place_of_outcome n key (found m) v f = record {
  bound = f.1;
  smaller = λ i a b. rw (cmp-eq (key_at n m) key at_m) at (v.sorted i m a b f.1);
  here = λ a h. cc at_m;
  greater = λ i a b.
      cmp-lt_swap key (key_at n i) (rw (cmp-eq (key_at n m) key at_m) at (v.sorted m i f.0 a b));
}
  where
    at_m : cmp (key_at n m) key ≡ Ordering.eq
    at_m = sym (probe_lem n key m (v.placed m f.1)) ∙ f.2
place_of_outcome n key (missing l) v f = record {
  bound = omega arith;
  smaller = λ i a b. sym (probe_lem n key i (v.placed i (omega arith))) ∙ f.2 i a (omega arith);
  here = λ a h.
      cc (
        sym (probe_lem n key (l - 1) (v.placed (l - 1) (omega arith))),
        f.2 (l - 1) a (omega arith),
      );
  greater = λ i a b. sym (probe_lem n key i (v.placed i b)) ∙ f.3 i (omega arith) b;
}

-- In a valid node `lower_bound` finds the place of a key: the slot whose child covers the key.
pub lower_bound_lem : (n : InnerNode) (key : Key) → IsValid n → IsPlaceOf n key (lower_bound n key)
unfolding lower_bound
lower_bound_lem n key v =
    place_of_outcome n key (search_loop (probe n key) (count n) 1 (count n)) v (
      search_loop-Finds (probe n key) 1 (count n) (probe-IsRising n key v) (count n) v.dummy
        (omega arith))
