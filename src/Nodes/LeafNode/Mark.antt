-- ===== src/Nodes/LeafNode/Mark.antt =====
-- A read marks a slot as referenced, and changes nothing else of a leaf.
use native.Mathlib.Decide.{dec_lt}
use bf_tree.Common.{
  ℕ, ◌≤◌, ◌<◌, ◌≡◌, ◌∙◌, inl, inr, refl, ap, sym, arith, Bool, true, false, Bool-cases, leb,
  Ordering-cases,
}
use bf_tree.Common.Bytes.{Key, cmp, cmp_refl, cmp-eq}
use bf_tree.Common.Shift.{put_at}
use bf_tree.Nodes.LeafKvMeta.{
  LeafKvMeta, value_len, get_key_len, op_type, mark_as_ref, is_referenced,
}
use bf_tree.Nodes.LeafNode.{
  LeafNode, count, get_remaining_key, get_value, lower_bound, read_by_key, read_by_key_inner,
}
use bf_tree.Nodes.LeafNode.Layout.{rest_at, first, IsValid}
use bf_tree.Nodes.LeafNode.Lookup.{rest_of, lower_bound_place, lower_bound-linear_lower_bound}
use bf_tree.Nodes.LeafNode.Records.{shown, read_at}
use bf_tree.Nodes.LeafNode.Replace.{
  IsReplacement, replaced-IsValid, read-replaced, read-replaced_other,
}

mark-value_len : (m : LeafKvMeta) → value_len (mark_as_ref m) ≡ value_len m
unfolding value_len mark_as_ref
mark-value_len m = ground arith

-- A leaf that reads like `n`, and is `n` but for its slots.
pub record ReadsLike (n n' : LeafNode) : Type 0 where
  pub valid : IsValid n'
  pub same : (key : Key) → (read_by_key n' key).0 ≡ (read_by_key n key).0
  pub same_rest : n' ≡ record n { slots = n'.slots }

pub reads_like : (n : LeafNode) → IsValid n → ReadsLike n n
reads_like n v = record { valid = v; same = λ key. refl; same_rest = refl }

module _ (n : LeafNode) (v : IsValid n) (pos : ℕ) (s : first n ≤ pos) (l : pos < count n) where
  abbrev m : LeafKvMeta
  m = n.slots pos

  abbrev marked : LeafNode
  marked = record n { slots = put_at n.slots pos (mark_as_ref m) }

  mark-IsReplacement : IsReplacement n pos (mark_as_ref m) n.bytes n.meta.remaining_size
  unfolding get_remaining_key mark_as_ref get_key_len
  mark-IsReplacement =
      let here = v.records pos s l in
      let e = mark-value_len m in
      record {
        start = s;
        inside = l;
        lower = omega arith;
        fits = record {
          prefixed = here.prefixed;
          above = here.above;
          inside = omega (arith, here.inside, e);
          preview = here.preview;
        };
        same_key = refl;
        apart = λ i a b h. elim (dec_lt i pos) [
          | yes k ↦ elim (v.apart i pos a k l) [ inl p ↦ inl p | inr p ↦ inr (omega (arith, p, e)) ]
          | no k ↦ elim (v.apart pos i s (omega arith) b) [
            | inl p ↦ inr (omega (arith, p, e))
            | inr p ↦ inl p
          ]
        ];
        kept = λ i a p q h c d. refl;
      }

  shown-mark_as_ref : shown marked (mark_as_ref m) ≡ shown n m
  unfolding get_value mark_as_ref op_type get_key_len
  shown-mark_as_ref = rw (mark-value_len m) refl

  marked-ReadsLike : ReadsLike n marked
  marked-ReadsLike =
      let r = mark-IsReplacement in
      record {
        valid = replaced-IsValid n pos (mark_as_ref m) n.bytes n.meta.remaining_size v r;
        same = λ key. elim (Ordering-cases (cmp (rest_at n pos) (rest_of n key))) [
          | inr (inl eq) ↦
              let e = cmp-eq (rest_at n pos) (rest_of n key) eq in
              read-replaced n pos (mark_as_ref m) n.bytes n.meta.remaining_size v r key e
              ∙ shown-mark_as_ref
              ∙ sym (read_at n key pos v s l e)
          | inl less ↦
              read-replaced_other n pos (mark_as_ref m) n.bytes n.meta.remaining_size v r key
                (λ e. cc (less, cmp_refl (rest_of n key), ap (λ k. cmp k (rest_of n key)) e))
          | inr (inr gt) ↦
              read-replaced_other n pos (mark_as_ref m) n.bytes n.meta.remaining_size v r key
                (λ e. cc (gt, cmp_refl (rest_of n key), ap (λ k. cmp k (rest_of n key)) e))
        ];
        same_rest = refl;
      }

-- Both searches read the same.
pub read_by_key_inner-read_by_key :
    (n : LeafNode) (key : Key) (binary_search : Bool)
    → IsValid n
    → read_by_key_inner n key binary_search ≡ read_by_key n key
unfolding read_by_key read_by_key_inner
read_by_key_inner-read_by_key n key true v = refl
read_by_key_inner-read_by_key n key false v = rw (lower_bound-linear_lower_bound n key v).1 refl

-- A read leaves a valid leaf that reads the same for every key.
pub read_by_key-ReadsLike :
    (n : LeafNode) (key : Key) → IsValid n → ReadsLike n (read_by_key n key).1
unfolding read_by_key read_by_key_inner
read_by_key-ReadsLike n key v =
    let pos = lower_bound n key in
    elim (Bool-cases (leb (count n) pos)) [
      | inl out ↦ rw out (reads_like n v)
      | inr inside ↦ elim (Bool-cases (is_referenced (n.slots pos))) [
        | inl before ↦ rw (inside, before) (reads_like n v)
        | inr first_time ↦
            rw (inside, first_time)
              (marked-ReadsLike n v pos (lower_bound_place n key v).start (ground (arith, inside)))
      ]
    ]
