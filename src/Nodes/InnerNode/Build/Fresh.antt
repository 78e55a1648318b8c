-- ===== src/Nodes/InnerNode/Build/Fresh.antt =====
-- A node just made: `reinitialize` and `build`.
use native.Mathlib.Nat.{add-zero}
use bf_tree.Common.{
  u16, ℕ, ◌+◌, ◌-◌, ◌<◌, ◌^◌, ◌≡◌, ◌∙◌, refl, length, Option, none, some, Bool, true, false, List,
  [], ◌∷◌, arith, ap, sym, subst, some-injective, bind-some, none-ne-some, check, not, ◌>>=◌, ◌⊎◌,
  inl, inr, Bool-cases,
}
use bf_tree.Common.Bits.{test_bit}
use bf_tree.Common.Bytes.{Key, from_le-le_bytes, length-le_bytes, read-write_self}
use bf_tree.Nodes.PageId.{PageId, from_raw}
use bf_tree.Nodes.NodeMeta
use bf_tree.Nodes.NodeMeta.{NodeMeta}
use bf_tree.Nodes.InnerNode.{
  InnerNode, count, max_data_size, current_lowest_offset, get_full_key, get_post_key_ref, get_value,
  id_bytes, insert, lower_bound,
}
use bf_tree.Nodes.InnerNode.Layout.{child_at, IsValid}
use bf_tree.Nodes.InnerNode.Lookup.{lower_bound_lem}
use bf_tree.Nodes.InnerNode.Routing.{route, insert-Inserts}
use bf_tree.Nodes.InnerNode.Build.{
  put_left_most, reinitialize, InnerNodeBuilder, insert_all, build, set_snapshot_version,
}

-- What `NodeMeta::new` gives `reinitialize`.
abbrev IsFreshMeta : NodeMeta → Type 0
IsFreshMeta m = (m.encoded ≡ 0) ⊎ (m.encoded ≡ 8192)

module _ (n : InnerNode) (left : PageId) (fresh : IsFreshMeta n.meta)
    (space : n.meta.remaining_size ≡ max_data_size) (word : left.value < 2 ^ 64) where
  made : InnerNode
  made = put_left_most n left

  made-count :
      (count made ≡ 1)
      × (made.meta.remaining_size ≡ max_data_size - 16)
      × (made.meta.encoded < 65536)
  unfolding made put_left_most NodeMeta.meta_count_with_fence NodeMeta.increment_value_count
  made-count = ground arith

  made-offset :
      ((made.slots 0).offset ≡ max_data_size - 8)
      × ((made.slots 0).key_len ≡ 0)
      × (length (made.slots 0).key_prefix ≡ 4)
  unfolding made put_left_most current_lowest_offset NodeMeta.meta_count_with_fence
  made-offset = ground arith

  made-child : child_at made 0 ≡ left
  unfolding made put_left_most get_value from_raw
  made-child =
      let o = u16 (current_lowest_offset n + 65536 - 8) in
      let g : length (id_bytes left) ≡ 8 = length-le_bytes 8 left.value in
      let back = rw g at (read-write_self n.bytes o (id_bytes left)) in
      rw (add-zero, back, from_le-le_bytes left.value word)

  made-IsValid : IsValid made
  made-IsValid = record {
    word = made-count.2;
    dummy = omega (arith, made-count);
    room = omega (arith, made-count);
    placed = λ i h.
        let e : i ≡ 0 = omega (arith, made-count) in
        rw e (record {
          prefix = made-offset.2;
          above = omega (arith, made-offset, made-count);
          inside = omega (arith, made-offset);
        });
    apart = λ i j a b. absurd (omega (arith, made-count));
    sorted = λ i j l a b. absurd (omega (arith, made-count));
  }

  made-routes : (k : Key) → route made k ≡ left
  made-routes k =
      let b = (lower_bound_lem made k made-IsValid).bound in
      let e : lower_bound made k ≡ 0 = omega (arith, b, made-count) in
      ap (child_at made) e ∙ made-child

fresh_meta :
    (leaf : Bool) (m : NodeMeta)
    → NodeMeta.new max_data_size leaf false 4096 false ≡ some m
    → IsFreshMeta m × (m.remaining_size ≡ max_data_size)
unfolding NodeMeta.new
fresh_meta true m h = ground arith
fresh_meta false m h = ground arith

-- `reinitialize` never panics.
pub reinitialize-some :
    (n : InnerNode) (left : PageId) (leaf : Bool) (offset : ℕ)
    → (n' : InnerNode) × (reinitialize n left leaf offset ≡ some n')
unfolding reinitialize NodeMeta.new
reinitialize-some n left true offset = (_, refl)
reinitialize-some n left false offset = (_, refl)

-- A node that `reinitialize` has made is valid, and sends every key to the left-most child.
pub reinitialize_lem :
    (n : InnerNode) (left : PageId) (leaf : Bool) (offset : ℕ) (n' : InnerNode)
    → left.value < 2 ^ 64
    → reinitialize n left leaf offset ≡ some n'
    → IsValid n' × (count n' ≡ 1) × ((k : Key) → route n' k ≡ left)
unfolding reinitialize
reinitialize_lem n left leaf offset n' word h =
    go (NodeMeta.new max_data_size leaf false 4096 false) refl h
  where
    go :
        (o : Option NodeMeta)
        → NodeMeta.new max_data_size leaf false 4096 false ≡ o
        → (o >>= λ m. some (put_left_most (record n { meta = m; disk_offset = offset }) left))
          ≡ some n'
        → IsValid n' × (count n' ≡ 1) × ((k : Key) → route n' k ≡ left)
    go none e h = cc
    go (some m) e h =
        let f = fresh_meta leaf m e in
        let node : InnerNode = record n { meta = m; disk_offset = offset } in
        let same : put_left_most node left ≡ n' = some-injective _ _ h in
        subst (λ x. IsValid x × (count x ≡ 1) × ((k : Key) → route x k ≡ left)) same
          (unfold made in
            (
              made-IsValid node left f.0 f.1 word,
              (made-count node left f.0 f.1 word).0,
              made-routes node left f.0 f.1 word,
            ))

-- The records of a builder fit in memory words.
abbrev pub AreWords : List (Key × PageId) → Type 0
AreWords [] = Unit
AreWords ((key, child) ∷ rest) = (length key < 65520) × (child.value < 2 ^ 64) × AreWords rest

insert_all-IsValid :
    (records : List (Key × PageId)) (n n' : InnerNode)
    → IsValid n
    → AreWords records
    → insert_all n records ≡ some n'
    → IsValid n'
unfolding insert_all
insert_all-IsValid [] n n' v w h = subst IsValid (some-injective _ _ h) v
insert_all-IsValid ((key, child) ∷ rest) n n' v w h =
    let r = insert-Inserts n key child v w.0 w.1 in
    elim (Bool-cases (insert n key child).0) [
      | inl done ↦
          insert_all-IsValid rest (insert n key child).1 n' (r.1 done).valid w.2 (rw done at h)
      | inr full ↦ none-ne-some (rw full at h)
    ]

with_version : (n : InnerNode) (s : ℕ) → IsValid n → IsValid (record n { snapshot_version = s })
unfolding get_full_key get_post_key_ref
with_version n s v = record {
  word = v.word;
  dummy = v.dummy;
  room = v.room;
  placed = v.placed;
  apart = v.apart;
  sorted = v.sorted;
}

-- A version does not touch what `IsValid` speaks of.
set_snapshot_version-IsValid :
    (n n' : InnerNode) (version : ℕ)
    → IsValid n
    → set_snapshot_version n version ≡ some n'
    → IsValid n'
unfolding set_snapshot_version
set_snapshot_version-IsValid n n' version v h =
    let (_, _, e) = bind-some (check (not (test_bit version 63))) _ h in
    subst IsValid (some-injective _ _ e) (with_version n _ v)

-- Whatever `build` returns is a valid node, whatever the memory held before.
pub build-IsValid :
    (raw : InnerNode) (b : InnerNodeBuilder) (version : ℕ) (left : PageId) (n' : InnerNode)
    → b.left_most_page_id ≡ some left
    → left.value < 2 ^ 64
    → AreWords b.records
    → build raw b version ≡ some n'
    → IsValid n'
unfolding build
build-IsValid raw b version left n' l word w h =
    let (left', l', h1) = bind-some b.left_most_page_id _ h in
    let (leaf, _, h2) = bind-some b.children_is_leaf _ h1 in
    let (n1, fresh, h3) =
      bind-some (reinitialize (record raw { snapshot_version = 0 }) left' leaf _) _ h2 in
    let (n2, all, h4) = bind-some (insert_all n1 b.records) _ h3 in
    let same : left ≡ left' = some-injective _ _ (sym l ∙ l') in
    let word' = subst (λ (p : PageId). p.value < 2 ^ 64) same word in
    let v1 =
      (reinitialize_lem (record raw { snapshot_version = 0 }) left' leaf _ n1 word' fresh).0 in
    set_snapshot_version-IsValid n2 n' version (insert_all-IsValid b.records n1 n2 v1 w all) h4
