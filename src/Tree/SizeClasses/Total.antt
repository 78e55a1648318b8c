-- ===== src/Tree/SizeClasses/Total.antt =====
-- When `create_mem_page_size_classes` ends without a panic.
use bf_tree.Common.{
  ℕ, suc, ◌+◌, ◌*◌, ◌/◌, ◌%◌, ◌^◌, ◌≤◌, ◌≡◌, refl, inl, inr, arith, List, [], ◌∷◌, ◌++◌, some, Bool,
  true, false, Bool-cases, not, ◌||◌, ltb, leb, length-append,
}
use bf_tree.Tree.SizeClasses.{
  Sizes, check_parameters, max_mini_page_size, size_class, size_classes_from, push_greater,
  is_empty, is_multiple_of, page_unit, enough_classes, create_mem_page_size_classes,
}
use bf_tree.Tree.SizeClasses.Order.{push_greater-IsPushed}
use bf_tree.Tree.SizeClasses.Loop.{size_class_lem, size_classes_from-keeps}
use bf_tree.Tree.SizeClasses.Guarantees.{
  max_mini_page_size-IsLimit, AreChecked, AreChecked-aligned, IsClasses, assembled,
}

check_parameters-some : (c : Sizes) → AreChecked c → check_parameters c ≡ some tt
check_parameters-some c v =
    let a1 : ltb 1 c.min_record_size ≡ true = ground (arith, v.some_bytes) in
    let a2 : leb c.min_record_size c.max_record_size ≡ true = ground (arith, v.least_first) in
    let a3 : ltb 0 c.max_fence_len ≡ true = ground (arith, v.some_fence) in
    let a4 : ltb (c.max_fence_len / 2) c.max_record_size ≡ true =
      ground (arith, v.key_below_record) in
    let a5 : leb c.leaf_page_size 32768 ≡ true = ground (arith, v.leaf_bound) in
    let a6 : leb (c.max_fence_len / 2) 2020 ≡ true = ground (arith, v.key_bound) in
    let a7 : leb (c.leaf_page_size / c.min_record_size) 4096 ≡ true =
      ground (arith, v.record_bound) in
    let a8 : is_multiple_of c.leaf_page_size (page_unit c) ≡ true = ground (arith, v.whole_pages) in
    rw (a1, a2, a3, a4, a5, a6, a7, a8) refl

-- With pages on disk there is a class of mini pages.
some_class :
    (c : Sizes) (limit : ℕ)
    → c.min_record_size ≤ c.max_record_size
    → limit % 64 ≡ 0
    → c.max_record_size + 8 + 32 ≤ limit
    → is_empty (size_classes_from (suc limit) c limit 0 []) ≡ false
unfolding size_classes_from
some_class c limit order whole room =
    let (aligned, _, tight) = size_class_lem c 0 in
    let first : 2 ^ 0 * (c.min_record_size + 8) ≡ c.min_record_size + 8 = omega arith in
    let small : size_class c 0 ≤ limit = omega (arith, aligned, tight, first, order, whole, room) in
    let test : leb (size_class c 0) limit ≡ true = ground (arith, small) in
    let (w, n) =
      push_greater-IsPushed limit (size_class c 0) []
        (record { ascending = tt; aligned = tt; bounded = tt }) aligned small in
    rw test (size_classes_from-keeps limit c limit 1 (push_greater [] (size_class c 0)) w n)

unless_empty : (m e : Bool) → (m ≡ false → e ≡ false) → (m || not e) ≡ true
unless_empty true e h = refl
unless_empty false e h = rw (h refl) refl

two_classes :
    (c : Sizes) (y : ℕ) (ys : List ℕ)
    → enough_classes c (y ∷ (ys ++ (c.leaf_page_size ∷ []))) ≡ true
two_classes c y ys = elim (Bool-cases c.cache_only) [
  | inl mode ↦ rw mode refl
  | inr mode ↦ let l = length-append ys (c.leaf_page_size ∷ []) in rw mode (ground (arith, l))
]

-- If the parameters pass their assertions and the greatest mini page passes its own, no later assertion
-- fails, and the classes have their guarantees.
pub create_mem_page_size_classes-some :
    (c : Sizes) (limit : ℕ)
    → AreChecked c
    → max_mini_page_size c ≡ some limit
    → (classes : List ℕ) × (create_mem_page_size_classes c ≡ some classes) × IsClasses c classes
unfolding create_mem_page_size_classes
create_mem_page_size_classes-some c limit v e =
    let w = max_mini_page_size-IsLimit c limit e in
    let minis = size_classes_from (suc limit) c limit 0 [] in
    let all = push_greater (push_greater minis limit) c.leaf_page_size in
    let r = assembled c limit (AreChecked-aligned c v) w e in
    let some_mini =
      unless_empty c.cache_only (is_empty minis)
        (λ mode. some_class c limit v.least_first w.aligned (w.holds mode)) in
    let two : enough_classes c all ≡ true = rw r.all (two_classes c r.least r.minis) in
    (all, rw (check_parameters-some c v, e, some_mini, two) refl, r)
