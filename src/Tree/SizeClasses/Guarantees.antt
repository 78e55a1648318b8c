-- ===== src/Tree/SizeClasses/Guarantees.antt =====
-- The conditions under which a mini page is always merged or split: those that the comment on
-- `create_mem_page_size_classes` lists.
use bf_tree.Common.{
  ℕ, suc, ◌+◌, ◌-◌, ◌*◌, ◌/◌, ◌%◌, ◌≤◌, ◌<◌, ◌≡◌, ◌∙◌, sym, subst, inl, inr, arith, List, [], ◌∷◌,
  ◌++◌, some, some-injective, bind-some, check-some, check-then, Bool, true, false, Bool-cases,
  if◌then◌else◌, not, ◌||◌, ltb, leb,
}
use bf_tree.Tree.SizeClasses.{
  Sizes, check_parameters, cache_only_limit, disk_limit, max_mini_page_size,
  max_record_size_with_meta, whole_lines, checked_sub, is_multiple_of, size_classes_from,
  push_greater, is_empty, last_of, page_unit, enough_classes, create_mem_page_size_classes,
}
use bf_tree.Tree.SizeClasses.Order.{
  Ascending, Aligned, IsPushed, push_greater-IsPushed, push_greater-limit, push_greater_more,
}
use bf_tree.Tree.SizeClasses.Loop.{size_classes_from-IsPushed}

-- What the greatest mini page leaves of a leaf page, by the mode.
pub record IsLimit (c : Sizes) (limit : ℕ) : Type 0 where
  pub aligned : limit % 64 ≡ 0
  pub below : limit < c.leaf_page_size
  pub grows : c.max_record_size + 8 + limit ≤ c.leaf_page_size
  pub splits : c.cache_only ≡ true → 2 * (c.max_record_size + 8) + 32 ≤ c.leaf_page_size
  pub holds : c.cache_only ≡ false → c.max_record_size + 8 + 32 ≤ limit
  pub merges :
      c.cache_only ≡ false
      → c.max_record_size + 8 + (2 * 8 + c.max_fence_len) + limit ≤ c.leaf_page_size

checked_sub-some : (a b : ℕ) {n : ℕ} → checked_sub a b ≡ some n → (b ≤ a) × (n ≡ a - b)
checked_sub-some a b e =
    let (k, f) = check-then (leb b a) (some (a - b)) e in
    (ground (arith, k), sym (some-injective _ _ f))

whole_lines_lem : (n : ℕ) → (whole_lines n % 64 ≡ 0) × (whole_lines n ≤ n)
whole_lines_lem n = (omega arith, omega arith)

cache_only_limit-IsLimit :
    (c : Sizes) (limit : ℕ)
    → c.cache_only ≡ true
    → cache_only_limit c ≡ some limit
    → IsLimit c limit
unfolding cache_only_limit
cache_only_limit-IsLimit c limit mode e =
    let (rest, r, e1) =
      bind-some (checked_sub c.leaf_page_size (max_record_size_with_meta c)) _ e in
    let (k, e2) =
      check-then (leb (2 * max_record_size_with_meta c + 32) c.leaf_page_size)
        (some (whole_lines rest)) e1 in
    let (b, n) = checked_sub-some c.leaf_page_size (max_record_size_with_meta c) r in
    let large : 2 * (c.max_record_size + 8) + 32 ≤ c.leaf_page_size = ground (arith, k) in
    let (a, l) = whole_lines_lem rest in
    subst (IsLimit c) (some-injective _ _ e2) (record {
      aligned = a;
      below = omega (arith, n, l, b);
      grows = omega (arith, n, l, b);
      splits = λ m. large;
      holds = λ m. absurd (differ (sym mode ∙ m));
      merges = λ m. absurd (differ (sym mode ∙ m));
    })
  where
    differ : true ≡ false → ⊥
    differ h = cc

disk_limit-IsLimit :
    (c : Sizes) (limit : ℕ) → c.cache_only ≡ false → disk_limit c ≡ some limit → IsLimit c limit
unfolding disk_limit
disk_limit-IsLimit c limit mode e =
    let (x, r1, e1) = bind-some (checked_sub c.leaf_page_size (max_record_size_with_meta c)) _ e in
    let (y, r2, e2) = bind-some (checked_sub x c.max_fence_len) _ e1 in
    let (rest, r3, e3) = bind-some (checked_sub y 16) _ e2 in
    let (k, e4) =
      check-then (leb (max_record_size_with_meta c + 32) (whole_lines rest))
        (some (whole_lines rest)) e3 in
    let (b1, n1) = checked_sub-some c.leaf_page_size (max_record_size_with_meta c) r1 in
    let (b2, n2) = checked_sub-some x c.max_fence_len r2 in
    let (b3, n3) = checked_sub-some y 16 r3 in
    let large : c.max_record_size + 8 + 32 ≤ whole_lines rest = ground (arith, k) in
    let (a, l) = whole_lines_lem rest in
    subst (IsLimit c) (some-injective _ _ e4) (record {
      aligned = a;
      below = omega (arith, n1, n2, n3, l, b1, b2, b3);
      grows = omega (arith, n1, n2, n3, l, b1, b2, b3);
      splits = λ m. absurd (differ (sym m ∙ mode));
      holds = λ m. large;
      merges = λ m. omega (arith, n1, n2, n3, l, b1, b2, b3);
    })
  where
    differ : true ≡ false → ⊥
    differ h = cc

pub max_mini_page_size-IsLimit :
    (c : Sizes) (limit : ℕ) → max_mini_page_size c ≡ some limit → IsLimit c limit
unfolding cache_only_limit disk_limit
max_mini_page_size-IsLimit c limit e = elim (Bool-cases c.cache_only) [
  | inl mode ↦ cache_only_limit-IsLimit c limit mode (rw mode at e)
  | inr mode ↦ disk_limit-IsLimit c limit mode (rw mode at e)
]

-- The size classes of a tree: those of the mini pages, of which `limit` is the last, and the leaf page.
pub record IsClasses (c : Sizes) (classes : List ℕ) : Type 0 where
  pub least : ℕ
  pub minis : List ℕ
  pub limit : ℕ
  pub all : classes ≡ (least ∷ minis) ++ (c.leaf_page_size ∷ [])
  pub last_mini : last_of least minis ≡ limit
  pub ascending : Ascending classes
  pub aligned : Aligned classes
  pub guarantees : IsLimit c limit
  pub computed : max_mini_page_size c ≡ some limit

-- What the assertions on the parameters say.
pub record AreChecked (c : Sizes) : Type 0 where
  pub some_bytes : 1 < c.min_record_size
  pub least_first : c.min_record_size ≤ c.max_record_size
  pub some_fence : 0 < c.max_fence_len
  pub key_below_record : c.max_fence_len / 2 < c.max_record_size
  pub leaf_bound : c.leaf_page_size ≤ 32768
  pub key_bound : c.max_fence_len / 2 ≤ 2020
  pub record_bound : c.leaf_page_size / c.min_record_size ≤ 4096
  pub whole_pages : c.leaf_page_size % page_unit c ≡ 0

pub check_parameters-AreChecked : (c : Sizes) → check_parameters c ≡ some tt → AreChecked c
check_parameters-AreChecked c e =
    let (a1, e1) = check-then (ltb 1 c.min_record_size) _ e in
    let (a2, e2) = check-then (leb c.min_record_size c.max_record_size) _ e1 in
    let (a3, e3) = check-then (ltb 0 c.max_fence_len) _ e2 in
    let (a4, e4) = check-then (ltb (c.max_fence_len / 2) c.max_record_size) _ e3 in
    let (a5, e5) = check-then (leb c.leaf_page_size 32768) _ e4 in
    let (a6, e6) = check-then (leb (c.max_fence_len / 2) 2020) _ e5 in
    let (a7, e7) = check-then (leb (c.leaf_page_size / c.min_record_size) 4096) _ e6 in
    let a8 = check-some (is_multiple_of c.leaf_page_size (page_unit c)) e7 in
    record {
      some_bytes = ground (arith, a1);
      least_first = ground (arith, a2);
      some_fence = ground (arith, a3);
      key_below_record = ground (arith, a4);
      leaf_bound = ground (arith, a5);
      key_bound = ground (arith, a6);
      record_bound = ground (arith, a7);
      whole_pages = ground (arith, a8);
    }

-- The leaf page is whole cache lines.
pub AreChecked-aligned : (c : Sizes) → AreChecked c → c.leaf_page_size % 64 ≡ 0
AreChecked-aligned c v = by_mode c.cache_only v.whole_pages
  where
    by_mode :
        (m : Bool) → c.leaf_page_size % (if m then 64 else 4096) ≡ 0 → c.leaf_page_size % 64 ≡ 0
    by_mode true h = h
    by_mode false h = omega (arith, h)

pub assembled :
    (c : Sizes) (limit : ℕ)
    → c.leaf_page_size % 64 ≡ 0
    → IsLimit c limit
    → max_mini_page_size c ≡ some limit
    → IsClasses c (
        push_greater
          (push_greater (size_classes_from (suc limit) c limit 0 []) limit)
          c.leaf_page_size)
assembled c limit a v m =
    let minis = size_classes_from (suc limit) c limit 0 [] in
    let w =
      size_classes_from-IsPushed (suc limit) c limit 0 []
        (record { ascending = tt; aligned = tt; bounded = tt }) in
    let (y, ys, n, l) = push_greater-limit limit minis w in
    let p = (push_greater-IsPushed limit limit minis w v.aligned (omega arith)).0 in
    let q : IsPushed c.leaf_page_size (push_greater minis limit) = record {
      ascending = p.ascending;
      aligned = p.aligned;
      bounded = rw n (omega (arith, l, v.below));
    } in
    let r =
      (push_greater-IsPushed c.leaf_page_size c.leaf_page_size (push_greater minis limit) q a
        (omega arith)).0 in
    record {
      least = y;
      minis = ys;
      limit = limit;
      all = rw n (push_greater_more c.leaf_page_size y ys (omega (arith, l, v.below)));
      last_mini = l;
      ascending = r.ascending;
      aligned = r.aligned;
      guarantees = v;
      computed = m;
    }

-- The size classes rise, are whole cache lines and end with the leaf page; behind the greatest mini page
-- the leaf page has room for a record of the greatest size, and with pages on disk for the fences
-- too; with pages on disk a record of the greatest size fits into the greatest mini page, and in
-- cache-only mode two of them fit into a leaf page.
pub create_mem_page_size_classes-IsClasses :
    (c : Sizes) (classes : List ℕ)
    → create_mem_page_size_classes c ≡ some classes
    → IsClasses c classes
unfolding create_mem_page_size_classes
create_mem_page_size_classes-IsClasses c classes e =
    let (_, p, e1) = bind-some (check_parameters c) _ e in
    let (limit, l, e2) = bind-some (max_mini_page_size c) _ e1 in
    let minis = size_classes_from (suc limit) c limit 0 [] in
    let all = push_greater (push_greater minis limit) c.leaf_page_size in
    let (_, e3) = check-then (c.cache_only || not (is_empty minis)) _ e2 in
    let (_, e4) = check-then (enough_classes c all) (some all) e3 in
    subst (IsClasses c) (some-injective _ _ e4) (
      assembled c limit (AreChecked-aligned c (check_parameters-AreChecked c p))
        (max_mini_page_size-IsLimit c limit l) l)
