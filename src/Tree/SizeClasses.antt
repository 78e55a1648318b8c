-- ===== src/Tree/SizeClasses.antt =====
-- src/tree.rs: `BfTree::create_mem_page_size_classes`, the sizes of pages in memory. `none` is a panic,
-- also of a subtraction below 0, as in a build with overflow checks.
pub mod Order
pub mod Loop
pub mod Guarantees
pub mod Total
use bf_tree.Common.{
  ℕ, zero, suc, ◌+◌, ◌-◌, ◌*◌, ◌/◌, ◌%◌, ◌^◌, Bool, true, false, Option, none, some, List, [], ◌∷◌,
  ◌++◌, length, if◌then◌else◌, not, ◌||◌, ltb, leb, ◌==◌, ◌>>=◌, ◌>>◌, check,
}

-- `MAX_LEAF_PAGE_SIZE`
abbrev pub max_leaf_page_size : ℕ
max_leaf_page_size = 32768

-- `MAX_KEY_LEN`
abbrev pub max_key_len : ℕ
max_key_len = 2020

-- `DISK_PAGE_SIZE`
abbrev pub disk_page_size : ℕ
disk_page_size = 4096

-- `CACHE_LINE_SIZE`
abbrev pub cache_line_size : ℕ
cache_line_size = 64

-- `size_of::<LeafKVMeta>()`
abbrev pub size_of_leaf_kv_meta : ℕ
size_of_leaf_kv_meta = 8

-- `size_of::<LeafNode>()`
abbrev pub size_of_leaf_node : ℕ
size_of_leaf_node = 32

-- A subtraction of `usize`, checked.
abbrev pub checked_sub : ℕ → ℕ → Option ℕ
checked_sub a b = check (leb b a) >> some (a - b)

abbrev pub is_multiple_of : ℕ → ℕ → Bool
is_multiple_of n d = n % d == 0

-- The part of the configuration that the sizes depend on.
pub record Sizes : Type 0 where
  pub min_record_size : ℕ
  pub max_record_size : ℕ
  pub leaf_page_size : ℕ
  pub max_fence_len : ℕ
  pub cache_only : Bool

-- What a leaf page is made of.
abbrev pub page_unit : Sizes → ℕ
page_unit c = if c.cache_only then cache_line_size else disk_page_size

-- The assertions on the parameters.
abbrev pub check_parameters : Sizes → Option (Unit {0})
check_parameters c = do
  check (ltb 1 c.min_record_size)
  check (leb c.min_record_size c.max_record_size)
  check (ltb 0 c.max_fence_len)
  check (ltb (c.max_fence_len / 2) c.max_record_size)
  check (leb c.leaf_page_size max_leaf_page_size)
  check (leb (c.max_fence_len / 2) max_key_len)
  check (leb (c.leaf_page_size / c.min_record_size) 4096)
  check (is_multiple_of c.leaf_page_size (page_unit c))

abbrev pub max_record_size_with_meta : Sizes → ℕ
max_record_size_with_meta c = c.max_record_size + size_of_leaf_kv_meta

abbrev pub whole_lines : ℕ → ℕ
whole_lines n = n / cache_line_size * cache_line_size

-- `max_mini_page_size` with the assertion that follows it, in cache-only mode
unfoldable pub cache_only_limit : Sizes → Option ℕ
cache_only_limit c = do
  rest ← checked_sub c.leaf_page_size (max_record_size_with_meta c)
  check (leb (2 * max_record_size_with_meta c + size_of_leaf_node) c.leaf_page_size)
  some (whole_lines rest)

-- The same with pages on disk
unfoldable pub disk_limit : Sizes → Option ℕ
disk_limit c = do
  a ← checked_sub c.leaf_page_size (max_record_size_with_meta c)
  b ← checked_sub a c.max_fence_len
  rest ← checked_sub b (2 * size_of_leaf_kv_meta)
  check (leb (max_record_size_with_meta c + size_of_leaf_node) (whole_lines rest))
  some (whole_lines rest)

abbrev pub max_mini_page_size : Sizes → Option ℕ
max_mini_page_size c = if c.cache_only then cache_only_limit c else disk_limit c

-- A page for 2 ^ e of the least records, in whole cache lines.
unfoldable pub size_class : Sizes → ℕ → ℕ
size_class c e =
    let size = 2 ^ e * (c.min_record_size + size_of_leaf_kv_meta) + size_of_leaf_node in
    if is_multiple_of size cache_line_size
    then size
    else (size / cache_line_size + 1) * cache_line_size

abbrev pub is_empty : List ℕ → Bool
is_empty [] = true
is_empty (x ∷ xs) = false

-- The last of a vector, behind one element.
abbrev pub last_of : ℕ → List ℕ → ℕ
last_of x [] = x
last_of x (y ∷ ys) = last_of y ys

-- A class pushed unless the last one is as great.
unfoldable pub push_greater : List ℕ → ℕ → List ℕ
push_greater [] n = n ∷ []
push_greater (x ∷ xs) n = if ltb (last_of x xs) n then x ∷ (xs ++ (n ∷ [])) else x ∷ xs

-- The loop over the classes of mini pages. A class is greater than its exponent, so fuel above the
-- greatest size is enough.
unfoldable pub size_classes_from : ℕ → Sizes → ℕ → ℕ → List ℕ → List ℕ
size_classes_from zero c limit e classes = classes
size_classes_from (suc fuel) c limit e classes =
    let rest = size_classes_from fuel c limit (suc e) (push_greater classes (size_class c e)) in
    if leb (size_class c e) limit then rest else classes

-- The last assertion
abbrev pub enough_classes : Sizes → List ℕ → Bool
enough_classes c classes = if c.cache_only then not (is_empty classes) else leb 2 (length classes)

-- `create_mem_page_size_classes`
unfoldable pub create_mem_page_size_classes : Sizes → Option (List ℕ)
create_mem_page_size_classes c = do
  check_parameters c
  limit ← max_mini_page_size c
  let minis = size_classes_from (suc limit) c limit 0 []
  check (c.cache_only || not (is_empty minis))
  let classes = push_greater (push_greater minis limit) c.leaf_page_size
  check (enough_classes c classes)
  some classes
