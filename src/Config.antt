-- ===== src/Config.antt =====
-- src/config.rs: `Config::validate`. The outer `none` is a panic, of a subtraction below 0 or a sum above
-- 2 ^ 64 - 1 in a build with overflow checks; the numbers of the messages are computed, the texts are left out.
pub mod Accepted
mod Tests
use bf_tree.Common.{
  ℕ, ◌+◌, ◌-◌, ◌*◌, ◌/◌, Bool, true, false, Option, none, some, if◌then◌else◌, not, ◌||◌, ◌&&◌, ltb,
  leb, ◌==◌, ◌>>=◌, ◌>>◌, check,
}
use bf_tree.CircularBuffer.Buffer.{is_power_of_two}
use bf_tree.Tree.SizeClasses
use bf_tree.Tree.SizeClasses.{
  Sizes, max_leaf_page_size, disk_page_size, cache_line_size, size_of_leaf_kv_meta,
  size_of_leaf_node, checked_sub, is_multiple_of, max_record_size_with_meta, whole_lines,
}

-- The fields that `validate` reads.
pub record Config : Type 0 where
  pub sizes : Sizes
  pub cb_size_byte : ℕ

-- The variants of `ConfigError` that `validate` returns
pub data ConfigError : Type 0 where
  minimum_record_size maximum_record_size leaf_page_size max_key_len circular_buffer_size :
      ConfigError

pub data Validity : Type 0 where
  ok : Validity
  err : ConfigError → Validity

-- An early return under a test.
abbrev pub refuse_if : Bool → ConfigError → Option Validity → Option Validity
refuse_if true e rest = some (err e)
refuse_if false e rest = rest

-- The size of the circular buffer
unfoldable pub validate_buffer : Config → Option Validity
validate_buffer c =
    let least =
      if c.sizes.cache_only then 4 * c.sizes.leaf_page_size else 2 * c.sizes.leaf_page_size in
    refuse_if (ltb c.cb_size_byte least) circular_buffer_size (some ok)

-- Whether a number is one of 64 bits.
abbrev pub is_u64 : ℕ → Bool
is_u64 n = leb n 18446744073709551615

-- The guarantees of the mini pages in cache-only mode
unfoldable pub validate_cache_only : Config → Option Validity
validate_cache_only c =
    check (is_u64 (2 * max_record_size_with_meta c.sizes + size_of_leaf_node))
    >> let message = checked_sub c.sizes.leaf_page_size size_of_leaf_node >>= λ a.
        checked_sub (a / 2) size_of_leaf_kv_meta >>= λ n. some (err maximum_record_size) in
      if ltb c.sizes.leaf_page_size (2 * max_record_size_with_meta c.sizes + size_of_leaf_node)
      then message
      else validate_buffer c

-- The last of the guarantees with pages on disk, of the greatest mini page
unfoldable pub validate_limit : Config → ℕ → Option Validity
validate_limit c max_mini_page_size =
    let message = checked_sub max_mini_page_size size_of_leaf_node >>= λ a.
    checked_sub a size_of_leaf_kv_meta >>= λ n. some (err maximum_record_size) in
    if ltb max_mini_page_size (max_record_size_with_meta c.sizes + size_of_leaf_node)
    then message
    else validate_buffer c

-- The guarantees with pages on disk
unfoldable pub validate_disk : Config → Option Validity
validate_disk c = do
  a ← checked_sub c.sizes.leaf_page_size c.sizes.max_fence_len
  room ← checked_sub a (2 * size_of_leaf_kv_meta)
  refuse_if (ltb room (max_record_size_with_meta c.sizes)) maximum_record_size do
    x ← checked_sub c.sizes.leaf_page_size (max_record_size_with_meta c.sizes)
    y ← checked_sub x c.sizes.max_fence_len
    rest ← checked_sub y (2 * size_of_leaf_kv_meta)
    validate_limit c (whole_lines rest)

abbrev pub validate_guarantees : Config → Option Validity
validate_guarantees c =
    check (is_u64 (max_record_size_with_meta c.sizes))
    >> (if c.sizes.cache_only then validate_cache_only c else validate_disk c)

-- `validate`
unfoldable pub validate : Config → Option Validity
validate c =
    let s = c.sizes in
    refuse_if (leb s.min_record_size 1) minimum_record_size (
      refuse_if (ltb s.max_record_size s.min_record_size) maximum_record_size (
        refuse_if (s.max_fence_len == 0) max_key_len (
          refuse_if (ltb s.max_record_size (s.max_fence_len / 2)) max_key_len (
            refuse_if (ltb max_leaf_page_size s.leaf_page_size) leaf_page_size (
              refuse_if (ltb SizeClasses.max_key_len (s.max_fence_len / 2)) max_key_len (
                refuse_if (not (is_power_of_two c.cb_size_byte)) circular_buffer_size (
                  refuse_if (ltb 4096 (s.leaf_page_size / s.min_record_size)) minimum_record_size (
                    refuse_if
                      (not s.cache_only && not (is_multiple_of s.leaf_page_size disk_page_size))
                      leaf_page_size
                      (refuse_if
                        (s.cache_only && not (is_multiple_of s.leaf_page_size cache_line_size))
                        leaf_page_size (validate_guarantees c))))))))))
