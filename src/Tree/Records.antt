-- ===== src/Tree/Records.antt =====
-- src/tree.rs: the tests of `BfTree::insert`, `read` and `delete` on the lengths of a key and a value.
pub mod Choice
pub mod Hint
mod Tests
use bf_tree.Common.{ℕ, ◌+◌, ◌/◌, Bool, true, false, ◌||◌, not, if◌then◌else◌, ltb, ◌==◌}
use bf_tree.Tree.SizeClasses.{Sizes, max_key_len}

-- `MAX_VALUE_LEN`
abbrev pub max_value_len : ℕ
max_value_len = 16332

-- `LeafInsertResult::InvalidKV` with the kind of its message, or a record that goes on to the tree
pub data InsertCheck : Type 0 where
  key_too_large key_too_small record_too_large record_too_small accepted : InsertCheck

-- The tests of `insert`
unfoldable pub insert_check : Sizes → ℕ → ℕ → InsertCheck
insert_check c key_len value_len =
    if ltb (c.max_fence_len / 2) key_len || ltb max_key_len key_len
    then key_too_large
    else if key_len == 0
    then key_too_small
    else if ltb max_value_len value_len || ltb c.max_record_size (key_len + value_len)
    then record_too_large
    else if ltb (key_len + value_len) c.min_record_size
    then record_too_small
    else accepted

-- The tests of `read` and of `delete`: whether the key goes on to the tree
unfoldable pub is_valid_key : Sizes → ℕ → Bool
is_valid_key c key_len =
    if ltb (c.max_fence_len / 2) key_len || ltb max_key_len key_len
    then false
    else not (key_len == 0)
