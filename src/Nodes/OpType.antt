-- ===== src/Nodes/OpType.antt =====
-- src/nodes/leaf_node.rs: the kinds of records.
use bf_tree.Common.{ℕ, Bool, true, false, Option, none, some, ◌==◌, if◌then◌else◌, ◌≡◌, refl}

-- `OpType`
pub data OpType : Type 0 where
  insert delete cache phantom : OpType

unfoldable pub is_dirty : OpType → Bool
is_dirty OpType.insert = true
is_dirty OpType.delete = true
is_dirty OpType.cache = false
is_dirty OpType.phantom = false

unfoldable pub is_absent : OpType → Bool
is_absent OpType.insert = false
is_absent OpType.cache = false
is_absent OpType.phantom = true
is_absent OpType.delete = true

unfoldable pub is_cache : OpType → Bool
is_cache OpType.cache = true
is_cache OpType.phantom = true
is_cache OpType.insert = false
is_cache OpType.delete = false

-- `op as u8`
unfoldable pub to_byte : OpType → ℕ
to_byte OpType.insert = 0
to_byte OpType.delete = 1
to_byte OpType.cache = 2
to_byte OpType.phantom = 3

-- `transmute` of a byte; of any other byte it is undefined behaviour, which is `none`.
unfoldable pub of_byte : ℕ → Option OpType
of_byte b =
    if b == 0
    then some OpType.insert
    else if b == 1
    then some OpType.delete
    else if b == 2
    then some OpType.cache
    else if b == 3
    then some OpType.phantom
    else none

pub of_byte-to_byte : (op : OpType) → of_byte (to_byte op) ≡ some op
unfolding of_byte to_byte
of_byte-to_byte OpType.insert = refl
of_byte-to_byte OpType.delete = refl
of_byte-to_byte OpType.cache = refl
of_byte-to_byte OpType.phantom = refl
