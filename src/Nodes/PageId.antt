-- ===== src/Nodes/PageId.antt =====
-- src/nodes/page_id.rs: a word that is the number of a leaf page or the pointer to an inner node.
-- `none` is the panic of a failed `assert!`.
use bf_tree.Common.{ℕ, ◌≡◌, ◌^◌, ◌<◌, Bool, Option, none, some, not, if◌then◌else◌, arith}
use bf_tree.Common.Bits.{test_bit, set_bit, clear_bit}

-- `PageID`
pub record PageId : Type 0 where
  pub value : ℕ

-- `PageID::from_raw`, which is `PageID::new`
unfoldable pub from_raw : ℕ → PageId
from_raw v = record { value = v }

-- `ptr` is the address of the node.
unfoldable pub from_pointer : ℕ → PageId
unfolding from_raw
from_pointer ptr = from_raw ptr

-- The mask of an id is bit 62.
unfoldable pub from_id : ℕ → PageId
unfolding from_raw
from_id id = from_raw (set_bit id 62)

unfoldable pub is_id : PageId → Bool
is_id p = test_bit p.value 62

unfoldable pub as_id : PageId → Option ℕ
unfolding is_id
as_id p = if is_id p then some (clear_bit p.value 62) else none

unfoldable pub is_inner_node_pointer : PageId → Bool
is_inner_node_pointer p = not (test_bit p.value 62)

unfoldable pub as_inner_node : PageId → Option ℕ
unfolding is_inner_node_pointer
as_inner_node p = if is_inner_node_pointer p then some p.value else none

-- A page id made from a number that fits in 62 bits is an id, gives the number back, and is no
-- pointer.
pub from_id-as_id :
    (id : ℕ)
    → id < 2 ^ 62
    → (as_id (from_id id) ≡ some id)
      × (as_inner_node (from_id id) ≡ none)
      × ((from_id id).value < 2 ^ 63)
unfolding from_id as_id as_inner_node
from_id-as_id id h = ground arith

-- A page id made from an address below 2 ^ 62 is a pointer, gives the address back, and is no id.
pub from_pointer-as_inner_node :
    (ptr : ℕ)
    → ptr < 2 ^ 62
    → (as_inner_node (from_pointer ptr) ≡ some ptr) × (as_id (from_pointer ptr) ≡ none)
unfolding from_pointer as_id as_inner_node
from_pointer-as_inner_node ptr h = ground arith
