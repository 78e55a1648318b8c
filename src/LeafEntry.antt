-- ===== src/LeafEntry.antt =====
-- src/mini_page_op.rs: the operations on a leaf of the tree behind its entry of the mapping table, which
-- says where its records are: in a base page, in a full page in memory, in a mini page in front of a base
-- page, or nowhere. The entry is locked. `none` is a panic.
pub mod Answers
pub mod Read
pub mod Written
mod Tests
use bf_tree.Common.{
  ℕ, zero, suc, Bool, true, false, Option, none, some, if◌then◌else◌, leb, length, ◌>>=◌, ◌>>◌,
  check,
}
use bf_tree.Common.Bytes.{Key}
use bf_tree.Common.Shift.{put_at}
use bf_tree.Nodes.LeafNode.Scan.{
  ScanReturnField, GetScanRecordByPosResult, end_of_leaf, get_record_by_pos_with_bound,
}
use bf_tree.Nodes.NodeMeta.{has_fence}
use bf_tree.Nodes.LeafNode.{
  get_high_fence_key, LeafNode, as_offset, lower_bound, LeafReadResult, hit, deleted, not_found,
  read_by_key, read_by_key_inner,
}
use bf_tree.Storage.{PageLocation}

-- `LeafEntrySLocked` and `LeafEntryXLocked`: the location, the pages in the circular buffer by pointer, what
-- `file_handle.read` gives at an offset, and the base page that was read.
pub record LeafEntry : Type 0 where
  pub location : PageLocation
  pub cache : ℕ → LeafNode
  pub disk : ℕ → LeafNode
  pub tmp_buffer : Option LeafNode

pub data ReadResult : Type 0 where
  mini full base : LeafReadResult → ReadResult
  nothing : ReadResult

-- `load_base_page`; the page is in the buffer afterwards.
abbrev pub load_base_page : LeafEntry → ℕ → LeafNode
load_base_page e offset = elim e.tmp_buffer [ some n ↦ n | none ↦ e.disk offset ]

-- A page changed in place: the base page in its buffer, a page in memory at its pointer.
abbrev pub with_base : LeafEntry → LeafNode → LeafEntry
with_base e n = record e { tmp_buffer = some n }

abbrev pub with_cache_page : LeafEntry → ℕ → LeafNode → LeafEntry
with_cache_page e ptr n = record e { cache = put_at e.cache ptr n }

-- The read of the base page at an offset.
abbrev pub read_base : LeafEntry → Key → ℕ → ReadResult × LeafEntry
read_base e key offset =
    let (out, n) = read_by_key (load_base_page e offset) key in (base out, with_base e n)

-- What follows a read of the mini page.
unfoldable pub after_mini :
    LeafEntry → Key → Bool → ℕ → LeafReadResult → Option (ReadResult × LeafEntry)
after_mini e key cache_only next_level (hit value) = some (mini (hit value), e)
after_mini e key cache_only next_level deleted = some (mini deleted, e)
after_mini e key true next_level not_found = some (nothing, e)
after_mini e key false next_level not_found =
    as_offset next_level >>= λ offset. some (read_base e key offset)

unfoldable pub read_at :
    LeafEntry → Key → Bool → Bool → PageLocation → Option (ReadResult × LeafEntry)
read_at e key mini_page_binary_search cache_only (PageLocation.base offset) =
    some (read_base e key offset)
read_at e key mini_page_binary_search cache_only (PageLocation.full ptr) =
    let (out, n) = read_by_key (e.cache ptr) key in some (full out, with_cache_page e ptr n)
read_at e key mini_page_binary_search cache_only (PageLocation.mini ptr) =
    let (out, n) = read_by_key_inner (e.cache ptr) key mini_page_binary_search in
    after_mini (with_cache_page e ptr n) key cache_only (e.cache ptr).next_level out
read_at e key mini_page_binary_search cache_only PageLocation.null = some (nothing, e)

-- How many bytes of `out_buffer` a result takes.
abbrev pub found_len : LeafReadResult → ℕ
found_len (hit value) = length value
found_len _ = zero

abbrev pub result_len : ReadResult → ℕ
result_len (mini out) = found_len out
result_len (full out) = found_len out
result_len (base out) = found_len out
result_len nothing = zero

-- A value is copied into a slice of `out_buffer` of its length: a shorter buffer is a panic.
abbrev pub copied_to : ℕ → ReadResult × LeafEntry → Option (ReadResult × LeafEntry)
copied_to out_buffer (r, e) = check (leb (result_len r) out_buffer) >> some (r, e)

-- `LeafOperations::read`; of `out_buffer` the length is given.
abbrev pub read : LeafEntry → Key → ℕ → Bool → Bool → Option (ReadResult × LeafEntry)
read e key out_buffer mini_page_binary_search cache_only =
    read_at e key mini_page_binary_search cache_only e.location >>= copied_to out_buffer

-- `ScanPosition`
pub data ScanPosition : Type 0 where
  base_position full_position mini_position : ℕ → ScanPosition
  null_position : ScanPosition

-- `move_to_next`
unfoldable pub move_to_next : ScanPosition → Option ScanPosition
move_to_next (base_position pos) = some (base_position (suc pos))
move_to_next (full_position pos) = some (full_position (suc pos))
move_to_next (mini_position pos) = some (mini_position (suc pos))
move_to_next null_position = none

-- The page in memory of an entry, for a position in a full page and in a mini page.
abbrev pub full_page : LeafEntry → PageLocation → Option LeafNode
full_page e (PageLocation.full ptr) = some (e.cache ptr)
full_page e _ = none

abbrev pub mini_page : LeafEntry → PageLocation → Option LeafNode
mini_page e (PageLocation.mini ptr) = some (e.cache ptr)
mini_page e _ = none

-- `scan_record_by_pos_with_bound`
unfoldable pub scan_record_by_pos_with_bound :
    LeafEntry → ScanPosition → ScanReturnField → Option Key → Option GetScanRecordByPosResult
scan_record_by_pos_with_bound e (base_position pos) return_field end_key =
    e.tmp_buffer >>= λ n. some (get_record_by_pos_with_bound n pos return_field end_key)
scan_record_by_pos_with_bound e (full_position pos) return_field end_key =
    full_page e e.location >>= λ n. some (get_record_by_pos_with_bound n pos return_field end_key)
scan_record_by_pos_with_bound e (mini_position pos) return_field end_key =
    mini_page e e.location >>= λ n. some (get_record_by_pos_with_bound n pos return_field end_key)
scan_record_by_pos_with_bound e null_position return_field end_key = some end_of_leaf

-- `LeafNode::get_high_fence_key` with its assertion
abbrev pub right_fence : LeafNode → Option Key
right_fence n = check (has_fence n.meta) >> some (get_high_fence_key n)

-- `get_right_sibling`: the high fence of the base page or of the full page
unfoldable pub get_right_sibling : LeafEntry → PageLocation → Option Key
get_right_sibling e (PageLocation.base offset) = right_fence (load_base_page e offset)
get_right_sibling e (PageLocation.full ptr) = right_fence (e.cache ptr)
get_right_sibling e (PageLocation.mini ptr) =
    as_offset (e.cache ptr).next_level >>= λ offset. right_fence (load_base_page e offset)
get_right_sibling e PageLocation.null = none

-- `ScanError::NeedMergeMiniPage`, or a position
pub data Scan : Type 0 where
  need_merge_mini_page : Scan
  position : ScanPosition → Scan

-- `get_scan_position`
unfoldable pub get_scan_position : LeafEntry → Key → Bool → PageLocation → Option Scan
get_scan_position e key cache_only (PageLocation.base offset) =
    some (position (base_position (lower_bound (load_base_page e offset) key)))
get_scan_position e key cache_only (PageLocation.full ptr) =
    some (position (full_position (lower_bound (e.cache ptr) key)))
get_scan_position e key true (PageLocation.mini ptr) =
    some (position (mini_position (lower_bound (e.cache ptr) key)))
get_scan_position e key false (PageLocation.mini ptr) = some need_merge_mini_page
get_scan_position e key cache_only PageLocation.null =
    check cache_only >> some (position null_position)
