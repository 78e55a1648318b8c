-- ===== src/CircularBuffer/Buffer.antt =====
-- src/circular_buffer/mod.rs: `CircularBuffer`. Addresses are logical and only grow; the memory of an
-- address is at its remainder by the capacity, a power of two. A pointer is an offset in the memory.
-- What an operation does under the mutex is one step: `alloc` that has filled the end of the memory
-- releases the mutex and calls itself, and that call is a step of its own. `none` is a panic.
pub mod Ring
pub mod Tiling
pub mod Alloc
pub mod Evict
pub mod Shape
pub mod Rounds
pub mod Run
pub mod Iterate
use bf_tree.Common.{
  ℕ, zero, suc, ◌+◌, ◌-◌, ◌*◌, ◌/◌, ◌%◌, ◌^◌, Bool, true, false, Option, none, some, List, [], ◌∷◌,
  not, if◌then◌else◌, ltb, leb, ◌==◌, ◌>>=◌, ◌>>◌, check,
}
use bf_tree.Common.Shift.{put_at}
use bf_tree.CircularBuffer.MetaState
use bf_tree.CircularBuffer.MetaState.{
  MetaState, to_ready, try_begin_tombstone, revert_to_ready, free_list_to_tombstone, to_freelist,
  to_tombstone, tombstone_to_evicted, reuse, is_evicted,
}
use bf_tree.CircularBuffer.FreeList
use bf_tree.CircularBuffer.FreeList.{
  FreeList, Added, would_block, size_too_small, added, find_and_remove,
}

-- `AllocMeta`, which takes 8 bytes: `CB_ALLOC_META_SIZE`
pub record AllocMeta : Type 0 where
  pub size : ℕ
  pub state : MetaState

-- `CircularBuffer` and its `States`; `metas` has what stands at an offset of the memory.
pub record CircularBuffer : Type 0 where
  pub head_addr : ℕ
  pub evicting_addr : ℕ
  pub tail_addr : ℕ
  pub capacity : ℕ
  pub copy_on_access_threshold : ℕ
  pub metas : ℕ → AllocMeta
  pub free_list : FreeList

-- `align_up(size, 8)`
abbrev pub align_up : ℕ → ℕ
align_up size = (size + 7) / 8 * 8

abbrev pub logical_to_physical : CircularBuffer → ℕ → ℕ
logical_to_physical b addr = addr % b.capacity

abbrev pub get_meta : CircularBuffer → ℕ → AllocMeta
get_meta b addr = b.metas (logical_to_physical b addr)

abbrev pub get_meta_from_data_ptr : CircularBuffer → ℕ → AllocMeta
get_meta_from_data_ptr b ptr = b.metas (ptr - 8)

-- The state at an offset, changed.
abbrev pub with_state : CircularBuffer → ℕ → MetaState → CircularBuffer
with_state b p s = record b { metas = put_at b.metas p (record (b.metas p) { state = s }) }

unfoldable pub distance_to_tail : CircularBuffer → ℕ → ℕ
distance_to_tail b ptr =
    let tail = logical_to_physical b b.tail_addr in
    if leb ptr tail then tail - ptr else b.capacity - (ptr - tail)

unfoldable pub ptr_is_copy_on_access : CircularBuffer → ℕ → Bool
ptr_is_copy_on_access b ptr = leb b.copy_on_access_threshold (distance_to_tail b ptr)

-- What a step of `alloc` ends with: a `CircularBufferError`, the call of itself without the mutex, or the
-- pointer of the new guard
pub data Allocated : Type 0 where
  full empty_alloc calls_again : Allocated
  pointer : ℕ → Allocated

-- The loop of `alloc` over the list of a class, which it takes pointers from: those about to be evicted
-- die, the first other one serves. The list is the fuel.
unfoldable pub take_free : CircularBuffer → ℕ → ℕ → List ℕ → Option (Option ℕ × CircularBuffer)
take_free b size i [] =
    some
      (none, record b { free_list = record b.free_list { lists = put_at b.free_list.lists i [] } })
take_free b size i (ptr ∷ rest) =
    let m = get_meta_from_data_ptr b ptr in
    let left = record b {
      free_list = record b.free_list { lists = put_at b.free_list.lists i rest };
    } in
    elim (ptr_is_copy_on_access b ptr) [
      | true ↦ free_list_to_tombstone m.state >>= λ s.
          take_free (with_state left (ptr - 8) s) size i rest
      | false ↦ check (leb size m.size) >> elim (reuse m.state) [
        | some s ↦ some (some ptr, with_state left (ptr - 8) s)
        | none ↦ take_free left size i rest
      ]
    ]

abbrev pub logical_remaining : CircularBuffer → ℕ
logical_remaining b = b.capacity - (b.tail_addr - b.head_addr)

abbrev pub physical_remaining : CircularBuffer → ℕ
physical_remaining b = b.capacity - b.tail_addr % b.capacity

abbrev pub required : ℕ → ℕ
required size = align_up size + 8

-- `as u32`
abbrev pub as_u32 : ℕ → ℕ
as_u32 n = n % 4294967296

-- A meta written at the tail, which moves behind its memory.
abbrev pub push : CircularBuffer → ℕ → MetaState → CircularBuffer
push b size s = record b {
  metas =
      put_at b.metas (logical_to_physical b b.tail_addr) (record { size = as_u32 size; state = s });
  tail_addr = b.tail_addr + size + 8;
}

-- The rest of the memory up to its end filled with a tombstone.
abbrev pub fill : CircularBuffer → CircularBuffer
fill b = push b (physical_remaining b - 8) MetaState.tombstone

-- The new memory at the tail, and its pointer.
abbrev pub at_tail : CircularBuffer → ℕ → Allocated × CircularBuffer
at_tail b size =
    (pointer (logical_to_physical b (b.tail_addr + 8)), push b (align_up size) MetaState.not_ready)

-- `alloc` behind its loop, up to the end or to the call of itself
unfoldable pub alloc_at_tail : CircularBuffer → ℕ → Option (Allocated × CircularBuffer)
alloc_at_tail b size =
    if ltb (logical_remaining b) (required size)
    then some (full, b)
    else if ltb (physical_remaining b) (required size)
    then check (leb 8 (physical_remaining b)) >> some (calls_again, fill b)
    else some (at_tail b size)

-- The end of `alloc`: memory of the free list, or else at the tail.
abbrev pub serve : ℕ → Option ℕ × CircularBuffer → Option (Allocated × CircularBuffer)
serve size (some ptr, b) = some (pointer ptr, b)
serve size (none, b) = alloc_at_tail b size

-- `alloc`, while it holds the mutex
unfoldable pub alloc : CircularBuffer → ℕ → Option (Allocated × CircularBuffer)
alloc b size = if size == 0 then some (empty_alloc, b) else do
  smallest ← FreeList.last b.free_list.size_classes
  check (leb smallest size)
  i ← FreeList.size_class_larger_than b.free_list size
  r ← take_free b size i (b.free_list.lists i)
  serve size r

-- `acquire_exclusive_dealloc_handle`; the handle is the pointer.
unfoldable pub acquire_exclusive_dealloc_handle : CircularBuffer → ℕ → Option CircularBuffer
acquire_exclusive_dealloc_handle b ptr =
    try_begin_tombstone (get_meta_from_data_ptr b ptr).state >>= λ s.
    some (with_state b (ptr - 8) s)

-- The memory becomes a tombstone.
abbrev pub die : CircularBuffer → ℕ → Option CircularBuffer
die b ptr =
    to_tombstone (get_meta_from_data_ptr b ptr).state >>= λ s. some (with_state b (ptr - 8) s)

-- The end of `dealloc_inner`, by the answer of `try_add`.
unfoldable pub listed_or_dead : CircularBuffer → ℕ → Added → Option CircularBuffer
listed_or_dead b ptr would_block = die b ptr
listed_or_dead b ptr size_too_small = die b ptr
listed_or_dead b ptr (added f) = to_freelist (get_meta_from_data_ptr b ptr).state >>= λ s.
    some (with_state (record b { free_list = f }) (ptr - 8) s)

-- `dealloc_inner`
unfoldable pub dealloc_inner : CircularBuffer → ℕ → Bool → Bool → Option CircularBuffer
dealloc_inner b ptr add_to_freelist contended =
    if not add_to_freelist
    then die b ptr
    else if ptr_is_copy_on_access b ptr
    then die b ptr
    else FreeList.try_add b.free_list ptr (get_meta_from_data_ptr b ptr).size contended
      >>= listed_or_dead b ptr

-- `drop` of the guard of `alloc`
abbrev pub drop_guard : CircularBuffer → ℕ → Option CircularBuffer
drop_guard b ptr =
    to_ready (get_meta_from_data_ptr b ptr).state >>= λ s. some (with_state b (ptr - 8) s)

-- Whether a number is one of the first powers of two.
unfoldable pub is_power_below : ℕ → ℕ → Bool
is_power_below zero n = false
is_power_below (suc k) n = let rest = is_power_below k n in if n == 2 ^ k then true else rest

-- `usize::is_power_of_two`, of a 64-bit integer
abbrev pub is_power_of_two : ℕ → Bool
is_power_of_two n = is_power_below 64 n

-- Whether `Layout::from_size_align(size, 4096)` is a layout, as its documentation says: the size, rounded
-- up to the alignment, is at most `isize::MAX`.
abbrev pub is_layout : ℕ → Bool
is_layout size = leb size 9223372036854771712

-- `CircularBuffer::new`, with a free list; the memory has any content. `none` is a refused capacity.
unfoldable pub new : ℕ → ℕ → ℕ → (ℕ → AllocMeta) → FreeList → Option CircularBuffer
new capacity leaf_page_size threshold metas f = do
  check (is_power_of_two capacity)
  check (leb (leaf_page_size + 8) capacity)
  check (is_layout capacity)
  some (record {
    head_addr = 0;
    evicting_addr = 0;
    tail_addr = 0;
    capacity = capacity;
    copy_on_access_threshold = threshold;
    metas = metas;
    free_list = f;
  })
