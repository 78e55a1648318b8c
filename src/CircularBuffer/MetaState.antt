-- ===== src/CircularBuffer/MetaState.antt =====
-- src/circular_buffer/mod.rs: `MetaRawState`. Each exchange expects one old state; `none` is its panic.
use bf_tree.Common.{Bool, true, false, Option, none, some}

-- `MetaState`
pub data MetaState : Type 0 where
  not_ready ready tombstone begin_tombstone free_listed evicted : MetaState

unfoldable pub to_ready : MetaState → Option MetaState
to_ready MetaState.not_ready = some MetaState.ready
to_ready _ = none

-- `try_begin_tombstone`; here `none` is the answer false.
unfoldable pub try_begin_tombstone : MetaState → Option MetaState
try_begin_tombstone MetaState.ready = some MetaState.begin_tombstone
try_begin_tombstone _ = none

unfoldable pub revert_to_ready : MetaState → Option MetaState
revert_to_ready MetaState.begin_tombstone = some MetaState.ready
revert_to_ready _ = none

unfoldable pub free_list_to_tombstone : MetaState → Option MetaState
free_list_to_tombstone MetaState.free_listed = some MetaState.tombstone
free_list_to_tombstone _ = none

unfoldable pub to_freelist : MetaState → Option MetaState
to_freelist MetaState.begin_tombstone = some MetaState.free_listed
to_freelist _ = none

unfoldable pub to_tombstone : MetaState → Option MetaState
to_tombstone MetaState.begin_tombstone = some MetaState.tombstone
to_tombstone _ = none

unfoldable pub tombstone_to_evicted : MetaState → Option MetaState
tombstone_to_evicted MetaState.tombstone = some MetaState.evicted
tombstone_to_evicted _ = none

-- The exchange with which `alloc` takes memory from the free list; here `none` is its failure.
unfoldable pub reuse : MetaState → Option MetaState
reuse MetaState.free_listed = some MetaState.not_ready
reuse _ = none

unfoldable pub is_evicted : MetaState → Bool
is_evicted MetaState.evicted = true
is_evicted _ = false

unfoldable pub is_tombstoned : MetaState → Bool
is_tombstoned MetaState.tombstone = true
is_tombstoned _ = false

unfoldable pub is_freelisted : MetaState → Bool
is_freelisted MetaState.free_listed = true
is_freelisted _ = false
