-- ===== src/CircularBuffer/Protocol.antt =====
-- src/circular_buffer/mod.rs: the threads around one piece of memory, as steps. Who may change its
-- state word: the holder of the guard that `alloc` returns, the holder of a `TombstoneHandle`, the
-- thread in `alloc` that has taken it from the free list, and the one thread in `evict_one` whose
-- reservation it is. The free list is under its own lock, which `dealloc_inner` holds until the state
-- is set, so that adding is one step.
pub mod Tokens
mod Tests
use bf_tree.Common.{ℕ, ◌≡◌, Bool, true, false, Option, none, some}
use bf_tree.CircularBuffer.MetaState.{
  MetaState, to_ready, try_begin_tombstone, revert_to_ready, free_list_to_tombstone, to_freelist,
  to_tombstone, tombstone_to_evicted, reuse,
}

-- Where the evicting thread stands: the memory is not reserved yet, its loop, a handle of its own, after
-- `find_and_remove`, before its `tombstone_to_evicted`, and after the loop.
pub data Evictor : Type 0 where
  idle looping holding found dying over : Evictor

-- The memory: its state, and who has it.
pub record Block : Type 0 where
  pub state : MetaState
  pub guard : Bool
  pub handle : Bool
  pub listed : Bool
  pub taken : Bool
  pub evictor : Evictor

-- After `alloc` made it at the tail.
abbrev pub fresh : Block
fresh = record {
  state = MetaState.not_ready;
  guard = true;
  handle = false;
  listed = false;
  taken = false;
  evictor = idle;
}

pub data Step : Block → Block → Type 0 where
  drop_guard :
      (b : Block) (s : MetaState)
      → b.guard ≡ true
      → to_ready b.state ≡ some s
      → Step b (record b { state = s; guard = false })
  acquire :
      (b : Block) (s : MetaState)
      → try_begin_tombstone b.state ≡ some s
      → Step b (record b { state = s; handle = true })
  drop_handle :
      (b : Block) (s : MetaState)
      → b.handle ≡ true
      → revert_to_ready b.state ≡ some s
      → Step b (record b { state = s; handle = false })
  dealloc_tombstone :
      (b : Block) (s : MetaState)
      → b.handle ≡ true
      → to_tombstone b.state ≡ some s
      → Step b (record b { state = s; handle = false })
  dealloc_list :
      (b : Block) (s : MetaState)
      → b.handle ≡ true
      → to_freelist b.state ≡ some s
      → Step b (record b { state = s; handle = false; listed = true })
  take : (b : Block) → b.listed ≡ true → Step b (record b { listed = false; taken = true })
  take_tombstone :
      (b : Block) (s : MetaState)
      → b.taken ≡ true
      → free_list_to_tombstone b.state ≡ some s
      → Step b (record b { state = s; taken = false })
  take_reuse :
      (b : Block) (s : MetaState)
      → b.taken ≡ true
      → reuse b.state ≡ some s
      → Step b (record b { state = s; taken = false; guard = true })
  -- `compare_exchange_weak` may fail although the state is the one it expects.
  take_fail : (b : Block) → b.taken ≡ true → Step b (record b { taken = false })
  reserve : (b : Block) → b.evictor ≡ idle → Step b (record b { evictor = looping })
  evict_acquire :
      (b : Block) (s : MetaState)
      → b.evictor ≡ looping
      → try_begin_tombstone b.state ≡ some s
      → Step b (record b { state = s; evictor = holding })
  evict_refused :
      (b : Block) (s : MetaState)
      → b.evictor ≡ holding
      → revert_to_ready b.state ≡ some s
      → Step b (record b { state = s; evictor = looping })
  evict_tombstone :
      (b : Block) (s : MetaState)
      → b.evictor ≡ holding
      → to_tombstone b.state ≡ some s
      → Step b (record b { state = s; evictor = dying })
  -- It reads that the memory is a tombstone.
  evict_seen :
      (b : Block)
      → b.evictor ≡ looping
      → b.state ≡ MetaState.tombstone
      → Step b (record b { evictor = dying })
  evict_remove :
      (b : Block)
      → b.evictor ≡ looping
      → b.listed ≡ true
      → Step b (record b { listed = false; evictor = found })
  evict_found :
      (b : Block) (s : MetaState)
      → b.evictor ≡ found
      → free_list_to_tombstone b.state ≡ some s
      → Step b (record b { state = s; evictor = dying })
  evict_end :
      (b : Block) (s : MetaState)
      → b.evictor ≡ dying
      → tombstone_to_evicted b.state ≡ some s
      → Step b (record b { state = s; evictor = over })

pub data IsReachable : Block → Type 0 where
  start : IsReachable fresh
  after : {b b' : Block} → IsReachable b → Step b b' → IsReachable b'
