-- ===== src/CircularBuffer/Eviction.antt =====
-- src/circular_buffer/mod.rs: the eviction of `CircularBuffer`. `none` is a panic.
use bf_tree.Common.{
  ℕ, zero, suc, ◌+◌, ◌-◌, Bool, true, false, Option, none, some, if◌then◌else◌, ltb, ◌==◌, ◌>>=◌,
  List, [], ◌∷◌, check, ◌||◌, ◌&&◌,
}
use bf_tree.CircularBuffer.MetaState.{
  MetaState, revert_to_ready, free_list_to_tombstone, tombstone_to_evicted, is_evicted,
  is_tombstoned, is_freelisted,
}
use bf_tree.CircularBuffer.FreeList.{FreeList, find_and_remove}
use bf_tree.CircularBuffer.Buffer.{
  AllocMeta, CircularBuffer, logical_to_physical, get_meta, with_state,
  acquire_exclusive_dealloc_handle, dealloc_inner,
}

-- The first part of `evict_one`, under the lock: the start and the end of the memory that is reserved
-- for eviction. The inner `none` is an empty buffer.
unfoldable pub reserve : CircularBuffer → Option ((ℕ × ℕ) × CircularBuffer)
reserve b =
    let next = b.evicting_addr + (get_meta b b.evicting_addr).size + 8 in
    if b.evicting_addr == b.tail_addr
    then none
    else some ((b.evicting_addr, next), record b { evicting_addr = next })

-- How a round of the loop of `evict_one` ends: with the memory evicted, or to be tried again.
pub data Round : Type 0 where
  done again : CircularBuffer → Round

-- The end of the loop, once the memory is a tombstone.
abbrev pub finish : CircularBuffer → ℕ → Option Round
finish b p = tombstone_to_evicted (b.metas p).state >>= λ s. some (done (with_state b p s))

-- A round that has found the memory in the free list, or not any more.
abbrev pub unlist : CircularBuffer → ℕ → Bool × FreeList → Option Round
unlist b p (there, f) =
    if there
    then (free_list_to_tombstone (b.metas p).state >>= λ s.
        finish (with_state (record b { free_list = f }) p s) p)
    else some (again b)

-- A round without the handle, by the state it then reads.
unfoldable pub evict_by_state : CircularBuffer → ℕ → MetaState → Option Round
evict_by_state b p MetaState.tombstone = finish b p
evict_by_state b p MetaState.free_listed =
    find_and_remove b.free_list (p + 8) (b.metas p).size >>= unlist b p
evict_by_state b p _ = some (again b)

-- A round with the handle. `accepts` is the answer of the callback.
abbrev pub offer : CircularBuffer → ℕ → Bool → Option Round
offer held p true = dealloc_inner held (p + 8) false false >>= λ c. finish c p
offer held p false =
    revert_to_ready (held.metas p).state >>= λ s. some (again (with_state held p s))

-- A round, by what the acquisition of the handle says.
unfoldable pub held_or_not : CircularBuffer → ℕ → Bool → Option CircularBuffer → Option Round
held_or_not b p accepts (some held) = offer held p accepts
held_or_not b p accepts none = evict_by_state b p (b.metas p).state

-- A round for the memory at the logical address `start`.
unfoldable pub evict_round : CircularBuffer → ℕ → Bool → Option Round
evict_round b start accepts =
    let p = logical_to_physical b start in
    held_or_not b p accepts (acquire_exclusive_dealloc_handle b (p + 8))

-- `try_bump_head_address_to_evicting_addr`: whether it reached it. Each round adds 8 or more to the
-- head, so fuel `evicting_addr` is enough.
unfoldable pub bump_head : ℕ → CircularBuffer → Bool × CircularBuffer
bump_head zero b = (true, b)
bump_head (suc fuel) b =
    let m = get_meta b b.head_addr in
    let rest = bump_head fuel (record b { head_addr = b.head_addr + (m.size + 8) }) in
    if ltb b.head_addr b.evicting_addr
    then if is_evicted m.state then rest else (false, b)
    else (true, b)

unfoldable pub try_bump_head_address_to_evicting_addr : CircularBuffer → Bool × CircularBuffer
try_bump_head_address_to_evicting_addr b = bump_head b.evicting_addr b

-- `AllocatedIter` up to its end: the metas from `addr` to the tail. Each is 8 bytes or more from the
-- next, so fuel of the distance is enough.
unfoldable pub iter_from : ℕ → CircularBuffer → ℕ → List AllocMeta
iter_from zero b addr = []
iter_from (suc fuel) b addr =
    let m = get_meta b addr in
    let rest = iter_from fuel b (addr + (m.size + 8)) in
    if addr == b.tail_addr then [] else m ∷ rest

-- `CircularBuffer::iter`, collected
abbrev pub iter : CircularBuffer → List AllocMeta
iter b = iter_from (b.tail_addr - b.head_addr) b b.head_addr

-- The assertion of `drop`, on the metas of `iter`
abbrev pub all_freed : List AllocMeta → Bool
all_freed [] = true
all_freed (m ∷ ms) = (is_tombstoned m.state || is_freelisted m.state) && all_freed ms

-- `drop` of the buffer; `none` is its panic.
abbrev pub drop : CircularBuffer → Option (Unit {0})
drop b = check (all_freed (iter b))
