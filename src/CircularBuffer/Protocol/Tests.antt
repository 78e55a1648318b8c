-- ===== src/CircularBuffer/Protocol/Tests.antt =====
-- A life of a piece of memory, and the theorems at its states.
use bf_tree.Common.{◌≡◌, ◌≢◌, refl, true, none, false}
use bf_tree.CircularBuffer.MetaState.{
  MetaState, to_ready, try_begin_tombstone, to_freelist, tombstone_to_evicted,
}
use bf_tree.CircularBuffer.Protocol.{
  Block, fresh, looping, over, take_fail, drop_guard, acquire, dealloc_list, take, reserve,
  IsReachable, start, after,
}
use bf_tree.CircularBuffer.Protocol.Tokens.{
  NoPanic, Exclusive, IsLost, no_panic, here, then_one, failed_exchange_loses,
}

abbrev ready : Block
ready = record fresh { state = MetaState.ready; guard = false }

abbrev handled : Block
handled = record ready { state = MetaState.begin_tombstone; handle = true }

abbrev in_list : Block
in_list = record handled { state = MetaState.free_listed; handle = false; listed = true }

abbrev taken_block : Block
taken_block = record in_list { listed = false; taken = true }

-- It was used, freed, put into the free list and taken from it.
taken_block-IsReachable : IsReachable taken_block
unfolding to_ready try_begin_tombstone to_freelist
taken_block-IsReachable =
    after
      (after
        (after (after start (drop_guard fresh MetaState.ready refl refl))
          (acquire ready MetaState.begin_tombstone refl))
        (dealloc_list handled MetaState.free_listed refl refl))
      (take in_list refl)

no_panic_example : NoPanic taken_block × Exclusive taken_block
no_panic_example = no_panic taken_block taken_block-IsReachable

abbrev lost_block : Block
lost_block = record taken_block { taken = false }

failed_exchange_loses_example :
    IsLost (record lost_block { evictor = looping })
    × (tombstone_to_evicted MetaState.free_listed ≡ none)
    × (looping ≢ over)
failed_exchange_loses_example =
    failed_exchange_loses taken_block lost_block (record lost_block { evictor = looping })
      taken_block-IsReachable refl (take_fail taken_block refl) refl refl
      (then_one here (reserve lost_block refl))
