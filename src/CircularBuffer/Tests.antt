-- ===== src/CircularBuffer/Tests.antt =====
-- A buffer of 64 bytes whose tail is near the end of its memory, and a free list with two classes.
use bf_tree.Common.{ℕ, ◌≤◌, ◌≡◌, refl, arith, List, [], ◌∷◌, ◌++◌, some, true, false}
use bf_tree.Common.Shift.{put_at}
use bf_tree.CircularBuffer.MetaState.{MetaState}
use bf_tree.CircularBuffer.FreeList
use bf_tree.CircularBuffer.FreeList.{FreeList, added, try_add, remove, find_and_remove}
use bf_tree.CircularBuffer.FreeList.Contents.{
  Fits, try_add-Fits, remove-large_enough, find_and_remove-try_add,
}
use bf_tree.CircularBuffer.Buffer
use bf_tree.CircularBuffer.Buffer.{AllocMeta, CircularBuffer, Allocated, alloc_at_tail, alloc}
use bf_tree.CircularBuffer.Buffer.Alloc.{IsTiled, Serves, alloc_at_tail-Serves}
use bf_tree.CircularBuffer.Buffer.Evict.{
  IsReserved, reserve-IsReserved, IsBumped, try_bump_head_address_to_evicting_addr-IsBumped,
}
use bf_tree.CircularBuffer.Buffer.Run.{IsRun, started, then_step, allocated, always_tiled}
use bf_tree.CircularBuffer.Buffer.Iterate.{sizes_of, iter-sizes}
use bf_tree.CircularBuffer.Eviction.{iter, reserve, try_bump_head_address_to_evicting_addr}

abbrev classes : List ℕ
classes = 8 ∷ 24 ∷ []

abbrev no_memory : FreeList
no_memory = FreeList.new classes

-- Pieces of 8 bytes, evicted.
abbrev pieces : ℕ → AllocMeta
pieces p = record { size = 8; state = MetaState.evicted }

-- One piece at 32, which is evicted but not reserved; the tail at 48.
abbrev near_end : CircularBuffer
near_end = record {
  head_addr = 32;
  evicting_addr = 32;
  tail_addr = 48;
  capacity = 64;
  copy_on_access_threshold = 64;
  metas = pieces;
  free_list = no_memory;
}

near_end-IsTiled : IsTiled near_end
near_end-IsTiled = record {
  leaving = [];
  live = 8 ∷ [];
  front = refl;
  back = (refl, refl, omega arith, refl);
  round = omega arith;
  some_memory = omega arith;
  whole = refl;
  start = refl;
}

alloc_at_tail-Serves_example :
    (r : Allocated × CircularBuffer) × (alloc_at_tail near_end 20 ≡ some r) × Serves near_end 20 r
alloc_at_tail-Serves_example =
    alloc_at_tail-Serves near_end 20 near_end-IsTiled (omega arith) (omega arith)

reserve-IsReserved_example :
    IsReserved near_end (record near_end { evicting_addr = 48 }) near_end-IsTiled.live 32 48
unfolding reserve
reserve-IsReserved_example =
    reserve-IsReserved near_end (record near_end { evicting_addr = 48 }) 32 48 near_end-IsTiled refl

-- The piece at 32, reserved.
abbrev leaving_end : CircularBuffer
leaving_end = record near_end { evicting_addr = 48 }

leaving_end-IsTiled : IsTiled leaving_end
leaving_end-IsTiled = record {
  leaving = 8 ∷ [];
  live = [];
  front = (refl, refl, omega arith, refl);
  back = refl;
  round = omega arith;
  some_memory = omega arith;
  whole = refl;
  start = refl;
}

try_bump_head_address_to_evicting_addr-IsBumped_example :
    IsBumped leaving_end (try_bump_head_address_to_evicting_addr leaving_end)
try_bump_head_address_to_evicting_addr-IsBumped_example =
    try_bump_head_address_to_evicting_addr-IsBumped leaving_end leaving_end-IsTiled

iter-sizes_example : sizes_of (iter near_end) ≡ near_end-IsTiled.leaving ++ near_end-IsTiled.live
iter-sizes_example = iter-sizes near_end near_end-IsTiled

-- A new buffer.
abbrev empty_buffer : CircularBuffer
empty_buffer = record {
  head_addr = 0;
  evicting_addr = 0;
  tail_addr = 0;
  capacity = 64;
  copy_on_access_threshold = 64;
  metas = pieces;
  free_list = no_memory;
}

new-IsRun :
    (r : Allocated × CircularBuffer) → alloc empty_buffer 20 ≡ some r → IsRun 20 empty_buffer r.1
new-IsRun r e =
    then_step empty_buffer empty_buffer r.1 (started empty_buffer)
      (allocated empty_buffer 20 r (omega arith) e)

after_alloc : (r : Allocated × CircularBuffer) × (alloc empty_buffer 20 ≡ some r)
unfolding alloc FreeList.last FreeList.size_class_larger_than FreeList.position Buffer.take_free
    alloc_at_tail
after_alloc = (_, refl)

always_tiled_example : IsTiled after_alloc.0.1
unfolding Buffer.new Buffer.is_power_below
always_tiled_example =
    always_tiled 64 32 64 20 pieces no_memory empty_buffer after_alloc.0.1 refl (omega arith)
      (new-IsRun after_alloc.0 after_alloc.1)

-- Memory of 16 bytes, in the class of 8.
abbrev sizes : ℕ → ℕ
sizes p = 16

no_memory-Fits : Fits sizes no_memory
no_memory-Fits i c e = tt

abbrev one_freed : FreeList
one_freed = record no_memory { lists = put_at (λ i. []) 1 (40 ∷ []) }

one_freed-added : try_add no_memory 40 16 false ≡ some (added one_freed)
unfolding try_add FreeList.last FreeList.size_class_smaller_than FreeList.position
one_freed-added = refl

one_freed-Fits : Fits sizes one_freed
one_freed-Fits = try_add-Fits sizes no_memory one_freed 40 false no_memory-Fits one_freed-added

try_add-Fits_example : Fits sizes one_freed
try_add-Fits_example =
    try_add-Fits sizes no_memory one_freed 40 false no_memory-Fits one_freed-added

remove-large_enough_example :
    (8 ≤ sizes 40) × Fits sizes (record one_freed { lists = put_at one_freed.lists 1 [] })
unfolding remove FreeList.size_class_larger_than FreeList.position put_at
remove-large_enough_example =
    remove-large_enough sizes one_freed (record one_freed { lists = put_at one_freed.lists 1 [] }) 8
      40 one_freed-Fits refl

find_and_remove-try_add_example :
    (h : FreeList) × (find_and_remove one_freed 40 16 ≡ some (true, h))
    × (h.size_classes ≡ no_memory.size_classes)
    × ((j : ℕ) → h.lists j ≡ no_memory.lists j)
find_and_remove-try_add_example =
    find_and_remove-try_add no_memory one_freed 40 16 false one_freed-added
