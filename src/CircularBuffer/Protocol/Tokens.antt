-- ===== src/CircularBuffer/Protocol/Tokens.antt =====
-- Who has a piece of memory, by its state.
use bf_tree.Common.{◌≡◌, ◌≢◌, refl, Bool, true, false, none, some, arith, not, ◌&&◌, ◌||◌}
use bf_tree.CircularBuffer.MetaState.{
  MetaState, to_ready, try_begin_tombstone, revert_to_ready, free_list_to_tombstone, to_freelist,
  to_tombstone, tombstone_to_evicted, reuse,
}
use bf_tree.CircularBuffer.Protocol.{
  Evictor, idle, looping, holding, found, dying, over, Block, Step, drop_guard, acquire,
  drop_handle, dealloc_tombstone, dealloc_list, take, take_tombstone, take_reuse, take_fail,
  reserve, evict_acquire, evict_refused, evict_tombstone, evict_seen, evict_remove, evict_found,
  evict_end, IsReachable, start, after,
}

-- The evictor has no token, and its loop has not ended.
abbrev pub is_quiet : Evictor → Bool
is_quiet idle = true
is_quiet looping = true
is_quiet _ = false

abbrev pub is_holding : Evictor → Bool
is_holding holding = true
is_holding _ = false

abbrev pub is_found : Evictor → Bool
is_found found = true
is_found _ = false

abbrev pub is_dying : Evictor → Bool
is_dying dying = true
is_dying _ = false

abbrev pub is_over : Evictor → Bool
is_over over = true
is_over _ = false

-- Exactly one of the two, or at most one of the three.
abbrev one_of : Bool → Bool → Bool
one_of true b = not b
one_of false b = b

abbrev one_at_most : Bool → Bool → Bool → Bool
one_at_most true b c = not b && not c
one_at_most false b c = not (b && c)

-- Which tokens go with a state: the guard, a handle of a thread, a place in the free list, having been
-- taken from it by `alloc`, and those of the evictor.
pub tokens_fit : MetaState → Bool → Bool → Bool → Bool → Evictor → Bool
tokens_fit MetaState.not_ready g h l t e = g && not h && not l && not t && is_quiet e
tokens_fit MetaState.ready g h l t e = not g && not h && not l && not t && is_quiet e
tokens_fit MetaState.begin_tombstone g h l t e =
    not g
    && not l
    && not t
    && one_of h (is_holding e)
    && not (is_found e || is_dying e || is_over e)
tokens_fit MetaState.free_listed g h l t e =
    not g && not h && one_at_most l t (is_found e) && not (is_holding e || is_dying e || is_over e)
tokens_fit MetaState.tombstone g h l t e =
    not g && not h && not l && not t && (is_quiet e || is_dying e)
tokens_fit MetaState.evicted g h l t e = not g && not h && not l && not t && is_over e

abbrev Owned : Block → Type 0
Owned b = tokens_fit b.state b.guard b.handle b.listed b.taken b.evictor ≡ true

Step-Owned : {b b' : Block} → Step b b' → Owned b → Owned b'
unfolding tokens_fit to_ready try_begin_tombstone revert_to_ready free_list_to_tombstone to_freelist
    to_tombstone tombstone_to_evicted reuse
Step-Owned (drop_guard b s h e) o = ground arith
Step-Owned (acquire b s e) o = ground arith
Step-Owned (drop_handle b s h e) o = ground arith
Step-Owned (dealloc_tombstone b s h e) o = ground arith
Step-Owned (dealloc_list b s h e) o = ground arith
Step-Owned (take b h) o = ground arith
Step-Owned (take_tombstone b s h e) o = ground arith
Step-Owned (take_reuse b s h e) o = ground arith
Step-Owned (take_fail b h) o = ground arith
Step-Owned (reserve b h) o = ground arith
Step-Owned (evict_acquire b s h e) o = ground arith
Step-Owned (evict_refused b s h e) o = ground arith
Step-Owned (evict_tombstone b s h e) o = ground arith
Step-Owned (evict_seen b h e) o = ground arith
Step-Owned (evict_remove b h l) o = ground arith
Step-Owned (evict_found b s h e) o = ground arith
Step-Owned (evict_end b s h e) o = ground arith

IsReachable-Owned : {b : Block} → IsReachable b → Owned b
unfolding tokens_fit
IsReachable-Owned start = refl
IsReachable-Owned (after r s) = Step-Owned s (IsReachable-Owned r)

-- The exchanges that the owners make find the state that they expect: no panic.
pub record NoPanic (b : Block) : Type 0 where
  pub guard_drops : b.guard ≡ true → to_ready b.state ≡ some MetaState.ready
  pub handle_drops : b.handle ≡ true → revert_to_ready b.state ≡ some MetaState.ready
  pub handle_frees : b.handle ≡ true → to_tombstone b.state ≡ some MetaState.tombstone
  pub handle_lists : b.handle ≡ true → to_freelist b.state ≡ some MetaState.free_listed
  pub taken_dies : b.taken ≡ true → free_list_to_tombstone b.state ≡ some MetaState.tombstone
  pub taken_serves : b.taken ≡ true → reuse b.state ≡ some MetaState.not_ready
  pub evictor_drops : b.evictor ≡ holding → revert_to_ready b.state ≡ some MetaState.ready
  pub evictor_frees : b.evictor ≡ holding → to_tombstone b.state ≡ some MetaState.tombstone
  pub evictor_ends : b.evictor ≡ dying → tombstone_to_evicted b.state ≡ some MetaState.evicted
  pub found_dies : b.evictor ≡ found → free_list_to_tombstone b.state ≡ some MetaState.tombstone

-- At most one thread has the memory.
pub record Exclusive (b : Block) : Type 0 where
  pub guard_alone : b.guard ≡ true → (b.handle ≡ false) × (b.taken ≡ false) × (b.evictor ≢ holding)
  pub handle_alone : b.handle ≡ true → (b.taken ≡ false) × (b.evictor ≢ holding)
  pub list_alone : b.listed ≡ true → (b.guard ≡ false) × (b.handle ≡ false) × (b.taken ≡ false)

-- Whatever the threads do, in whatever order, the memory has at most one owner, and no exchange of
-- an owner panics.
pub no_panic : (b : Block) → IsReachable b → NoPanic b × Exclusive b
unfolding tokens_fit to_ready revert_to_ready free_list_to_tombstone to_freelist to_tombstone
    tombstone_to_evicted reuse
no_panic b r = let o = IsReachable-Owned r in ground arith

-- Several steps.
pub data Steps (b : Block) : Block → Type 0 where
  here : Steps b b
  then_one : {c d : Block} → Steps b c → Step c d → Steps b d

-- Memory that is marked as free, but in no list and in no hands.
pub record IsLost (b : Block) : Type 0 where
  pub free : b.state ≡ MetaState.free_listed
  pub guard : b.guard ≡ false
  pub handle : b.handle ≡ false
  pub listed : b.listed ≡ false
  pub taken : b.taken ≡ false
  pub holds : is_holding b.evictor ≡ false
  pub finds : is_found b.evictor ≡ false
  pub dies : is_dying b.evictor ≡ false
  pub ends : is_over b.evictor ≡ false

Step-IsLost : {b b' : Block} → Step b b' → IsLost b → IsLost b'
unfolding to_ready try_begin_tombstone revert_to_ready free_list_to_tombstone to_freelist
    to_tombstone tombstone_to_evicted reuse
Step-IsLost (drop_guard b s h e) o = ground arith
Step-IsLost (acquire b s e) o = ground arith
Step-IsLost (drop_handle b s h e) o = ground arith
Step-IsLost (dealloc_tombstone b s h e) o = ground arith
Step-IsLost (dealloc_list b s h e) o = ground arith
Step-IsLost (take b h) o = ground arith
Step-IsLost (take_tombstone b s h e) o = ground arith
Step-IsLost (take_reuse b s h e) o = ground arith
Step-IsLost (take_fail b h) o = ground arith
Step-IsLost (reserve b h) o = ground arith
Step-IsLost (evict_acquire b s h e) o = ground arith
Step-IsLost (evict_refused b s h e) o = ground arith
Step-IsLost (evict_tombstone b s h e) o = ground arith
Step-IsLost (evict_seen b h e) o = ground arith
Step-IsLost (evict_remove b h l) o = ground arith
Step-IsLost (evict_found b s h e) o = ground arith
Step-IsLost (evict_end b s h e) o = ground arith

Steps-IsLost : {b b' : Block} → Steps b b' → IsLost b → IsLost b'
Steps-IsLost here o = o
Steps-IsLost (then_one r s) o = Step-IsLost s (Steps-IsLost r o)

-- The exchange of `alloc` fails: the thread gives the memory up, and its state stays.
Step_failed-IsLost :
    {b c : Block}
    → Step b c
    → Owned b
    → b.taken ≡ true
    → c.taken ≡ false
    → c.state ≡ b.state
    → IsLost c
unfolding tokens_fit to_ready try_begin_tombstone revert_to_ready free_list_to_tombstone to_freelist
    to_tombstone tombstone_to_evicted reuse
Step_failed-IsLost (drop_guard b s h e) o t u k = ground arith
Step_failed-IsLost (acquire b s e) o t u k = ground arith
Step_failed-IsLost (drop_handle b s h e) o t u k = ground arith
Step_failed-IsLost (dealloc_tombstone b s h e) o t u k = ground arith
Step_failed-IsLost (dealloc_list b s h e) o t u k = ground arith
Step_failed-IsLost (take b h) o t u k = ground arith
Step_failed-IsLost (take_tombstone b s h e) o t u k = ground arith
Step_failed-IsLost (take_reuse b s h e) o t u k = ground arith
Step_failed-IsLost (take_fail b h) o t u k = ground arith
Step_failed-IsLost (reserve b h) o t u k = ground arith
Step_failed-IsLost (evict_acquire b s h e) o t u k = ground arith
Step_failed-IsLost (evict_refused b s h e) o t u k = ground arith
Step_failed-IsLost (evict_tombstone b s h e) o t u k = ground arith
Step_failed-IsLost (evict_seen b h e) o t u k = ground arith
Step_failed-IsLost (evict_remove b h l) o t u k = ground arith
Step_failed-IsLost (evict_found b s h e) o t u k = ground arith
Step_failed-IsLost (evict_end b s h e) o t u k = ground arith

-- A step by which `alloc` gives up the memory that it has taken from the free list, and which leaves
-- the state as it is, loses the memory: whatever steps follow, it stays marked as free, in no list and
-- in no hands, and the thread that evicts it never comes to the end of its loop.
pub failed_exchange_loses :
    (b c d : Block)
    → IsReachable b
    → b.taken ≡ true
    → Step b c
    → c.taken ≡ false
    → c.state ≡ b.state
    → Steps c d
    → IsLost d × (tombstone_to_evicted d.state ≡ none) × (d.evictor ≢ over)
unfolding tombstone_to_evicted
failed_exchange_loses b c d r t s u k more =
    let l = Steps-IsLost more (Step_failed-IsLost s (IsReachable-Owned r) t u k) in
    (l, rw l.free refl, λ e. ground arith)
