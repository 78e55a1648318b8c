-- ===== src/CircularBuffer/Buffer/Run.antt =====
-- Runs of the operations of `CircularBuffer` by any threads, in any order; a step is what a thread does
-- while it holds the mutex, or by exchanges of states. `alloc` is one step, or one for each time that it calls
-- itself; other threads may come between. The loop of `alloc`, a deallocation and a round of eviction are
-- one step, or one for each of their exchanges of states and changes of the free list, which other threads
-- may come between too.
use bf_tree.Common.{
  ℕ, zero, suc, ◌+◌, ◌-◌, ◌%◌, ◌<◌, ◌≤◌, ◌≡◌, ◌∙◌, refl, sym, subst, inl, inr, arith, [], Option,
  none, some, some-injective, bind-some, check-some, ◌^◌, Bool, true, Bool-cases, leb, ◌==◌, check,
}
use bf_tree.CircularBuffer.MetaState.{MetaState, to_ready}
use bf_tree.CircularBuffer.FreeList
use bf_tree.CircularBuffer.FreeList.{
  FreeList, Added, would_block, size_too_small, added, find_and_remove,
}
use bf_tree.CircularBuffer.Buffer.{
  drop_guard, new, is_layout, is_power_of_two, is_power_below, AllocMeta, CircularBuffer,
  get_meta_from_data_ptr, acquire_exclusive_dealloc_handle, dealloc_inner, serve, alloc,
  alloc_at_tail, with_state, Allocated, take_free, full, empty_alloc, calls_again, pointer,
  required,
}
use bf_tree.CircularBuffer.Eviction.{
  reserve, evict_round, Round, try_bump_head_address_to_evicting_addr,
}
use bf_tree.CircularBuffer.Buffer.Alloc.{IsTiled, Serves, alloc_at_tail-Serves}
use bf_tree.CircularBuffer.Buffer.Evict.{
  reserve-IsReserved, try_bump_head_address_to_evicting_addr-IsBumped,
}
use bf_tree.CircularBuffer.Buffer.Shape.{
  SameShape-IsTiled, take_free-SameShape, free_list-SameShape, with_state-SameShape,
}
use bf_tree.CircularBuffer.Buffer.Rounds.{
  exchange-SameShape, acquire_exclusive_dealloc_handle-SameShape, dealloc_inner-SameShape, left_by,
  evict_round-SameShape,
}

served-IsTiled :
    (b : CircularBuffer) (size : ℕ) (r : Allocated × CircularBuffer) → Serves b size r → IsTiled r.1
served-IsTiled b size (pointer p, c) s = s.valid
served-IsTiled b size (full, c) s = s.0
served-IsTiled b size (empty_alloc, c) s = elim s [ ]
served-IsTiled b size (calls_again, c) s = s.0

serve-IsTiled :
    (size : ℕ) (x : Option ℕ × CircularBuffer) (r : Allocated × CircularBuffer)
    → IsTiled x.1
    → 0 < size
    → required size ≤ 4294967296
    → serve size x ≡ some r
    → IsTiled r.1
serve-IsTiled size (some ptr, b) r v pos u e =
    subst (λ (r : Allocated × CircularBuffer). IsTiled r.1) (some-injective _ _ e) v
serve-IsTiled size (none, b) r v pos u e =
    let (q, f, s) = alloc_at_tail-Serves b size v pos u in
    subst (λ (r : Allocated × CircularBuffer). IsTiled r.1) (some-injective _ _ (sym f ∙ e))
      (served-IsTiled b size q s)

-- `alloc` leaves a row of pieces, whether it serves from the free list, at the tail, not at all, or calls
-- itself.
pub alloc-IsTiled :
    (b : CircularBuffer) (size : ℕ) (r : Allocated × CircularBuffer)
    → IsTiled b
    → required size ≤ 4294967296
    → alloc b size ≡ some r
    → IsTiled r.1
unfolding alloc
alloc-IsTiled b size r v u e = elim (Bool-cases (size == 0)) [
  | inl nothing ↦
      subst (λ (r : Allocated × CircularBuffer). IsTiled r.1) (some-injective _ _ (rw nothing at e))
        v
  | inr some_bytes ↦
      let (smallest, _, e1) =
        bind-some (FreeList.last b.free_list.size_classes) _ (rw some_bytes at e) in
      let (_, _, e2) = bind-some (check (leb smallest size)) _ e1 in
      let (i, _, e3) = bind-some (FreeList.size_class_larger_than b.free_list size) _ e2 in
      let (taken, t, e4) = bind-some (take_free b size i (b.free_list.lists i)) _ e3 in
      let w =
        SameShape-IsTiled b taken.1 (take_free-SameShape b size i (b.free_list.lists i) taken t)
          v in
      serve-IsTiled size taken r w (ground (arith, some_bytes)) u e4
]

-- What a thread does to the buffer in one step, when no thread asks for more than `most` bytes.
pub data Step (most : ℕ) : CircularBuffer → CircularBuffer → Type 0 where
  allocated :
      (b : CircularBuffer) (size : ℕ) (r : Allocated × CircularBuffer)
      → size ≤ most
      → alloc b size ≡ some r
      → Step most b r.1
  guard_dropped : (b c : CircularBuffer) (ptr : ℕ) → drop_guard b ptr ≡ some c → Step most b c
  acquired :
      (b c : CircularBuffer) (ptr : ℕ)
      → acquire_exclusive_dealloc_handle b ptr ≡ some c
      → Step most b c
  deallocated :
      (b c : CircularBuffer) (ptr : ℕ) (contended : Bool)
      → dealloc_inner b ptr true contended ≡ some c
      → Step most b c
  reserved :
      (b c : CircularBuffer) (start end : ℕ) → reserve b ≡ some ((start, end), c) → Step most b c
  round :
      (b : CircularBuffer) (start : ℕ) (accepts : Bool) (r : Round)
      → evict_round b start accepts ≡ some r
      → Step most b (left_by r)
  -- One change of the free list, and one exchange of a state, whatever it is.
  relisted : (b : CircularBuffer) (f : FreeList) → Step most b (record b { free_list = f })
  exchanged : (b : CircularBuffer) (p : ℕ) (s : MetaState) → Step most b (with_state b p s)
  -- The end of `alloc`, behind its loop.
  allocated_at_tail :
      (b : CircularBuffer) (size : ℕ) (r : Allocated × CircularBuffer)
      → 0 < size
      → size ≤ most
      → alloc_at_tail b size ≡ some r
      → Step most b r.1
  bumped : (b : CircularBuffer) → Step most b (try_bump_head_address_to_evicting_addr b).1

pub data IsRun (most : ℕ) : CircularBuffer → CircularBuffer → Type 0 where
  started : (b : CircularBuffer) → IsRun most b b
  then_step : (b c d : CircularBuffer) → IsRun most b c → Step most c d → IsRun most b d

step-IsTiled :
    (most : ℕ) (b c : CircularBuffer)
    → required most ≤ 4294967296
    → Step most b c
    → IsTiled b
    → IsTiled c
step-IsTiled most b _ u (allocated _ size r l e) v =
    alloc-IsTiled b size r v (omega (arith, l, u)) e
step-IsTiled most b c u (guard_dropped _ _ ptr e) v =
    SameShape-IsTiled b c
      (exchange-SameShape b (ptr - 8) (to_ready (get_meta_from_data_ptr b ptr).state) c e) v
step-IsTiled most b c u (acquired _ _ ptr e) v =
    SameShape-IsTiled b c (acquire_exclusive_dealloc_handle-SameShape b ptr c e) v
step-IsTiled most b c u (deallocated _ _ ptr contended e) v =
    SameShape-IsTiled b c (dealloc_inner-SameShape b ptr true contended c e) v
step-IsTiled most b c u (reserved _ _ start end e) v = (reserve-IsReserved b c start end v e).valid
step-IsTiled most b _ u (round _ start accepts r e) v =
    SameShape-IsTiled b (left_by r) (evict_round-SameShape b start accepts r e) v
step-IsTiled most b _ u (relisted _ f) v =
    SameShape-IsTiled b (record b { free_list = f }) (free_list-SameShape b f) v
step-IsTiled most b _ u (exchanged _ p s) v =
    SameShape-IsTiled b (with_state b p s) (with_state-SameShape b p s) v
step-IsTiled most b _ u (allocated_at_tail _ size r pos l e) v =
    let (q, f, s) = alloc_at_tail-Serves b size v pos (omega (arith, l, u)) in
    subst (λ (r : Allocated × CircularBuffer). IsTiled r.1) (some-injective _ _ (sym f ∙ e))
      (served-IsTiled b size q s)
step-IsTiled most b _ u (bumped _) v = (try_bump_head_address_to_evicting_addr-IsBumped b v).valid

run-IsTiled :
    (most : ℕ) (b c : CircularBuffer)
    → required most ≤ 4294967296
    → IsRun most b c
    → IsTiled b
    → IsTiled c
run-IsTiled most b _ u (started _) v = v
run-IsTiled most b d u (then_step _ c _ r s) v =
    step-IsTiled most c d u s (run-IsTiled most b c u r v)

power_whole : (k : ℕ) → 8 ≤ 2 ^ k → 2 ^ k % 8 ≡ 0
power_whole zero l = absurd (omega (arith, l))
power_whole (suc zero) l = absurd (omega (arith, l))
power_whole (suc (suc zero)) l = absurd (omega (arith, l))
power_whole (suc (suc (suc k))) l = omega arith

is_power_below-whole : (k n : ℕ) → is_power_below k n ≡ true → 8 ≤ n → n % 8 ≡ 0
unfolding is_power_below
is_power_below-whole zero n p l = cc
is_power_below-whole (suc k) n p l = elim (Bool-cases (n == 2 ^ k)) [
  | inl here ↦ let e : n ≡ 2 ^ k = ground (arith, here) in rw e (power_whole k (rw e at l))
  | inr below ↦ is_power_below-whole k n (rw below at p) l
]

-- After any steps of any threads on a buffer that `new` makes, with requests that take at most 2 ^ 32 bytes
-- with their metas, the buffer is a row of pieces from the head to the evicting address and on to the
-- tail, which is at most one round of the memory. Other threads may come between `alloc` and its call of
-- itself, and between the exchanges of states and the changes of the free list.
pub always_tiled :
    (capacity leaf_page_size threshold most : ℕ) (metas : ℕ → AllocMeta) (f : FreeList)
    (b c : CircularBuffer)
    → new capacity leaf_page_size threshold metas f ≡ some b
    → required most ≤ 4294967296
    → IsRun most b c
    → IsTiled c
unfolding new
always_tiled capacity leaf_page_size threshold most metas f b c n u r =
    let (_, p, e) = bind-some (check (is_power_of_two capacity)) _ n in
    let (_, l, e') = bind-some (check (leb (leaf_page_size + 8) capacity)) _ e in
    let (_, _, e'') = bind-some (check (is_layout capacity)) _ e' in
    let large = check-some (leb (leaf_page_size + 8) capacity) l in
    let some_memory : 8 ≤ capacity = ground (arith, large) in
    run-IsTiled most b c u r (
      subst IsTiled (some-injective _ _ e'') (record {
        leaving = [];
        live = [];
        front = refl;
        back = refl;
        round = omega arith;
        some_memory = omega arith;
        whole =
            is_power_below-whole 64 capacity (check-some (is_power_of_two capacity) p) some_memory;
        start = refl;
      }))
