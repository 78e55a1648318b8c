-- ===== src/CircularBuffer/Buffer/Rounds.antt =====
-- Handles, deallocation and the rounds of eviction leave the row of pieces as it is.
use bf_tree.Common.{
  ℕ, ◌+◌, ◌-◌, ◌≡◌, refl, subst, inl, inr, Option, none, some, some-injective, bind-some, Bool,
  true, false, Bool-cases, ◌>>=◌,
}
use bf_tree.CircularBuffer.MetaState.{
  MetaState, to_freelist, to_tombstone, try_begin_tombstone, revert_to_ready,
  free_list_to_tombstone, tombstone_to_evicted,
}
use bf_tree.CircularBuffer.FreeList
use bf_tree.CircularBuffer.FreeList.{
  FreeList, Added, would_block, size_too_small, added, find_and_remove,
}
use bf_tree.CircularBuffer.Buffer.{
  CircularBuffer, with_state, get_meta_from_data_ptr, acquire_exclusive_dealloc_handle,
  dealloc_inner, listed_or_dead, logical_to_physical, ptr_is_copy_on_access,
}
use bf_tree.CircularBuffer.Eviction.{
  finish, unlist, offer, held_or_not, evict_by_state, evict_round, Round, done, again,
}
use bf_tree.CircularBuffer.Buffer.Shape.{
  SameShape, same_shape, SameShape-trans, with_state-SameShape, free_list-SameShape, both-SameShape,
}

-- An exchange of the state at an offset.
pub exchange-SameShape :
    (b : CircularBuffer) (p : ℕ) (o : Option MetaState) (c : CircularBuffer)
    → (o >>= λ s. some (with_state b p s)) ≡ some c
    → SameShape b c
exchange-SameShape b p o c e =
    let (s, _, g) = bind-some o _ e in
    subst (SameShape b) (some-injective _ _ g) (with_state-SameShape b p s)

pub acquire_exclusive_dealloc_handle-SameShape :
    (b : CircularBuffer) (ptr : ℕ) (c : CircularBuffer)
    → acquire_exclusive_dealloc_handle b ptr ≡ some c
    → SameShape b c
unfolding acquire_exclusive_dealloc_handle
acquire_exclusive_dealloc_handle-SameShape b ptr c e =
    exchange-SameShape b (ptr - 8) (try_begin_tombstone (get_meta_from_data_ptr b ptr).state) c e

listed_or_dead-SameShape :
    (b : CircularBuffer) (ptr : ℕ) (a : Added) (c : CircularBuffer)
    → listed_or_dead b ptr a ≡ some c
    → SameShape b c
unfolding listed_or_dead
listed_or_dead-SameShape b ptr would_block c e =
    exchange-SameShape b (ptr - 8) (to_tombstone (get_meta_from_data_ptr b ptr).state) c e
listed_or_dead-SameShape b ptr size_too_small c e =
    exchange-SameShape b (ptr - 8) (to_tombstone (get_meta_from_data_ptr b ptr).state) c e
listed_or_dead-SameShape b ptr (added f) c e =
    let d = record b { free_list = f } in
    SameShape-trans b d c (free_list-SameShape b f)
      (exchange-SameShape d (ptr - 8) (to_freelist (get_meta_from_data_ptr b ptr).state) c e)

pub dealloc_inner-SameShape :
    (b : CircularBuffer) (ptr : ℕ) (add_to_freelist contended : Bool) (c : CircularBuffer)
    → dealloc_inner b ptr add_to_freelist contended ≡ some c
    → SameShape b c
unfolding dealloc_inner
dealloc_inner-SameShape b ptr false contended c e =
    exchange-SameShape b (ptr - 8) (to_tombstone (get_meta_from_data_ptr b ptr).state) c e
dealloc_inner-SameShape b ptr true contended c e =
    let m = get_meta_from_data_ptr b ptr in
    elim (Bool-cases (ptr_is_copy_on_access b ptr)) [
      | inl old ↦ exchange-SameShape b (ptr - 8) (to_tombstone m.state) c (rw old at e)
      | inr young ↦
          let (a, _, g) =
            bind-some (FreeList.try_add b.free_list ptr m.size contended) _ (rw young at e) in
          listed_or_dead-SameShape b ptr a c g
    ]

-- The buffer a round of the loop of `evict_one` leaves.
abbrev pub left_by : Round → CircularBuffer
left_by (done c) = c
left_by (again c) = c

finish-SameShape :
    (b : CircularBuffer) (p : ℕ) (r : Round) → finish b p ≡ some r → SameShape b (left_by r)
finish-SameShape b p r e =
    let (s, _, g) = bind-some (tombstone_to_evicted (b.metas p).state) _ e in
    subst (λ r. SameShape b (left_by r)) (some-injective _ _ g) (with_state-SameShape b p s)

again-SameShape :
    (b : CircularBuffer) (r : Round) → some (again b) ≡ some r → SameShape b (left_by r)
again-SameShape b r e = subst (λ r. SameShape b (left_by r)) (some-injective _ _ e) (same_shape b)

unlist-SameShape :
    (b : CircularBuffer) (p : ℕ) (x : Bool × FreeList) (r : Round)
    → unlist b p x ≡ some r
    → SameShape b (left_by r)
unlist-SameShape b p (true, f) r e =
    let (s, _, g) = bind-some (free_list_to_tombstone (b.metas p).state) _ e in
    let c = with_state (record b { free_list = f }) p s in
    SameShape-trans b c (left_by r) (both-SameShape b f p s) (finish-SameShape c p r g)
unlist-SameShape b p (false, f) r e = again-SameShape b r e

evict_by_state-SameShape :
    (b : CircularBuffer) (p : ℕ) (m : MetaState) (r : Round)
    → evict_by_state b p m ≡ some r
    → SameShape b (left_by r)
unfolding evict_by_state
evict_by_state-SameShape b p MetaState.tombstone r e = finish-SameShape b p r e
evict_by_state-SameShape b p MetaState.free_listed r e =
    let (x, _, g) = bind-some (find_and_remove b.free_list (p + 8) (b.metas p).size) _ e in
    unlist-SameShape b p x r g
evict_by_state-SameShape b p MetaState.not_ready r e = again-SameShape b r e
evict_by_state-SameShape b p MetaState.ready r e = again-SameShape b r e
evict_by_state-SameShape b p MetaState.begin_tombstone r e = again-SameShape b r e
evict_by_state-SameShape b p MetaState.evicted r e = again-SameShape b r e

offer-SameShape :
    (b : CircularBuffer) (p : ℕ) (accepts : Bool) (r : Round)
    → offer b p accepts ≡ some r
    → SameShape b (left_by r)
offer-SameShape b p true r e =
    let (c, d, g) = bind-some (dealloc_inner b (p + 8) false false) _ e in
    SameShape-trans b c (left_by r) (dealloc_inner-SameShape b (p + 8) false false c d)
      (finish-SameShape c p r g)
offer-SameShape b p false r e =
    let (s, _, g) = bind-some (revert_to_ready (b.metas p).state) _ e in
    subst (λ r. SameShape b (left_by r)) (some-injective _ _ g) (with_state-SameShape b p s)

held_or_not-SameShape :
    (b : CircularBuffer) (p : ℕ) (accepts : Bool) (o : Option CircularBuffer) (r : Round)
    → acquire_exclusive_dealloc_handle b (p + 8) ≡ o
    → held_or_not b p accepts o ≡ some r
    → SameShape b (left_by r)
unfolding held_or_not
held_or_not-SameShape b p accepts (some held) r a e =
    SameShape-trans b held (left_by r) (acquire_exclusive_dealloc_handle-SameShape b (p + 8) held a)
      (offer-SameShape held p accepts r e)
held_or_not-SameShape b p accepts none r a e = evict_by_state-SameShape b p (b.metas p).state r e

pub evict_round-SameShape :
    (b : CircularBuffer) (start : ℕ) (accepts : Bool) (r : Round)
    → evict_round b start accepts ≡ some r
    → SameShape b (left_by r)
unfolding evict_round
evict_round-SameShape b start accepts r e =
    let p = logical_to_physical b start in
    held_or_not-SameShape b p accepts (acquire_exclusive_dealloc_handle b (p + 8)) r refl e
