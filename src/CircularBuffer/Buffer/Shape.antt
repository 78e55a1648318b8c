-- ===== src/CircularBuffer/Buffer/Shape.antt =====
-- The operations on states and on the free list leave the row of pieces as it is.
use native.Mathlib.Decide.{ℕ_discrete}
use bf_tree.Common.{
  ℕ, ◌-◌, ◌%◌, ◌≡◌, ◌∙◌, refl, subst, inl, inr, List, [], ◌∷◌, Option, some, some-injective,
  bind-some, Bool-cases, Option-cases, leb, check,
}
use bf_tree.Common.Shift.{put_at, put_at_self, put_at_other}
use bf_tree.CircularBuffer.MetaState.{MetaState, reuse, free_list_to_tombstone}
use bf_tree.CircularBuffer.FreeList.{FreeList}
use bf_tree.CircularBuffer.Buffer.{
  CircularBuffer, with_state, take_free, ptr_is_copy_on_access, get_meta_from_data_ptr,
}
use bf_tree.CircularBuffer.Buffer.Tiling.{Tiles_ext}
use bf_tree.CircularBuffer.Buffer.Alloc.{IsTiled}

-- `c` differs from `b` in states and in the free list only.
pub record SameShape (b c : CircularBuffer) : Type 0 where
  pub same_head : c.head_addr ≡ b.head_addr
  pub same_evicting : c.evicting_addr ≡ b.evicting_addr
  pub same_tail : c.tail_addr ≡ b.tail_addr
  pub same_capacity : c.capacity ≡ b.capacity
  pub same_sizes : (q : ℕ) → (c.metas q).size ≡ (b.metas q).size

pub same_shape : (b : CircularBuffer) → SameShape b b
same_shape b = record {
  same_head = refl;
  same_evicting = refl;
  same_tail = refl;
  same_capacity = refl;
  same_sizes = λ q. refl;
}

pub SameShape-trans : (b c d : CircularBuffer) → SameShape b c → SameShape c d → SameShape b d
SameShape-trans b c d x y = record {
  same_head = y.same_head ∙ x.same_head;
  same_evicting = y.same_evicting ∙ x.same_evicting;
  same_tail = y.same_tail ∙ x.same_tail;
  same_capacity = y.same_capacity ∙ x.same_capacity;
  same_sizes = λ q. y.same_sizes q ∙ x.same_sizes q;
}

pub with_state-SameShape :
    (b : CircularBuffer) (p : ℕ) (s : MetaState) → SameShape b (with_state b p s)
with_state-SameShape b p s = record {
  same_head = refl;
  same_evicting = refl;
  same_tail = refl;
  same_capacity = refl;
  same_sizes = λ q. elim (ℕ_discrete q p) [
    | yes e ↦ rw (e, put_at_self b.metas p (record (b.metas p) { state = s })) refl
    | no d ↦ rw (put_at_other b.metas p (record (b.metas p) { state = s }) q d) refl
  ];
}

pub SameShape-IsTiled : (b c : CircularBuffer) → SameShape b c → IsTiled b → IsTiled c
SameShape-IsTiled b c x v = record {
  leaving = v.leaving;
  live = v.live;
  front =
      rw (x.same_capacity, x.same_head, x.same_evicting)
        (Tiles_ext b.metas c.metas b.capacity b.head_addr v.leaving b.evicting_addr
          (λ y l h. x.same_sizes (y % b.capacity)) v.front);
  back =
      rw (x.same_capacity, x.same_evicting, x.same_tail)
        (Tiles_ext b.metas c.metas b.capacity b.evicting_addr v.live b.tail_addr
          (λ y l h. x.same_sizes (y % b.capacity)) v.back);
  round = rw (x.same_capacity, x.same_head, x.same_tail) v.round;
  some_memory = rw x.same_capacity v.some_memory;
  whole = rw x.same_capacity v.whole;
  start = rw x.same_head v.start;
}

pub free_list-SameShape :
    (b : CircularBuffer) (f : FreeList) → SameShape b (record b { free_list = f })
free_list-SameShape b f = record {
  same_head = refl;
  same_evicting = refl;
  same_tail = refl;
  same_capacity = refl;
  same_sizes = λ q. refl;
}

-- A state and the free list changed.
pub both-SameShape :
    (b : CircularBuffer) (f : FreeList) (p : ℕ) (s : MetaState)
    → SameShape b (with_state (record b { free_list = f }) p s)
both-SameShape b f p s =
    let c = record b { free_list = f } in
    SameShape-trans b c (with_state c p s) (free_list-SameShape b f) (with_state-SameShape c p s)

pub take_free-SameShape :
    (b : CircularBuffer) (size i : ℕ) (ptrs : List ℕ) (r : Option ℕ × CircularBuffer)
    → take_free b size i ptrs ≡ some r
    → SameShape b r.1
unfolding take_free
take_free-SameShape b size i [] r e =
    subst (λ (r : Option ℕ × CircularBuffer). SameShape b r.1) (some-injective _ _ e)
      (free_list-SameShape b (record b.free_list { lists = put_at b.free_list.lists i [] }))
take_free-SameShape b size i (ptr ∷ rest) r e =
    let m = get_meta_from_data_ptr b ptr in
    let f = record b.free_list { lists = put_at b.free_list.lists i rest } in
    let left = record b { free_list = f } in
    elim (Bool-cases (ptr_is_copy_on_access b ptr)) [
      | inl dying ↦
          let (s, _, g) =
            bind-some (free_list_to_tombstone m.state) _ (rw (dying, take_free) at e) in
          let c = with_state left (ptr - 8) s in
          SameShape-trans b c r.1 (both-SameShape b f (ptr - 8) s)
            (take_free-SameShape c size i rest r g)
      | inr kept ↦
          let (_, _, g) = bind-some (check (leb size m.size)) _ (rw (kept, take_free) at e) in
          elim (Option-cases (reuse m.state)) [
            | inl lost ↦
                SameShape-trans b left r.1 (free_list-SameShape b f)
                  (take_free-SameShape left size i rest r (rw lost at g))
            | inr (s, won) ↦
                subst (λ (r : Option ℕ × CircularBuffer). SameShape b r.1)
                  (some-injective _ _ (rw won at g)) (both-SameShape b f (ptr - 8) s)
          ]
    ]
