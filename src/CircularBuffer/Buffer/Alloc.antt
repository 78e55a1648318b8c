-- ===== src/CircularBuffer/Buffer/Alloc.antt =====
-- What `alloc` hands out at the tail, and that the pieces of the buffer never meet.
use native.Mathlib.Nat.{
  mod-add-mod, mod-eq_of_lt, mod-lt, div-add-mod, mul-add, mul-one, mul-mod_right,
}
use bf_tree.Common.{
  ℕ, ◌+◌, ◌-◌, ◌*◌, ◌/◌, ◌%◌, ◌≤◌, ◌<◌, ◌≡◌, ◌∙◌, ◌⊎◌, inl, inr, refl, ap, sym, arith, List, [],
  ◌∷◌, ◌++◌, some, true, false, Bool-cases, ltb, leb,
}
use bf_tree.Common.Shift.{put_at, put_at_self}
use bf_tree.CircularBuffer.MetaState.{MetaState}
use bf_tree.CircularBuffer.Buffer.{
  AllocMeta, CircularBuffer, align_up, logical_remaining, physical_remaining, required, push, fill,
  at_tail, logical_to_physical, Allocated, full, empty_alloc, calls_again, pointer, alloc_at_tail,
  as_u32,
}
use bf_tree.CircularBuffer.Buffer.Ring.{apart_in_ring}
use bf_tree.CircularBuffer.Buffer.Tiling.{
  Tiles, Tiles-le, Tiles_aligned, Tiles-append, Tiles-put_at, mod_aligned,
}

-- The buffer is a row of pieces from the head to the evicting address and on to the tail, at most one
-- round of the memory.
pub record IsTiled (b : CircularBuffer) : Type 0 where
  pub leaving : List ℕ
  pub live : List ℕ
  pub front : Tiles b.metas b.capacity b.head_addr leaving b.evicting_addr
  pub back : Tiles b.metas b.capacity b.evicting_addr live b.tail_addr
  pub round : b.tail_addr ≤ b.head_addr + b.capacity
  pub some_memory : 0 < b.capacity
  pub whole : b.capacity % 8 ≡ 0
  pub start : b.head_addr % 8 ≡ 0

tail_aligned : (b : CircularBuffer) → IsTiled b → b.tail_addr % 8 ≡ 0
tail_aligned b v =
    Tiles_aligned b.metas b.capacity b.evicting_addr v.live b.tail_addr
      (Tiles_aligned b.metas b.capacity b.head_addr v.leaving b.evicting_addr v.start v.front)
      v.back

-- The order of the three addresses.
pub addresses_rise :
    (b : CircularBuffer)
    → IsTiled b
    → (b.head_addr ≤ b.evicting_addr) × (b.evicting_addr ≤ b.tail_addr)
addresses_rise b v = (
  Tiles-le b.metas b.capacity b.head_addr v.leaving b.evicting_addr v.front,
  Tiles-le b.metas b.capacity b.evicting_addr v.live b.tail_addr v.back,
)

push-IsTiled :
    (b : CircularBuffer) (size : ℕ) (s : MetaState)
    → IsTiled b
    → size % 8 ≡ 0
    → size < 4294967296
    → b.tail_addr % b.capacity + (size + 8) ≤ b.capacity
    → b.tail_addr + (size + 8) ≤ b.head_addr + b.capacity
    → IsTiled (push b size s)
push-IsTiled b size s v a u p l =
    let o = addresses_rise b v in
    let m : AllocMeta = record { size = as_u32 size; state = s } in
    let metas = put_at b.metas (b.tail_addr % b.capacity) m in
    let e : b.tail_addr + size + 8 ≡ b.tail_addr + (size + 8) = omega arith in
    let back =
      Tiles-put_at b.metas b.capacity b.evicting_addr v.live b.tail_addr b.tail_addr (size + 8) m
        (omega arith) p (omega arith) (omega (arith, o)) v.back in
    record {
      leaving = v.leaving;
      live = v.live ++ (size ∷ []);
      front =
          Tiles-put_at b.metas b.capacity b.head_addr v.leaving b.evicting_addr b.tail_addr
            (size + 8) m (omega arith) p o.1 l v.front;
      back =
          Tiles-append metas b.capacity b.evicting_addr v.live (size ∷ []) b.tail_addr
            (b.tail_addr + size + 8) back
            (
              ap (λ (x : AllocMeta). x.size) (put_at_self b.metas (b.tail_addr % b.capacity) m)
                  ∙ mod-eq_of_lt u,
              a,
              p,
              sym e,
            );
      round = omega arith;
      some_memory = v.some_memory;
      whole = v.whole;
      start = v.start;
    }

-- The end of the memory is filled with a piece that ends with it, and the tail stands at the start of
-- the memory.
fill-IsTiled :
    (b : CircularBuffer) (size : ℕ)
    → IsTiled b
    → required size ≤ 4294967296
    → required size ≤ logical_remaining b
    → physical_remaining b < required size
    → IsTiled (fill b) × (physical_remaining (fill b) ≡ b.capacity) × (8 ≤ physical_remaining b)
fill-IsTiled b size v u room short =
    let o = addresses_rise b v in
    let r = mod-lt b.tail_addr v.some_memory in
    let al = mod_aligned b.capacity b.tail_addr v.whole (tail_aligned b v) in
    let rest : 8 ≤ physical_remaining b = omega (arith, r, al, v.whole) in
    let ex = div-add-mod b.tail_addr b.capacity in
    let e : b.tail_addr + (physical_remaining b - 8) + 8
        ≡ b.capacity * (b.tail_addr / b.capacity + 1) =
      omega
        (arith, r, rest, ex, mul-add b.capacity (b.tail_addr / b.capacity) 1, mul-one b.capacity) in
    let z : (b.tail_addr + (physical_remaining b - 8) + 8) % b.capacity ≡ 0 =
      rw e (mul-mod_right b.capacity (b.tail_addr / b.capacity + 1)) in
    (
      push-IsTiled b (physical_remaining b - 8) MetaState.tombstone v
          (omega (arith, r, al, v.whole)) (omega (arith, rest)) (omega (arith, r, rest))
          (omega (arith, r, rest, o, v.round)),
      omega (arith, z),
      rest,
    )

-- Memory for `size` bytes at `p` in `b'`, made from `b`: inside the memory, aligned, with its meta in
-- front, and apart from every piece between the old head and the old tail.
pub record IsFresh (b b' : CircularBuffer) (size p : ℕ) : Type 0 where
  pub valid : IsTiled b'
  pub same_capacity : b'.capacity ≡ b.capacity
  pub behind_meta : 8 ≤ p
  pub aligned : p % 8 ≡ 0
  pub enough : size ≤ align_up size
  pub inside : p + align_up size ≤ b.capacity
  pub meta : b'.metas (p - 8) ≡ record { size = align_up size; state = MetaState.not_ready }
  pub apart :
      (x s : ℕ)
      → b.head_addr ≤ x
      → x + (s + 8) ≤ b.tail_addr
      → x % b.capacity + (s + 8) ≤ b.capacity
      → (x % b.capacity + (s + 8) ≤ p - 8) ⊎ (p + align_up size ≤ x % b.capacity)

-- How the part of `alloc` at the tail answers a request in the buffer `b`, whose end it may have filled
-- before: with fresh memory, or with the buffer full.
abbrev pub Answers : CircularBuffer → ℕ → Allocated × CircularBuffer → Type 0
Answers b size (pointer p, b') = IsFresh b b' size p
Answers b size (full, b') = IsTiled b' × (logical_remaining b' < required size)
Answers b size (empty_alloc, b') = ⊥
Answers b size (calls_again, b') = ⊥

-- How it ends while it holds the mutex: with an answer, or with a call of itself, for a buffer in which
-- the call has an answer if it comes before other threads.
abbrev pub Serves : CircularBuffer → ℕ → Allocated × CircularBuffer → Type 0
Serves b size (calls_again, b') =
    IsTiled b'
    × (physical_remaining b' ≡ b'.capacity)
    × ((r : Allocated × CircularBuffer) × (alloc_at_tail b' size ≡ some r) × Answers b size r)
Serves b size r = Answers b size r

-- `b` with more pieces at its tail.
record Extends (b c : CircularBuffer) : Type 0 where
  same_capacity : c.capacity ≡ b.capacity
  same_head : c.head_addr ≡ b.head_addr
  tail_le : b.tail_addr ≤ c.tail_addr

at_tail-IsFresh :
    (b c : CircularBuffer) (size : ℕ)
    → IsTiled c
    → 0 < size
    → Extends b c
    → required size ≤ logical_remaining c
    → required size ≤ physical_remaining c
    → required size ≤ 4294967296
    → IsFresh b (at_tail c size).1 size (logical_to_physical c (c.tail_addr + 8))
at_tail-IsFresh b c size v pos x room fits u =
    let o = addresses_rise c v in
    let r = mod-lt c.tail_addr v.some_memory in
    let q : (c.tail_addr + 8) % c.capacity ≡ c.tail_addr % c.capacity + 8 =
      sym (mod-add-mod c.tail_addr c.capacity 8) ∙ mod-eq_of_lt (omega (arith, r, fits)) in
    let al = mod_aligned c.capacity c.tail_addr v.whole (tail_aligned c v) in
    let p : c.tail_addr % c.capacity + (align_up size + 8) ≤ c.capacity = omega (arith, r, fits) in
    let l : c.tail_addr + (align_up size + 8) ≤ c.head_addr + c.capacity =
      omega (arith, room, o, v.round) in
    let back : (c.tail_addr + 8) % c.capacity - 8 ≡ c.tail_addr % c.capacity = omega (arith, q) in
    record {
      valid =
          push-IsTiled c (align_up size) MetaState.not_ready v (omega arith) (omega (arith, u)) p l;
      same_capacity = x.same_capacity;
      behind_meta = omega (arith, q);
      aligned = omega (arith, q, al);
      enough = omega arith;
      inside = omega (arith, q, p, x.same_capacity);
      meta = rw back (
          put_at_self c.metas (c.tail_addr % c.capacity)
            (record { size = as_u32 (align_up size); state = MetaState.not_ready })
          ∙ ap (λ (k : ℕ). record { size = k; state = MetaState.not_ready })
              (mod-eq_of_lt (omega (arith, u))));
      apart = λ y s a h k.
          rw (← x.same_capacity, back, q)
            (elim (apart_in_ring c.capacity y (s + 8) c.tail_addr (align_up size + 8) (omega arith)
              (omega arith) (rw (← x.same_capacity) at k) p (omega (arith, x.tail_le))
              (omega (arith, l, x.same_head))) [ inl d ↦ inl d | inr d ↦ inr (omega arith) ]);
    }

-- In a buffer whose tail is at the start of the memory it does not call itself.
at_start-Answers :
    (b c : CircularBuffer) (size : ℕ)
    → IsTiled c
    → 0 < size
    → Extends b c
    → physical_remaining c ≡ c.capacity
    → required size ≤ 4294967296
    → (r : Allocated × CircularBuffer) × (alloc_at_tail c size ≡ some r) × Answers b size r
unfolding alloc_at_tail
at_start-Answers b c size v pos x whole_memory u =
    elim (Bool-cases (ltb (logical_remaining c) (required size))) [
      | inl none_left ↦ ((full, c), rw none_left refl, (v, ground arith))
      | inr room ↦
          let r : required size ≤ logical_remaining c = ground arith in
          let p : required size ≤ physical_remaining c = omega (arith, r, whole_memory) in
          let t : ltb (physical_remaining c) (required size) ≡ false = ground (arith, p) in
          (at_tail c size, rw (room, t) refl, at_tail-IsFresh b c size v pos x r p u)
    ]

-- In a buffer that is a row of pieces, a request that takes at most 2 ^ 32 bytes with its meta does not
-- panic in the part of `alloc` at the tail. The answer is memory that is inside the buffer, aligned, large
-- enough and apart from every piece that was there, or that the buffer is full, and then less is free than
-- the request takes; or `alloc` fills the end of the memory and calls itself, and if no thread comes
-- between, that call does not call itself and has such an answer. The buffer is a row of pieces again.
pub alloc_at_tail-Serves :
    (b : CircularBuffer) (size : ℕ)
    → IsTiled b
    → 0 < size
    → required size ≤ 4294967296
    → (r : Allocated × CircularBuffer) × (alloc_at_tail b size ≡ some r) × Serves b size r
unfolding alloc_at_tail
alloc_at_tail-Serves b size v pos u =
    elim (Bool-cases (ltb (logical_remaining b) (required size))) [
      | inl none_left ↦ ((full, b), rw none_left refl, (v, ground arith))
      | inr room ↦
          let r : required size ≤ logical_remaining b = ground arith in
          let extends : Extends b b = record {
            same_capacity = refl;
            same_head = refl;
            tail_le = omega arith;
          } in
          elim (Bool-cases (ltb (physical_remaining b) (required size))) [
            | inr fits ↦ (
              at_tail b size,
              rw (room, fits) refl,
              at_tail-IsFresh b b size v pos extends r (ground arith) u,
            )
            | inl short ↦
                let f = fill-IsTiled b size v u r (ground arith) in
                let ok : leb 8 (physical_remaining b) ≡ true = ground (arith, f.2) in
                (
                  (calls_again, fill b),
                  rw (room, short, ok) refl,
                  (
                    f.0,
                    f.1,
                    at_start-Answers b (fill b) size f.0 pos
                        (record { same_capacity = refl; same_head = refl; tail_le = omega arith })
                        f.1 u,
                  ),
                )
          ]
    ]
