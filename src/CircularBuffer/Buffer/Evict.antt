-- ===== src/CircularBuffer/Buffer/Evict.antt =====
-- The reservation of memory for eviction, and the head that follows over evicted memory.
use bf_tree.Common.{
  ℕ, zero, suc, ◌+◌, ◌-◌, ◌%◌, ◌≤◌, ◌≡◌, ◌≢◌, refl, sym, subst, inl, inr, arith, List, [], ◌∷◌,
  ◌++◌, some, some-injective, none-ne-some, Bool, true, false, Bool-cases, ltb, ◌==◌,
}
use bf_tree.CircularBuffer.MetaState.{is_evicted}
use bf_tree.CircularBuffer.Buffer.{AllocMeta, CircularBuffer, get_meta}
use bf_tree.CircularBuffer.Eviction.{reserve, bump_head, try_bump_head_address_to_evicting_addr}
use bf_tree.CircularBuffer.Buffer.Tiling.{Tiles, Tiles-le, Tiles-append}
use bf_tree.CircularBuffer.Buffer.Alloc.{IsTiled, addresses_rise}

-- What `reserve` takes of the `live` pieces: the first, from its meta to its end, and nothing else of the
-- buffer changes than the evicting address, behind which the other pieces stand.
pub record IsReserved (b b' : CircularBuffer) (live : List ℕ) (start end : ℕ) : Type 0 where
  pub valid : IsTiled b'
  pub first : ℕ
  pub others : List ℕ
  pub row : live ≡ first ∷ others
  pub from : start ≡ b.evicting_addr
  pub to : end ≡ start + (first + 8)
  pub same_rest : b' ≡ record b { evicting_addr = end }
  pub still_live : Tiles b'.metas b'.capacity end others b'.tail_addr
  pub forward : start + 8 ≤ end
  pub inside : end ≤ b.tail_addr
  pub piece : start % b.capacity + (end - start) ≤ b.capacity

reserved :
    (b : CircularBuffer) (live : List ℕ) (v : IsTiled b)
    → Tiles b.metas b.capacity b.evicting_addr live b.tail_addr
    → b.evicting_addr ≢ b.tail_addr
    → let next = b.evicting_addr + (get_meta b b.evicting_addr).size + 8 in
      IsReserved b (record b { evicting_addr = next }) live b.evicting_addr next
reserved b [] v t d = absurd (d t)
reserved b (s ∷ ss) v t d =
    let n : b.evicting_addr + (get_meta b b.evicting_addr).size + 8 ≡ b.evicting_addr + (s + 8) =
      omega (arith, t.0) in
    let l = Tiles-le b.metas b.capacity (b.evicting_addr + (s + 8)) ss b.tail_addr t.3 in
    record {
      valid = record {
        leaving = v.leaving ++ (s ∷ []);
        live = ss;
        front =
            Tiles-append b.metas b.capacity b.head_addr v.leaving (s ∷ []) b.evicting_addr _ v.front
              (t.0, t.1, t.2, sym n);
        back = rw n t.3;
        round = v.round;
        some_memory = v.some_memory;
        whole = v.whole;
        start = v.start;
      };
      first = s;
      others = ss;
      row = refl;
      from = refl;
      to = n;
      same_rest = refl;
      still_live = rw n t.3;
      forward = omega (arith, n);
      inside = omega (arith, n, l);
      piece = omega (arith, n, t.2);
    }

-- In a buffer that is a row of pieces, a reservation takes exactly the first of the live pieces, which
-- lies inside the memory; the others stay live, and nothing but the evicting address changes. The buffer is
-- a row of pieces again.
pub reserve-IsReserved :
    (b b' : CircularBuffer) (start end : ℕ) (v : IsTiled b)
    → reserve b ≡ some ((start, end), b')
    → IsReserved b b' v.live start end
unfolding reserve
reserve-IsReserved b b' start end v e = elim (Bool-cases (b.evicting_addr == b.tail_addr)) [
  | inl empty ↦ none-ne-some (rw empty at e)
  | inr more ↦
      let p = some-injective _ _ (rw more at e) in
      subst (λ (r : (ℕ × ℕ) × CircularBuffer). IsReserved b r.1 v.live r.0.0 r.0.1) p
        (reserved b v.live v v.back (λ h. ground (arith, h, more)))
]

-- All pieces of these sizes from `addr` on are evicted.
abbrev pub AllEvicted : (ℕ → AllocMeta) → ℕ → ℕ → List ℕ → Type 0
AllEvicted metas c addr [] = Unit
AllEvicted metas c addr (s ∷ ss) =
    (is_evicted (metas (addr % c)).state ≡ true) × AllEvicted metas c (addr + (s + 8)) ss

-- How far the head has come: over pieces that are evicted, up to the evicting address or to a piece
-- that is not.
pub record IsBumped (b : CircularBuffer) (r : Bool × CircularBuffer) : Type 0 where
  pub valid : IsTiled r.1
  pub passed : List ℕ
  pub pieces : Tiles b.metas b.capacity b.head_addr passed r.1.head_addr
  pub evicted : AllEvicted b.metas b.capacity b.head_addr passed
  pub reached : r.0 ≡ true → r.1.head_addr ≡ b.evicting_addr
  pub stopped : r.0 ≡ false → is_evicted (get_meta b r.1.head_addr).state ≡ false
  pub same_rest : r.1 ≡ record b { head_addr = r.1.head_addr }

bump_from :
    (fuel : ℕ) (b : CircularBuffer) (leaving : List ℕ) (v : IsTiled b)
    → Tiles b.metas b.capacity b.head_addr leaving b.evicting_addr
    → b.evicting_addr ≤ fuel + b.head_addr
    → IsBumped b (bump_head fuel b)
unfolding bump_head
bump_from zero b leaving v t f =
    let l = Tiles-le b.metas b.capacity b.head_addr leaving b.evicting_addr t in
    record {
      valid = v;
      passed = [];
      pieces = refl;
      evicted = tt;
      reached = λ h. omega arith;
      stopped = λ h. cc;
      same_rest = refl;
    }
bump_from (suc fuel) b [] v t f =
    let done : ltb b.head_addr b.evicting_addr ≡ false = ground (arith, t) in
    rw done (record {
      valid = v;
      passed = [];
      pieces = refl;
      evicted = tt;
      reached = λ h. t;
      stopped = λ h. cc;
      same_rest = refl;
    })
bump_from (suc fuel) b (s ∷ ss) v t f =
    let l = Tiles-le b.metas b.capacity (b.head_addr + (s + 8)) ss b.evicting_addr t.3 in
    let more : ltb b.head_addr b.evicting_addr ≡ true = ground arith in
    let m = get_meta b b.head_addr in
    elim (Bool-cases (is_evicted m.state)) [
      | inr kept ↦
          rw (more, kept)
            (record {
              valid = v;
              passed = [];
              pieces = refl;
              evicted = tt;
              reached = λ h. cc;
              stopped = λ h. kept;
              same_rest = refl;
            })
      | inl gone ↦
          let o = addresses_rise b v in
          let next = record b { head_addr = b.head_addr + (m.size + 8) } in
          let n : b.head_addr + (m.size + 8) ≡ b.head_addr + (s + 8) = omega (arith, t.0) in
          let v' : IsTiled next = record {
            leaving = ss;
            live = v.live;
            front = rw n t.3;
            back = v.back;
            round = omega (arith, v.round);
            some_memory = v.some_memory;
            whole = v.whole;
            start = omega (arith, v.start, n, t.1);
          } in
          let r = bump_from fuel next ss v' (rw n t.3) (omega arith) in
          rw (more, gone)
            (record {
              valid = r.valid;
              passed = m.size ∷ r.passed;
              pieces = (refl, omega (arith, t.0, t.1), omega (arith, t.0, t.2), r.pieces);
              evicted = (gone, r.evicted);
              reached = r.reached;
              stopped = r.stopped;
              same_rest = r.same_rest;
            })
    ]

-- The head passes only evicted pieces, and all of them up to the evicting address or to the first that
-- is not evicted; nothing else changes, and the buffer is a row of pieces again.
pub try_bump_head_address_to_evicting_addr-IsBumped :
    (b : CircularBuffer) → IsTiled b → IsBumped b (try_bump_head_address_to_evicting_addr b)
unfolding try_bump_head_address_to_evicting_addr
try_bump_head_address_to_evicting_addr-IsBumped b v =
    bump_from b.evicting_addr b v.leaving v v.front (omega arith)
