-- ===== src/CircularBuffer/Buffer/Iterate.antt =====
-- What the iterator over the buffer visits.

use bf_tree.Common.{
  ℕ, zero, suc, ◌+◌, ◌-◌, ◌≤◌, ◌≡◌, refl, ap, arith, List, [], ◌∷◌, ◌++◌, true, false, ◌==◌,
}
use bf_tree.CircularBuffer.Buffer.{AllocMeta, CircularBuffer}
use bf_tree.CircularBuffer.Buffer.Tiling.{Tiles, Tiles-le, Tiles-append}
use bf_tree.CircularBuffer.Buffer.Alloc.{IsTiled}
use bf_tree.CircularBuffer.Eviction.{iter_from, iter}

abbrev pub sizes_of : List AllocMeta → List ℕ
sizes_of [] = []
sizes_of (m ∷ ms) = m.size ∷ sizes_of ms

iter_from-sizes :
    (fuel : ℕ) (b : CircularBuffer) (addr : ℕ) (ss : List ℕ)
    → Tiles b.metas b.capacity addr ss b.tail_addr
    → b.tail_addr ≤ fuel + addr
    → sizes_of (iter_from fuel b addr) ≡ ss
unfolding iter_from
iter_from-sizes zero b addr [] t f = refl
iter_from-sizes zero b addr (s ∷ ss) t f =
    absurd (omega (arith, f, Tiles-le b.metas b.capacity (addr + (s + 8)) ss b.tail_addr t.3))
iter_from-sizes (suc fuel) b addr [] t f =
    let ended : (addr == b.tail_addr) ≡ true = ground (arith, t) in rw ended refl
iter_from-sizes (suc fuel) b addr (s ∷ ss) t f =
    let l = Tiles-le b.metas b.capacity (addr + (s + 8)) ss b.tail_addr t.3 in
    let more : (addr == b.tail_addr) ≡ false = ground (arith, l) in
    rw (more, t.0) (ap (◌∷◌ s) (iter_from-sizes fuel b (addr + (s + 8)) ss t.3 (omega (arith, f))))

-- The iterator visits every piece between the head and the tail once, in order, and stops.
pub iter-sizes : (b : CircularBuffer) (v : IsTiled b) → sizes_of (iter b) ≡ v.leaving ++ v.live
iter-sizes b v =
    iter_from-sizes (b.tail_addr - b.head_addr) b b.head_addr (v.leaving ++ v.live)
      (Tiles-append b.metas b.capacity b.head_addr v.leaving v.live b.evicting_addr b.tail_addr
        v.front v.back)
      (omega arith)
