-- ===== src/CircularBuffer/Buffer/Tiling.antt =====
-- The memory between two addresses as a row of pieces.
use native.Mathlib.Nat.{mod-mod_of_dvd, dvd_of_mod-eq-zero}
use native.Mathlib.Decide.{ℕ_discrete}
use bf_tree.Common.{
  ℕ, ◌+◌, ◌%◌, ◌≤◌, ◌<◌, ◌≡◌, ◌≢◌, ◌∙◌, inl, inr, refl, ap, arith, List, [], ◌∷◌, ◌++◌,
}
use bf_tree.Common.Shift.{put_at, put_at_self, put_at_other}
use bf_tree.CircularBuffer.MetaState.{MetaState}
use bf_tree.CircularBuffer.Buffer.{AllocMeta}
use bf_tree.CircularBuffer.Buffer.Ring.{apart_in_ring}

-- From `addr` to `end` stand pieces of these sizes, each with its meta in front; none runs over the
-- end of the memory.
abbrev pub Tiles : (ℕ → AllocMeta) → ℕ → ℕ → List ℕ → ℕ → Type 0
Tiles metas c addr [] end = addr ≡ end
Tiles metas c addr (s ∷ ss) end =
    ((metas (addr % c)).size ≡ s)
    × (s % 8 ≡ 0)
    × (addr % c + (s + 8) ≤ c)
    × Tiles metas c (addr + (s + 8)) ss end

pub Tiles-le :
    (metas : ℕ → AllocMeta) (c addr : ℕ) (ss : List ℕ) (end : ℕ)
    → Tiles metas c addr ss end
    → addr ≤ end
Tiles-le metas c addr [] end t = omega arith
Tiles-le metas c addr (s ∷ ss) end t = omega (arith, Tiles-le metas c (addr + (s + 8)) ss end t.3)

-- Pieces begin at multiples of 8.
pub Tiles_aligned :
    (metas : ℕ → AllocMeta) (c addr : ℕ) (ss : List ℕ) (end : ℕ)
    → addr % 8 ≡ 0
    → Tiles metas c addr ss end
    → end % 8 ≡ 0
Tiles_aligned metas c addr [] end a t = omega arith
Tiles_aligned metas c addr (s ∷ ss) end a t =
    Tiles_aligned metas c (addr + (s + 8)) ss end (omega (arith, t.1)) t.3

-- One more piece at the end.
pub Tiles-append :
    (metas : ℕ → AllocMeta) (c addr : ℕ) (ss rest : List ℕ) (mid end : ℕ)
    → Tiles metas c addr ss mid
    → Tiles metas c mid rest end
    → Tiles metas c addr (ss ++ rest) end
Tiles-append metas c addr [] rest mid end t u = rw t u
Tiles-append metas c addr (s ∷ ss) rest mid end t u =
    (t.0, t.1, t.2, Tiles-append metas c (addr + (s + 8)) ss rest mid end t.3 u)

-- Metas whose sizes are the same tile the same way.
pub Tiles_ext :
    (metas metas' : ℕ → AllocMeta) (c addr : ℕ) (ss : List ℕ) (end : ℕ)
    → ((x : ℕ) → addr ≤ x → x < end → (metas' (x % c)).size ≡ (metas (x % c)).size)
    → Tiles metas c addr ss end
    → Tiles metas' c addr ss end
Tiles_ext metas metas' c addr [] end h t = t
Tiles_ext metas metas' c addr (s ∷ ss) end h t =
    let l = Tiles-le metas c (addr + (s + 8)) ss end t.3 in
    (
      h addr (omega arith) (omega arith) ∙ t.0,
      t.1,
      t.2,
      Tiles_ext metas metas' c (addr + (s + 8)) ss end (λ x a b. h x (omega arith) b) t.3,
    )

-- A meta written behind `end`, at most a round behind `addr`, changes no piece.
pub Tiles-put_at :
    (metas : ℕ → AllocMeta) (c addr : ℕ) (ss : List ℕ) (end y n : ℕ) (m : AllocMeta)
    → 0 < n
    → y % c + n ≤ c
    → end ≤ y
    → y + n ≤ addr + c
    → Tiles metas c addr ss end
    → Tiles (put_at metas (y % c) m) c addr ss end
Tiles-put_at metas c addr [] end y n m p q g k t = t
Tiles-put_at metas c addr (s ∷ ss) end y n m p q g k t =
    let l = Tiles-le metas c (addr + (s + 8)) ss end t.3 in
    let d : addr % c ≢ y % c = λ e.
      elim (apart_in_ring c addr (s + 8) y n (omega arith) p t.2 q (omega arith) k) [
        | inl a ↦ absurd (omega arith)
        | inr a ↦ absurd (omega arith)
      ] in
    (
      ap (λ (x : AllocMeta). x.size) (put_at_other metas (y % c) m (addr % c) d) ∙ t.0,
      t.1,
      t.2,
      Tiles-put_at metas c (addr + (s + 8)) ss end y n m p q g (omega arith) t.3,
    )

-- A change of a state changes no piece.
pub Tiles-with_state :
    (metas : ℕ → AllocMeta) (c addr : ℕ) (ss : List ℕ) (end p : ℕ) (s : MetaState)
    → Tiles metas c addr ss end
    → Tiles (put_at metas p (record (metas p) { state = s })) c addr ss end
Tiles-with_state metas c addr ss end p s t =
    Tiles_ext metas (put_at metas p (record (metas p) { state = s })) c addr ss end
      (λ x a b. size_kept (x % c)) t
  where
    size_kept : (q : ℕ) → (put_at metas p (record (metas p) { state = s }) q).size ≡ (metas q).size
    size_kept q = elim (ℕ_discrete q p) [
      | yes e ↦ rw (e, put_at_self metas p (record (metas p) { state = s })) refl
      | no d ↦ rw (put_at_other metas p (record (metas p) { state = s }) q d) refl
    ]

-- A multiple of 8 is one also as a remainder by a multiple of 8.
pub mod_aligned : (c x : ℕ) → c % 8 ≡ 0 → x % 8 ≡ 0 → x % c % 8 ≡ 0
mod_aligned c x a b = mod-mod_of_dvd 8 x (dvd_of_mod-eq-zero 8 a) ∙ b
