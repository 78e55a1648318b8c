-- ===== src/Common/Shift.antt =====
-- An array with an element moved in: `ptr::copy` of the slots from `pos` on to one place up, and a
-- write at `pos`.
use Prim.Native.Nat.{ℕ, suc, ◌+◌, ◌-◌, ◌≤◌, ◌<◌}
use mathlib.Core.Path.{◌≡◌, ap}
use mathlib.Core.Logic.{◌≢◌}
use native.Mathlib.Decide.{dec_lt}
use native.Mathlib.Omega.{arith}
use bf_tree.Common.Tests.{ltb, ◌==◌, if◌then◌else◌}

module _ {ℓ} {A : Type ℓ} where
  unfoldable pub shift_in : (ℕ → A) → ℕ → A → ℕ → A
  shift_in f pos x i = if ltb i pos then f i else if i == pos then x else f (i - 1)

module _ {ℓ} {A : Type ℓ} (f : ℕ → A) (pos : ℕ) (x : A) where
  pub shift_in_below : (i : ℕ) → i < pos → shift_in f pos x i ≡ f i
  unfolding shift_in
  shift_in_below i h = ground arith

  pub shift_in_self : shift_in f pos x pos ≡ x
  unfolding shift_in
  shift_in_self = ground arith

  pub shift_in_above : (i : ℕ) → pos < i → shift_in f pos x i ≡ f (i - 1)
  unfolding shift_in
  shift_in_above i h = ground arith

  pub shift_in-suc : (i : ℕ) → pos ≤ i → shift_in f pos x (suc i) ≡ f i
  unfolding shift_in
  shift_in-suc i h = let e : suc i - 1 ≡ i = omega arith in ground (arith, ap f e)

  -- What holds of every element.
  pub shift_in_all {κ} :
      (P : A → Type κ) (n : ℕ)
      → ((i : ℕ) → i < n → P (f i))
      → P x
      → pos ≤ n
      → (i : ℕ) → i < n + 1
      → P (shift_in f pos x i)
  shift_in_all P n old new le i h = elim (dec_lt i pos) [
    | yes p ↦ rw (shift_in_below i p) (old i (omega arith))
    | no p ↦ elim (dec_lt pos i) [
      | yes q ↦ rw (shift_in_above i q) (old (i - 1) (omega arith))
      | no q ↦ let e : i ≡ pos = omega arith in rw (e, shift_in_self) new
    ]
  ]

  -- What holds of every element from index `lo` on.
  pub shift_in_from {κ} :
      (P : A → Type κ) (lo n : ℕ)
      → ((i : ℕ) → lo ≤ i → i < n → P (f i))
      → P x
      → lo ≤ pos
      → pos ≤ n
      → (i : ℕ) → lo ≤ i
      → i < n + 1
      → P (shift_in f pos x i)
  shift_in_from P lo n old new low le i a h = elim (dec_lt i pos) [
    | yes p ↦ rw (shift_in_below i p) (old i a (omega arith))
    | no p ↦ elim (dec_lt pos i) [
      | yes q ↦ rw (shift_in_above i q) (old (i - 1) (omega arith) (omega arith))
      | no q ↦ let e : i ≡ pos = omega arith in rw (e, shift_in_self) new
    ]
  ]

  -- What holds of every two elements in order, from index `lo` on.
  pub shift_in_pairs {κ} :
      (R : A → A → Type κ) (lo n : ℕ)
      → ((i j : ℕ) → lo ≤ i → i < j → j < n → R (f i) (f j))
      → ((i : ℕ) → lo ≤ i → i < pos → i < n → R (f i) x)
      → ((j : ℕ) → pos ≤ j → j < n → R x (f j))
      → lo ≤ pos
      → pos ≤ n
      → (i j : ℕ) → lo ≤ i
      → i < j
      → j < n + 1
      → R (shift_in f pos x i) (shift_in f pos x j)
  shift_in_pairs R lo n old below above low le i j a b c = elim (dec_lt i pos) [
    | yes p ↦ rw (shift_in_below i p) (elim (dec_lt j pos) [
      | yes q ↦ rw (shift_in_below j q) (old i j a b (omega arith))
      | no q ↦ elim (dec_lt pos j) [
        | yes r ↦ rw (shift_in_above j r) (old i (j - 1) a (omega arith) (omega arith))
        | no r ↦ let e : j ≡ pos = omega arith in rw (e, shift_in_self) (below i a p (omega arith))
      ]
    ])
    | no p ↦ rw (shift_in_above j (omega arith)) (elim (dec_lt pos i) [
      | yes q ↦
          rw (shift_in_above i q) (old (i - 1) (j - 1) (omega arith) (omega arith) (omega arith))
      | no q ↦
          let e : i ≡ pos = omega arith in
          rw (e, shift_in_self) (above (j - 1) (omega arith) (omega arith))
    ])
  ]

-- An array with one element replaced.
module _ {ℓ} {A : Type ℓ} where
  unfoldable pub put_at : (ℕ → A) → ℕ → A → ℕ → A
  put_at f pos x i = if i == pos then x else f i

module _ {ℓ} {A : Type ℓ} (f : ℕ → A) (pos : ℕ) (x : A) where
  pub put_at_self : put_at f pos x pos ≡ x
  unfolding put_at
  put_at_self = ground arith

  pub put_at_other : (i : ℕ) → i ≢ pos → put_at f pos x i ≡ f i
  unfolding put_at
  put_at_other i h = ground arith
