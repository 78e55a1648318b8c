-- ===== src/Common/Search.antt =====
-- The binary search loop that both kinds of node share.
use Prim.Native.Nat.{ℕ, zero, suc, ◌+◌, ◌-◌, ◌/◌, ◌≤◌, ◌<◌, Ordering}
use mathlib.Core.Path.{◌≡◌}
use mathlib.Core.Logic.{inl, inr}
use native.Mathlib.Decide.{dec_lt}
use native.Mathlib.Omega.{arith}
use bf_tree.Common.Tests.{ltb, if◌then◌else◌, Bool-cases, Ordering-cases}

-- How the loop ends: by `return mid`, or with its last `lower`.
pub data Outcome : Type 0 where
  found : ℕ → Outcome
  missing : ℕ → Outcome

-- `while lower < upper`, where `probe mid` compares the key at `mid` with the key searched for.
-- A round takes at least one from `upper - lower`, so fuel `upper` is enough.
unfoldable pub search_loop : (ℕ → Ordering) → ℕ → ℕ → ℕ → Outcome
search_loop probe zero lower upper = missing lower
search_loop probe (suc fuel) lower upper =
    let mid = lower + (upper - lower) / 2 in
    let below = search_loop probe fuel lower mid in
    let above = search_loop probe fuel (mid + 1) upper in
    if ltb lower upper
    then elim (probe mid) [ Ordering.gt ↦ below | Ordering.eq ↦ found mid | Ordering.lt ↦ above ]
    else missing lower

-- The keys from `lo` up to `hi` rise: what is above a greater key is greater, what is below a
-- smaller key is smaller.
pub record IsRising (probe : ℕ → Ordering) (lo hi : ℕ) : Type 0 where
  pub above : (i j : ℕ) → lo ≤ i → i < j → j < hi → probe i ≡ Ordering.gt → probe j ≡ Ordering.gt
  pub below : (i j : ℕ) → lo ≤ i → i < j → j < hi → probe j ≡ Ordering.lt → probe i ≡ Ordering.lt

-- What the outcome says of the keys between `lo` and `hi`.
abbrev pub Finds : (ℕ → Ordering) → ℕ → ℕ → Outcome → Type 0
Finds probe lo hi (found m) = (lo ≤ m) × (m < hi) × (probe m ≡ Ordering.eq)
Finds probe lo hi (missing l) =
    (lo ≤ l)
    × (l ≤ hi)
    × ((i : ℕ) → lo ≤ i → i < l → probe i ≡ Ordering.lt)
    × ((i : ℕ) → l ≤ i → i < hi → probe i ≡ Ordering.gt)

module _ (probe : ℕ → Ordering) (lo hi : ℕ) (rising : IsRising probe lo hi) where
  -- The loop, from any window outside which the keys are known.
  search_loop_window :
      (fuel lower upper : ℕ)
      → lo ≤ lower
      → lower ≤ upper
      → upper ≤ hi
      → upper ≤ fuel + lower
      → ((i : ℕ) → lo ≤ i → i < lower → probe i ≡ Ordering.lt)
      → ((i : ℕ) → upper ≤ i → i < hi → probe i ≡ Ordering.gt)
      → Finds probe lo hi (search_loop probe fuel lower upper)
  unfolding search_loop
  search_loop_window zero lower upper a b c f l g =
      (a, omega arith, l, λ i p q. g i (omega arith) q)
  search_loop_window (suc fuel) lower upper a b c f l g = elim (Bool-cases (ltb lower upper)) [
    | inr done ↦ rw done (
        let same : upper ≤ lower = ground arith in
        (a, omega arith, l, λ i p q. g i (omega arith) q))
    | inl more ↦
        let mid = lower + (upper - lower) / 2 in
        let lt : lower < upper = ground arith in
        let inside : mid < upper = omega arith in
        elim (Ordering-cases (probe mid)) [
          | inr (inl here) ↦ rw (more, here) (omega arith, omega arith, here)
          | inr (inr greater) ↦
              rw (more, greater)
                (search_loop_window fuel lower mid a (omega arith) (omega arith) (omega arith) l
                  (λ i p q. elim (dec_lt mid i) [
                    | yes r ↦ rising.above mid i (omega arith) r q greater
                    | no r ↦ let e : mid ≡ i = omega arith in rw (← e) greater
                  ]))
          | inl less ↦
              rw (more, less)
                (search_loop_window fuel (mid + 1) upper (omega arith) (omega arith) c (omega arith)
                  (λ i p q. elim (dec_lt i mid) [
                    | yes r ↦ rising.below i mid p r (omega arith) less
                    | no r ↦ let e : mid ≡ i = omega arith in rw (← e) less
                  ])
                  g)
        ]
  ]

  -- On rising keys the loop finds the key, or the place that parts the smaller from the greater.
  pub search_loop-Finds :
      (fuel : ℕ) → lo ≤ hi → hi ≤ fuel + lo → Finds probe lo hi (search_loop probe fuel lo hi)
  search_loop-Finds fuel h f =
      search_loop_window fuel lo hi (omega arith) h (omega arith) f (λ i p q. absurd (omega arith))
        (λ i p q. absurd (omega arith))
