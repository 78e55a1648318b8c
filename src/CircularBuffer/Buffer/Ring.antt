-- ===== src/CircularBuffer/Buffer/Ring.antt =====
-- Remainders by the capacity: when pieces of a ring of memory do not meet.
use native.Mathlib.Nat.{div-add-mod, mul-le-mul_left, mul-add, mul-one}
use native.Mathlib.Decide.{dec_lt}
use bf_tree.Common.{ℕ, ◌+◌, ◌*◌, ◌/◌, ◌%◌, ◌≤◌, ◌<◌, ◌≡◌, ◌⊎◌, inl, inr, arith, ap}

mul_step : (c a b : ℕ) → a < b → c * a + c ≤ c * b
mul_step c a b h =
    let up : c * (a + 1) ≤ c * b = mul-le-mul_left c (omega arith) in
    omega (arith, up, mul-add c a 1, mul-one c)

-- Two pieces, none over the end of the memory, the second behind the first and not a round ahead.
pub apart_in_ring :
    (c x m y n : ℕ)
    → 0 < m
    → 0 < n
    → x % c + m ≤ c
    → y % c + n ≤ c
    → x + m ≤ y
    → y + n ≤ x + c
    → (x % c + m ≤ y % c) ⊎ (y % c + n ≤ x % c)
apart_in_ring c x m y n p q a b h k =
    let ex = div-add-mod x c in
    let ey = div-add-mod y c in
    elim (dec_lt (y / c) (x / c)) [
      | yes l ↦ absurd (omega (arith, ex, ey, mul_step c (y / c) (x / c) l))
      | no l ↦ elim (dec_lt (x / c) (y / c)) [
        | no g ↦
            let e : c * (x / c) ≡ c * (y / c) = ap (λ t. c * t) (omega arith) in
            inl (omega (arith, ex, ey, e))
        | yes g ↦ inr (omega (arith, ex, ey, mul_step c (x / c) (y / c) g))
      ]
    ]
