-- ===== src/Tree/SizeClasses/Loop.antt =====
-- The loop over the size classes ends, and what it leaves.
use native.Mathlib.Nat.{mul-le-mul_left, mul-one}
use bf_tree.Common.{
  ℕ, zero, suc, ◌+◌, ◌*◌, ◌/◌, ◌%◌, ◌^◌, ◌≤◌, ◌<◌, ◌≡◌, ◌≢◌, refl, inl, inr, arith, List, [], false,
  Bool-cases, if◌then◌else◌, leb, ◌==◌,
}
use bf_tree.Tree.SizeClasses.{
  Sizes, max_leaf_page_size, size_class, push_greater, size_classes_from, is_empty,
}
use bf_tree.Tree.SizeClasses.Order.{IsPushed, push_greater-IsPushed}

-- A class is whole cache lines, has room for its records, and wastes less than a line.
pub size_class_lem :
    (c : Sizes) (e : ℕ)
    → (size_class c e % 64 ≡ 0)
      × (2 ^ e * (c.min_record_size + 8) + 32 ≤ size_class c e)
      × (size_class c e < 2 ^ e * (c.min_record_size + 8) + 32 + 64)
unfolding size_class
size_class_lem c e = round_up (2 ^ e * (c.min_record_size + 8) + 32)
  where
    round_up :
        (n : ℕ)
        → let r = if n % 64 == 0 then n else (n / 64 + 1) * 64 in
          (r % 64 ≡ 0) × (n ≤ r) × (r < n + 64)
    round_up n = elim (Bool-cases (n % 64 == 0)) [
      | inl whole ↦
          let z : n % 64 ≡ 0 = ground (arith, whole) in rw whole (z, omega arith, omega arith)
      | inr broken ↦
          let more : n % 64 ≢ 0 = λ h. ground (arith, broken, h) in
          rw broken (omega arith, omega arith, omega (arith, more))
    ]

exponent-pow : (e : ℕ) → e < 2 ^ e
exponent-pow zero = omega arith
exponent-pow (suc e) = omega (arith, exponent-pow e)

-- A class is greater than its exponent.
exponent-size_class : (c : Sizes) (e : ℕ) → e < size_class c e
exponent-size_class c e =
    let (_, room, _) = size_class_lem c e in
    let more = mul-le-mul_left {m = 1} {n = c.min_record_size + 8} (2 ^ e) (omega arith) in
    omega (arith, room, exponent-pow e, mul-one (2 ^ e), more)

-- With fuel and first exponent together above the limit, more fuel changes nothing.
size_classes_from-enough :
    (k fuel : ℕ) (c : Sizes) (limit e : ℕ) (classes : List ℕ)
    → limit < fuel + e
    → size_classes_from (fuel + k) c limit e classes ≡ size_classes_from fuel c limit e classes
unfolding size_classes_from
size_classes_from-enough zero fuel c limit e classes l =
    let z : fuel + 0 ≡ fuel = omega arith in rw z
size_classes_from-enough (suc k) zero c limit e classes l =
    let over : leb (size_class c e) limit ≡ false = ground (arith, l, exponent-size_class c e) in
    let z : 0 + suc k ≡ suc k = omega arith in rw (z, over) refl
size_classes_from-enough (suc k) (suc fuel) c limit e classes l =
    let z : suc fuel + suc k ≡ suc (fuel + suc k) = omega arith in
    rw
      (
        z,
        size_classes_from-enough (suc k) fuel c limit (suc e)
            (push_greater classes (size_class c e)) (omega arith),
      )
      refl

-- An exponent that the loop goes on from is small.
next_power :
    (c : Sizes) (limit e : ℕ)
    → limit ≤ max_leaf_page_size
    → size_class c e ≤ limit
    → (2 ^ suc e < 2147483648) × (size_class c (suc e) ≤ 2 * max_leaf_page_size + 96)
next_power c limit e l s =
    let (_, room, near) = size_class_lem c e in
    let (_, room', near') = size_class_lem c (suc e) in
    let more = mul-le-mul_left {m = 1} {n = c.min_record_size + 8} (2 ^ e) (omega arith) in
    let twice : 2 ^ suc e * (c.min_record_size + 8) ≡ 2 * (2 ^ e * (c.min_record_size + 8)) =
      grind arith in
    (omega (arith, room, more, mul-one (2 ^ e), l, s), omega (arith, room, near', twice, l, s))

-- For a greatest mini page that is at most the greatest leaf page, as the assertions have it, the loop over
-- the classes ends: more fuel than one above that size changes nothing. And none of its numbers overflows:
-- behind every class that it goes on from, the power of two fits in an `i32`, and the class is below
-- 2 ^ 17.
pub size_classes_from-ends :
    (k : ℕ) (c : Sizes) (limit : ℕ)
    → limit ≤ max_leaf_page_size
    → (size_classes_from (suc limit + k) c limit 0 [] ≡ size_classes_from (suc limit) c limit 0 [])
      × ((e : ℕ)
          → size_class c e ≤ limit
          → (2 ^ suc e < 2147483648) × (size_class c (suc e) < 131072))
size_classes_from-ends k c limit l = (
  size_classes_from-enough k (suc limit) c limit 0 [] (omega arith),
  λ e s. let (a, b) = next_power c limit e l s in (a, omega (arith, b)),
)

pub size_classes_from-IsPushed :
    (fuel : ℕ) (c : Sizes) (limit e : ℕ) (classes : List ℕ)
    → IsPushed limit classes
    → IsPushed limit (size_classes_from fuel c limit e classes)
unfolding size_classes_from
size_classes_from-IsPushed zero c limit e classes v = v
size_classes_from-IsPushed (suc fuel) c limit e classes v =
    elim (Bool-cases (leb (size_class c e) limit)) [
      | inl small ↦ rw small (
          size_classes_from-IsPushed fuel c limit (suc e) (push_greater classes (size_class c e))
            (push_greater-IsPushed limit (size_class c e) classes v (size_class_lem c e).0
              (ground (arith, small))).0)
      | inr over ↦ rw over v
    ]

-- Once there is a class there is one at the end.
pub size_classes_from-keeps :
    (fuel : ℕ) (c : Sizes) (limit e : ℕ) (classes : List ℕ)
    → IsPushed limit classes
    → is_empty classes ≡ false
    → is_empty (size_classes_from fuel c limit e classes) ≡ false
unfolding size_classes_from
size_classes_from-keeps zero c limit e classes v n = n
size_classes_from-keeps (suc fuel) c limit e classes v n =
    elim (Bool-cases (leb (size_class c e) limit)) [
      | inl small ↦
          let (w, m) =
            push_greater-IsPushed limit (size_class c e) classes v (size_class_lem c e).0
              (ground (arith, small)) in
          rw small (
            size_classes_from-keeps fuel c limit (suc e) (push_greater classes (size_class c e)) w
              m)
      | inr over ↦ rw over n
    ]
