-- ===== src/CircularBuffer/FreeList/Classes.antt =====
-- The size class that a search of `FreeList` finds.
use mathlib.Core.List.{reverse, reverse_aux}
use bf_tree.Common.{
  ℕ, zero, suc, ◌+◌, ◌-◌, ◌≤◌, ◌<◌, ◌≡◌, ◌∙◌, refl, sym, inl, inr, arith, List, [], ◌∷◌, some,
  some-injective, none-ne-some, bind-some, Bool, true, Bool-cases, leb, length, get_elem?,
}
use bf_tree.CircularBuffer.FreeList.{
  FreeList, position, size_class_smaller_than, size_class_larger_than,
}

-- What stands where `position` stops.
position-some :
    (p : ℕ → Bool) (xs : List ℕ) (i : ℕ)
    → position p xs ≡ some i
    → (x : ℕ) × (get_elem? xs i ≡ some x) × (p x ≡ true)
unfolding position
position-some p [] i e = none-ne-some e
position-some p (x ∷ xs) i e = elim (Bool-cases (p x)) [
  | inl here ↦
      let n : 0 ≡ i = some-injective _ _ (rw (here, position) at e) in rw (← n) (x, refl, here)
  | inr there ↦
      let (j, f, g) = bind-some (position p xs) _ (rw (there, position) at e) in
      let n : suc j ≡ i = some-injective _ _ g in rw (← n) (position-some p xs j f)
]

module _ {ℓ} {A : Type ℓ} where
  index_bound : (xs : List A) (i : ℕ) {x : A} → get_elem? xs i ≡ some x → i < length xs
  index_bound [] i e = none-ne-some e
  index_bound (y ∷ xs) zero e = omega arith
  index_bound (y ∷ xs) (suc i) e = omega (arith, index_bound xs i e)

  length-reverse_aux : (xs acc : List A) → length (reverse_aux xs acc) ≡ length xs + length acc
  length-reverse_aux [] acc = omega arith
  length-reverse_aux (x ∷ xs) acc = omega (arith, length-reverse_aux xs (x ∷ acc))

  behind_reversed :
      (xs acc : List A) (i : ℕ) → get_elem? (reverse_aux xs acc) (length xs + i) ≡ get_elem? acc i
  behind_reversed [] acc i = let e : 0 + i ≡ i = omega arith in rw e
  behind_reversed (x ∷ xs) acc i =
      let e : suc (length xs) + i ≡ length xs + suc i = omega arith in
      rw e (behind_reversed xs (x ∷ acc) (suc i))

  at_reversed :
      (xs acc : List A) (i : ℕ)
      → i < length xs
      → get_elem? (reverse_aux xs acc) i ≡ get_elem? xs (length xs - 1 - i)
  at_reversed [] acc i l = absurd (omega (arith, l))
  at_reversed (x ∷ xs) acc i l = elim (Bool-cases (leb (length xs) i)) [
    | inl last_one ↦
        let e : i ≡ length xs + 0 = ground (arith, l, last_one) in
        let z : suc (length xs) - 1 - (length xs + 0) ≡ 0 = omega arith in
        rw (e, z) (behind_reversed xs (x ∷ acc) 0)
    | inr earlier ↦
        let m : i < length xs = ground (arith, earlier) in
        let e : suc (length xs) - 1 - i ≡ suc (length xs - 1 - i) = omega (arith, m) in
        rw e (at_reversed xs (x ∷ acc) i m)
  ]

-- The class that freed memory of a size goes to is not greater.
pub size_class_smaller_than-some :
    (f : FreeList) (size i : ℕ)
    → size_class_smaller_than f size ≡ some i
    → (c : ℕ) × (get_elem? f.size_classes i ≡ some c) × (c ≤ size)
unfolding size_class_smaller_than
size_class_smaller_than-some f size i e =
    let (c, g, l) = position-some (λ s. leb s size) f.size_classes i e in (c, g, ground (arith, l))

-- The class that memory for a request comes from is not less.
pub size_class_larger_than-some :
    (f : FreeList) (size i : ℕ)
    → size_class_larger_than f size ≡ some i
    → (c : ℕ) × (get_elem? f.size_classes i ≡ some c) × (size ≤ c)
unfolding size_class_larger_than
size_class_larger_than-some f size i e =
    let (pos, p, n) = bind-some (position (λ s. leb size s) (reverse f.size_classes)) _ e in
    let (c, g, l) = position-some (λ s. leb size s) (reverse f.size_classes) pos p in
    let b = index_bound (reverse f.size_classes) pos g in
    let m : pos < length f.size_classes = omega (arith, b, length-reverse_aux f.size_classes []) in
    let k : length f.size_classes - 1 - pos ≡ i = some-injective _ _ n in
    (c, rw (← k) (sym (at_reversed f.size_classes [] pos m) ∙ g), ground (arith, l))
