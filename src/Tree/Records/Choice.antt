-- ===== src/Tree/Records/Choice.antt =====
-- Which size class `pick_class` takes.
use bf_tree.Common.{
  ℕ, ◌≤◌, ◌<◌, ◌≡◌, refl, inl, inr, arith, List, [], ◌∷◌, ◌++◌, none, some, Bool, true, false,
  Bool-cases, ltb, leb,
}
use bf_tree.Nodes.LeafNode.Merge.{first_above, last_class, pick_class}
use bf_tree.Tree.SizeClasses.{last_of}
use bf_tree.Tree.SizeClasses.Order.{RisesFrom}

pub last_class-append : (x leaf : ℕ) (xs : List ℕ) → last_class (x ∷ (xs ++ (leaf ∷ []))) ≡ leaf
unfolding last_class
last_class-append x leaf [] = refl
last_class-append x leaf (y ∷ ys) = last_class-append y leaf ys

first-last_of : (x leaf : ℕ) (xs : List ℕ) → RisesFrom x (xs ++ (leaf ∷ [])) → x ≤ last_of x xs
first-last_of x leaf [] r = omega arith
first-last_of x leaf (y ∷ ys) r = omega (arith, r.0, first-last_of y leaf ys r.1)

-- A size below the greatest class of mini pages gets one.
pub first_above-some :
    (size x leaf : ℕ) (xs : List ℕ)
    → RisesFrom x (xs ++ (leaf ∷ []))
    → size < last_of x xs
    → (s : ℕ) × (first_above size (x ∷ (xs ++ (leaf ∷ []))) ≡ some s)
      × (size < s)
      × (s ≤ last_of x xs)
unfolding first_above
first_above-some size x leaf [] r l =
    let t : ltb size x ≡ true = ground (arith, l) in (x, rw t refl, l, omega arith)
first_above-some size x leaf (y ∷ ys) r l = elim (Bool-cases (ltb size x)) [
  | inl here ↦ (x, rw here refl, ground (arith, here), first-last_of x leaf (y ∷ ys) r)
  | inr there ↦ let (s, e, a, b) = first_above-some size y leaf ys r.1 l in (s, rw there e, a, b)
]

-- No class of mini pages is greater than a size that the last is not.
pub first_above-none :
    (size x leaf : ℕ) (xs : List ℕ)
    → RisesFrom x (xs ++ (leaf ∷ []))
    → last_of x xs ≤ size
    → first_above size (x ∷ (xs ++ (leaf ∷ []))) ≡ none
unfolding first_above
first_above-none size x leaf [] r l = let t : ltb size x ≡ false = ground (arith, l) in rw t refl
first_above-none size x leaf (y ∷ ys) r l =
    let b = first-last_of x leaf (y ∷ ys) r in
    let t : ltb size x ≡ false = ground (arith, l, b) in
    rw t (first_above-none size y leaf ys r.1 l)

pub pick_class-some :
    (size s : ℕ) (classes : List ℕ) (cache_only : Bool)
    → first_above size classes ≡ some s
    → pick_class size classes cache_only ≡ some s
unfolding pick_class
pick_class-some size s classes cache_only e = rw (e, pick_class) refl

pub pick_class-last :
    (size leaf : ℕ) (classes : List ℕ)
    → first_above size classes ≡ none
    → last_class classes ≡ leaf
    → leb size leaf ≡ true
    → pick_class size classes true ≡ some leaf
unfolding pick_class
pick_class-last size leaf classes n l t = rw (n, pick_class, l, t) refl

pub pick_class-none :
    (size : ℕ) (classes : List ℕ)
    → first_above size classes ≡ none
    → pick_class size classes false ≡ none
unfolding pick_class
pick_class-none size classes n = rw (n, pick_class) refl
