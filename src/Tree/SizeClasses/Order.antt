-- ===== src/Tree/SizeClasses/Order.antt =====
-- Vectors of rising, aligned sizes.
use bf_tree.Common.{
  ℕ, ◌%◌, ◌≤◌, ◌<◌, ◌≡◌, refl, inl, inr, arith, List, [], ◌∷◌, ◌++◌, true, false, Bool-cases, ltb,
}
use bf_tree.Tree.SizeClasses.{is_empty, last_of, push_greater}

-- Each greater than the one before, the first greater than `x`.
abbrev pub RisesFrom : ℕ → List ℕ → Type 0
RisesFrom x [] = Unit
RisesFrom x (y ∷ ys) = (x < y) × RisesFrom y ys

abbrev pub Ascending : List ℕ → Type 0
Ascending [] = Unit
Ascending (x ∷ xs) = RisesFrom x xs

-- All are whole cache lines.
abbrev pub Aligned : List ℕ → Type 0
Aligned [] = Unit
Aligned (x ∷ xs) = (x % 64 ≡ 0) × Aligned xs

-- None is greater than the last, which is at most `n`.
abbrev pub LastAtMost : ℕ → List ℕ → Type 0
LastAtMost n [] = Unit
LastAtMost n (x ∷ xs) = last_of x xs ≤ n

RisesFrom-append :
    (x n : ℕ) (xs : List ℕ) → RisesFrom x xs → last_of x xs < n → RisesFrom x (xs ++ (n ∷ []))
RisesFrom-append x n [] r l = (l, tt)
RisesFrom-append x n (y ∷ ys) r l = (r.0, RisesFrom-append y n ys r.1 l)

Aligned-append : (n : ℕ) (xs : List ℕ) → Aligned xs → n % 64 ≡ 0 → Aligned (xs ++ (n ∷ []))
Aligned-append n [] a b = (b, tt)
Aligned-append n (x ∷ xs) a b = (a.0, Aligned-append n xs a.1 b)

pub last_of-append : (x n : ℕ) (xs : List ℕ) → last_of x (xs ++ (n ∷ [])) ≡ n
last_of-append x n [] = refl
last_of-append x n (y ∷ ys) = last_of-append y n ys

-- What a push leaves of a vector whose last is at most `limit`.
pub record IsPushed (limit : ℕ) (xs : List ℕ) : Type 0 where
  pub ascending : Ascending xs
  pub aligned : Aligned xs
  pub bounded : LastAtMost limit xs

pub push_greater-IsPushed :
    (limit n : ℕ) (xs : List ℕ)
    → IsPushed limit xs
    → n % 64 ≡ 0
    → n ≤ limit
    → IsPushed limit (push_greater xs n) × (is_empty (push_greater xs n) ≡ false)
unfolding push_greater
push_greater-IsPushed limit n [] v a l =
    (record { ascending = tt; aligned = (a, tt); bounded = l }, refl)
push_greater-IsPushed limit n (x ∷ xs) v a l = elim (Bool-cases (ltb (last_of x xs) n)) [
  | inl greater ↦ rw greater (
    record {
      ascending = RisesFrom-append x n xs v.ascending (ground (arith, greater));
      aligned = (v.aligned.0, Aligned-append n xs v.aligned.1 a);
      bounded = rw (last_of-append x n xs) l;
    },
    refl,
  )
  | inr present ↦ rw present (v, refl)
]

-- After a push of the limit, the limit is the last.
pub push_greater-limit :
    (limit : ℕ) (xs : List ℕ)
    → IsPushed limit xs
    → (y : ℕ) × (ys : List ℕ) × (push_greater xs limit ≡ y ∷ ys) × (last_of y ys ≡ limit)
unfolding push_greater
push_greater-limit limit [] v = (limit, [], refl, refl)
push_greater-limit limit (x ∷ xs) v = elim (Bool-cases (ltb (last_of x xs) limit)) [
  | inl greater ↦ (x, xs ++ (limit ∷ []), rw greater refl, last_of-append x limit xs)
  | inr present ↦ (x, xs, rw present refl, ground (arith, present, v.bounded))
]

-- A push of more than the last.
pub push_greater_more :
    (n y : ℕ) (ys : List ℕ) → last_of y ys < n → push_greater (y ∷ ys) n ≡ y ∷ (ys ++ (n ∷ []))
unfolding push_greater
push_greater_more n y ys l = let e : ltb (last_of y ys) n ≡ true = ground (arith, l) in rw e refl
