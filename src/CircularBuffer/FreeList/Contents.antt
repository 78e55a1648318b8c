-- ===== src/CircularBuffer/FreeList/Contents.antt =====
-- What stands in the lists of `FreeList`.
use native.Mathlib.Decide.{ℕ_discrete}
use bf_tree.Common.{
  ℕ, ◌≤◌, ◌≡◌, ◌≢◌, ◌∙◌, refl, ap, sym, subst, inl, inr, arith, List, [], ◌∷◌, Option, some,
  some-injective, none-ne-some, bind-some, Bool, true, false, Bool-cases, if◌then◌else◌, ltb, ◌==◌,
  get_elem?,
}
use bf_tree.Common.Shift.{put_at, put_at_self, put_at_other}
use bf_tree.CircularBuffer.FreeList.{
  FreeList, size_class_smaller_than, size_class_larger_than, remove, would_block, size_too_small,
  added, try_add, last, head?, tail_of, without, find_and_remove,
}
use bf_tree.CircularBuffer.FreeList.Classes.{
  size_class_smaller_than-some, size_class_larger_than-some,
}

-- All memory of a list has at least `c` bytes.
abbrev pub AllAtLeast : (ℕ → ℕ) → ℕ → List ℕ → Type 0
AllAtLeast size_of c [] = Unit
AllAtLeast size_of c (p ∷ ps) = (c ≤ size_of p) × AllAtLeast size_of c ps

-- The memory in each list is as large as its class.
abbrev pub Fits : (ℕ → ℕ) → FreeList → Type 0
Fits size_of f = (i c : ℕ) → get_elem? f.size_classes i ≡ some c → AllAtLeast size_of c (f.lists i)

-- A list replaced by one that fits.
Fits-put_at :
    (size_of : ℕ → ℕ) (f : FreeList) (i : ℕ) (ps : List ℕ)
    → Fits size_of f
    → ((c : ℕ) → get_elem? f.size_classes i ≡ some c → AllAtLeast size_of c ps)
    → Fits size_of (record f { lists = put_at f.lists i ps })
Fits-put_at size_of f i ps v h j c e = elim (ℕ_discrete j i) [
  | yes here ↦ rw (here, put_at_self f.lists i ps) (h c (rw here at e))
  | no there ↦ rw (put_at_other f.lists i ps j there) (v j c e)
]

added-injective : (f g : FreeList) → added f ≡ added g → f ≡ g
added-injective f g h = cc

-- An addition succeeds at the front of the list of the class, which nobody holds.
try_add-added :
    (f g : FreeList) (ptr size : ℕ) (contended : Bool)
    → try_add f ptr size contended ≡ some (added g)
    → (i : ℕ) × (size_class_smaller_than f size ≡ some i)
      × (record f { lists = put_at f.lists i (ptr ∷ f.lists i) } ≡ g)
unfolding try_add
try_add-added f g ptr size contended e =
    let (smallest, _, e1) = bind-some (last f.size_classes) _ e in
    elim (Bool-cases (ltb size smallest)) [
      | inl too_small ↦ absurd (not_added (some-injective _ _ (rw too_small at e1)))
      | inr large ↦
          let (i, s, e2) = bind-some (size_class_smaller_than f size) _ (rw large at e1) in
          (i, s, into_class i contended (some-injective _ _ e2))
    ]
  where
    not_added : size_too_small ≢ added g
    not_added h = cc

    into_class :
        (i : ℕ) (contended : Bool)
        → (if contended
            then would_block
            else added (record f { lists = put_at f.lists i (ptr ∷ f.lists i) }))
          ≡ added g
        → record f { lists = put_at f.lists i (ptr ∷ f.lists i) } ≡ g
    into_class i true h = cc
    into_class i false h = added-injective _ _ h

-- Freed memory added to the free list, with its own size, leaves lists whose memory is as large as their
-- classes.
pub try_add-Fits :
    (size_of : ℕ → ℕ) (f g : FreeList) (ptr : ℕ) (contended : Bool)
    → Fits size_of f
    → try_add f ptr (size_of ptr) contended ≡ some (added g)
    → Fits size_of g
try_add-Fits size_of f g ptr contended v e =
    let (i, s, h) = try_add-added f g ptr (size_of ptr) contended e in
    let (c, at, l) = size_class_smaller_than-some f (size_of ptr) i s in
    subst (Fits size_of) h (
      Fits-put_at size_of f i (ptr ∷ f.lists i) v
        (λ d k. (rw (some-injective _ _ (sym at ∙ k)) at l, v i d k)))

first-AllAtLeast :
    (size_of : ℕ → ℕ) (c ptr : ℕ) (ps : List ℕ)
    → AllAtLeast size_of c ps
    → head? ps ≡ some ptr
    → c ≤ size_of ptr
first-AllAtLeast size_of c ptr [] v e = none-ne-some e
first-AllAtLeast size_of c ptr (p ∷ ps) v e = rw (← some-injective _ _ e) v.0

rest-AllAtLeast :
    (size_of : ℕ → ℕ) (c : ℕ) (ps : List ℕ)
    → AllAtLeast size_of c ps
    → AllAtLeast size_of c (tail_of ps)
rest-AllAtLeast size_of c [] v = tt
rest-AllAtLeast size_of c (p ∷ ps) v = v.1

-- Memory that `remove` returns has the requested size or more.
pub remove-large_enough :
    (size_of : ℕ → ℕ) (f g : FreeList) (size ptr : ℕ)
    → Fits size_of f
    → remove f size ≡ some (some ptr, g)
    → (size ≤ size_of ptr) × Fits size_of g
unfolding remove
remove-large_enough size_of f g size ptr v e =
    let (i, s, e1) = bind-some (size_class_larger_than f size) _ e in
    let (c, at, l) = size_class_larger_than-some f size i s in
    let p = some-injective _ _ e1 in
    let first =
      first-AllAtLeast size_of c ptr (f.lists i) (v i c at)
        (ap (λ (x : Option ℕ × FreeList). x.0) p) in
    (
      omega (arith, l, first),
      subst (Fits size_of) (ap (λ (x : Option ℕ × FreeList). x.1) p) (
          Fits-put_at size_of f i (tail_of (f.lists i)) v
            (λ d k. rest-AllAtLeast size_of d (f.lists i) (v i d k))),
    )

without-first : (ptr : ℕ) (ps : List ℕ) → without ptr (ptr ∷ ps) ≡ (true, ps)
unfolding without
without-first ptr ps = let e : (ptr == ptr) ≡ true = ground arith in rw e refl

-- Memory that was just added to the free list is found there, whatever its class, and without it every
-- list is as before.
pub find_and_remove-try_add :
    (f g : FreeList) (ptr size : ℕ) (contended : Bool)
    → try_add f ptr size contended ≡ some (added g)
    → (h : FreeList) × (find_and_remove g ptr size ≡ some (true, h))
      × (h.size_classes ≡ f.size_classes)
      × ((j : ℕ) → h.lists j ≡ f.lists j)
unfolding find_and_remove size_class_smaller_than
find_and_remove-try_add f g ptr size contended e =
    let (i, s, k) = try_add-added f g ptr size contended e in
    subst (λ g. Restored g) k (restored i s)
  where
    Restored : FreeList → Type 0
    Restored g =
        (h : FreeList) × (find_and_remove g ptr size ≡ some (true, h))
        × (h.size_classes ≡ f.size_classes)
        × ((j : ℕ) → h.lists j ≡ f.lists j)

    same_lists :
        (i : ℕ) (j : ℕ) → put_at (put_at f.lists i (ptr ∷ f.lists i)) i (f.lists i) j ≡ f.lists j
    same_lists i j = elim (ℕ_discrete j i) [
      | yes here ↦ rw (here, put_at_self (put_at f.lists i (ptr ∷ f.lists i)) i (f.lists i)) refl
      | no there ↦
          put_at_other (put_at f.lists i (ptr ∷ f.lists i)) i (f.lists i) j there
          ∙ put_at_other f.lists i (ptr ∷ f.lists i) j there
    ]

    restored :
        (i : ℕ)
        → size_class_smaller_than f size ≡ some i
        → Restored (record f { lists = put_at f.lists i (ptr ∷ f.lists i) })
    restored i s = (
      record f { lists = put_at (put_at f.lists i (ptr ∷ f.lists i)) i (f.lists i) },
      rw (s, put_at_self f.lists i (ptr ∷ f.lists i), without-first ptr (f.lists i)) refl,
      refl,
      same_lists i,
    )
