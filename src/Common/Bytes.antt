-- ===== src/Common/Bytes.antt =====
-- Byte strings: the order of Rust's `[u8]::cmp`, little-endian words, and byte memory.
use Prim.Native.Nat.{ℕ, zero, suc, ◌+◌, ◌-◌, ◌*◌, ◌/◌, ◌%◌, ◌^◌, ◌≤◌, ◌<◌, compare, Ordering}
use mathlib.Core.Path.{◌≡◌, refl, ap, ◌∙◌}
use mathlib.Core.Logic.{◌⊎◌, inl, inr, ◌≢◌}
use native.Mathlib.Nat.{zero-add, add-zero}
use mathlib.Core.List.{List, [], ◌∷◌, ◌++◌}
use mathlib.Core.Bool.{◌&&◌}
use native.Mathlib.Omega.{arith}
use bf_tree.Common.Tests.{ltb, leb, if◌then◌else◌, Ordering-cases}
use bf_tree.Common.Lists.{length, get_or, take, drop}

abbrev pub Key : Type 0
Key = List ℕ

-- `Ord::cmp` on byte slices.
unfoldable pub cmp : Key → Key → Ordering
cmp [] [] = Ordering.eq
cmp [] (y ∷ ys) = Ordering.lt
cmp (x ∷ xs) [] = Ordering.gt
cmp (x ∷ xs) (y ∷ ys) = elim (compare x y) [
  | Ordering.lt ↦ Ordering.lt
  | Ordering.eq ↦ cmp xs ys
  | Ordering.gt ↦ Ordering.gt
]

pub cmp_refl : (x : Key) → cmp x x ≡ Ordering.eq
unfolding cmp
cmp_refl [] = refl
cmp_refl (x ∷ xs) = ground (arith, cmp_refl xs)

pub cmp-eq : (x y : Key) → cmp x y ≡ Ordering.eq → x ≡ y
unfolding cmp
cmp-eq [] [] h = refl
cmp-eq [] (y ∷ ys) h = cc
cmp-eq (x ∷ xs) [] h = cc
cmp-eq (x ∷ xs) (y ∷ ys) h = ground (arith, cmp-eq xs ys)

pub cmp-lt_trans :
    (x y z : Key) → cmp x y ≡ Ordering.lt → cmp y z ≡ Ordering.lt → cmp x z ≡ Ordering.lt
unfolding cmp
cmp-lt_trans [] [] z h k = cc
cmp-lt_trans [] (y ∷ ys) [] h k = cc
cmp-lt_trans [] (y ∷ ys) (z ∷ zs) h k = refl
cmp-lt_trans (x ∷ xs) [] z h k = cc
cmp-lt_trans (x ∷ xs) (y ∷ ys) [] h k = cc
cmp-lt_trans (x ∷ xs) (y ∷ ys) (z ∷ zs) h k = ground (arith, cmp-lt_trans xs ys zs)

pub cmp-gt_swap : (x y : Key) → cmp x y ≡ Ordering.gt → cmp y x ≡ Ordering.lt
unfolding cmp
cmp-gt_swap [] [] h = cc
cmp-gt_swap [] (y ∷ ys) h = cc
cmp-gt_swap (x ∷ xs) [] h = refl
cmp-gt_swap (x ∷ xs) (y ∷ ys) h = ground (arith, cmp-gt_swap xs ys)

pub cmp-lt_swap : (x y : Key) → cmp x y ≡ Ordering.lt → cmp y x ≡ Ordering.gt
unfolding cmp
cmp-lt_swap [] [] h = cc
cmp-lt_swap [] (y ∷ ys) h = refl
cmp-lt_swap (x ∷ xs) [] h = cc
cmp-lt_swap (x ∷ xs) (y ∷ ys) h = ground (arith, cmp-lt_swap xs ys)

-- Two-stage comparison, the head of `n` bytes first, is the comparison of the whole.
abbrev pub cmp_then : Ordering → Ordering → Ordering
cmp_then Ordering.eq b = b
cmp_then Ordering.lt b = Ordering.lt
cmp_then Ordering.gt b = Ordering.gt

pub cmp_split :
    (n : ℕ) (x y : Key) → cmp_then (cmp (take n x) (take n y)) (cmp (drop n x) (drop n y)) ≡ cmp x y
unfolding cmp
cmp_split zero x y = refl
cmp_split (suc n) [] [] = refl
cmp_split (suc n) [] (y ∷ ys) = refl
cmp_split (suc n) (x ∷ xs) [] = refl
cmp_split (suc n) (x ∷ xs) (y ∷ ys) = ground (arith, cmp_split n xs ys)

-- The `n` low bytes of a word, least significant first.
unfoldable pub le_bytes : ℕ → ℕ → List ℕ
le_bytes zero v = []
le_bytes (suc n) v = (v % 256) ∷ le_bytes n (v / 256)

unfoldable pub from_le : List ℕ → ℕ
from_le [] = 0
from_le (b ∷ bs) = b + 256 * from_le bs

abbrev pow256 : ℕ → ℕ
pow256 zero = 1
pow256 (suc n) = 256 * pow256 n

from_le-le_bytes_fuel : (n v : ℕ) → v < pow256 n → from_le (le_bytes n v) ≡ v
unfolding from_le le_bytes
from_le-le_bytes_fuel zero v h = omega arith
from_le-le_bytes_fuel (suc n) v h = omega (arith, from_le-le_bytes_fuel n (v / 256) (omega arith))

pub from_le-le_bytes : (v : ℕ) → v < 2 ^ 64 → from_le (le_bytes 8 v) ≡ v
from_le-le_bytes v h = from_le-le_bytes_fuel 8 v h

pub length-le_bytes : (n v : ℕ) → length (le_bytes n v) ≡ n
unfolding le_bytes
length-le_bytes zero v = refl
length-le_bytes (suc n) v = omega (arith, length-le_bytes n (v / 256))

-- Memory: a byte for each offset. `read m o n` is the slice `m[o .. o + n]`.
abbrev pub Memory : Type 0
Memory = ℕ → ℕ

unfoldable pub read : Memory → ℕ → ℕ → List ℕ
read m o zero = []
read m o (suc n) = m o ∷ read m (o + 1) n

-- `ptr::copy_nonoverlapping` of a slice to offset `o`.
unfoldable pub write : Memory → ℕ → List ℕ → Memory
write m o bs a = if leb o a && ltb a (o + length bs) then get_or bs (a - o) 0 else m a

pub read_ext :
    (m m' : Memory) (o n : ℕ)
    → ((a : ℕ) → o ≤ a → a < o + n → m a ≡ m' a)
    → read m o n ≡ read m' o n
unfolding read
read_ext m m' o zero h = refl
read_ext m m' o (suc n) h =
    let e = h o (omega arith) (omega arith) in
    let r = read_ext m m' (o + 1) n (λ a p q. h a (omega arith) (omega arith)) in rw (e, r)

pub write_apart :
    (m : Memory) (p : ℕ) (bs : List ℕ) (a : ℕ)
    → (a < p) ⊎ (p + length bs ≤ a)
    → write m p bs a ≡ m a
unfolding write
write_apart m p bs a h = ground arith

-- A write leaves what it does not overlap.
pub read-write_apart :
    (m : Memory) (o n p : ℕ) (bs : List ℕ)
    → (o + n ≤ p) ⊎ (p + length bs ≤ o)
    → read (write m p bs) o n ≡ read m o n
unfolding write
read-write_apart m o n p bs h = read_ext (write m p bs) m o n (λ a u v. ground arith)

pub read_points :
    (m : Memory) (o : ℕ) (cs : List ℕ)
    → ((i : ℕ) → i < length cs → m (o + i) ≡ get_or cs i 0)
    → read m o (length cs) ≡ cs
unfolding read
read_points m o [] h = refl
read_points m o (c ∷ cs) h =
    let head : m o ≡ c = ap m (omega arith) ∙ h 0 (omega arith) in
    let rest = read_points m (o + 1) cs (λ i q. ap m (omega arith) ∙ h (suc i) (omega arith)) in
    rw (head, rest)

-- What was written is read back.
pub read-write_self : (m : Memory) (p : ℕ) (bs : List ℕ) → read (write m p bs) p (length bs) ≡ bs
unfolding write
read-write_self m p bs = read_points (write m p bs) p bs (λ i q. point i q)
  where
    point : (i : ℕ) → i < length bs → write m p bs (p + i) ≡ get_or bs i 0
    point i q = let e : p + i - p ≡ i = omega arith in ground (arith, ap (λ k. get_or bs k 0) e)

pub length-read : (m : Memory) (o n : ℕ) → length (read m o n) ≡ n
unfolding read
length-read m o zero = refl
length-read m o (suc n) = omega (arith, length-read m (o + 1) n)

pub read-append : (m : Memory) (o a b : ℕ) → read m o (a + b) ≡ read m o a ++ read m (o + a) b
unfolding read
read-append m o zero b = rw (zero-add, add-zero)
read-append m o (suc a) b =
    let e : suc a + b ≡ suc (a + b) = omega arith in
    let f : o + suc a ≡ o + 1 + a = omega arith in rw (e, f, ← read-append m (o + 1) a b)

-- Two writes one after the other: each part is read back.
pub read-write_append :
    (m : Memory) (p : ℕ) (xs ys : List ℕ)
    → (read (write (write m p xs) (p + length xs) ys) p (length xs) ≡ xs)
      × (read (write (write m p xs) (p + length xs) ys) (p + length xs) (length ys) ≡ ys)
read-write_append m p xs ys = (
  read-write_apart (write m p xs) p (length xs) (p + length xs) ys (inl (omega arith))
      ∙ read-write_self m p xs,
  read-write_self (write m p xs) (p + length xs) ys,
)

-- `not greater` is transitive with `less`.
pub cmp-lt-le_trans :
    (x y z : Key) → cmp x y ≡ Ordering.lt → cmp y z ≢ Ordering.gt → cmp x z ≡ Ordering.lt
cmp-lt-le_trans x y z h k = elim (Ordering-cases (cmp y z)) [
  | inl less ↦ cmp-lt_trans x y z h less
  | inr (inl same) ↦ rw (cmp-eq y z same) at h
  | inr (inr greater) ↦ absurd (k greater)
]

pub cmp-le-lt_trans :
    (x y z : Key) → cmp x y ≢ Ordering.gt → cmp y z ≡ Ordering.lt → cmp x z ≡ Ordering.lt
cmp-le-lt_trans x y z h k = elim (Ordering-cases (cmp x y)) [
  | inl less ↦ cmp-lt_trans x y z less k
  | inr (inl same) ↦ rw (← cmp-eq x y same) at k
  | inr (inr greater) ↦ absurd (h greater)
]

-- The order turned round.
pub cmp-lt_not_gt : (x y : Key) → cmp x y ≢ Ordering.lt → cmp y x ≢ Ordering.gt
cmp-lt_not_gt x y h g = h (cmp-gt_swap y x g)

pub cmp-not_lt_gt : (x y : Key) → cmp x y ≢ Ordering.gt → cmp y x ≢ Ordering.lt
cmp-not_lt_gt x y h l = h (cmp-lt_swap y x l)

-- A `u16` as two bytes.
pub from_le-le_bytes_2 : (v : ℕ) → v < 65536 → from_le (le_bytes 2 v) ≡ v
from_le-le_bytes_2 v h = from_le-le_bytes_fuel 2 v h
