-- ===== src/CircularBuffer/FreeList.antt =====
-- src/circular_buffer/freelist.rs: freed memory by size class, the greatest class first. The lists are
-- threaded through the freed memory itself; here each is a list of pointers. `none` is a panic.
pub mod Classes
pub mod Contents
use bf_tree.Common.{
  ℕ, zero, suc, ◌+◌, ◌-◌, Bool, true, false, Option, none, some, List, [], ◌∷◌, if◌then◌else◌, ltb,
  leb, ◌==◌, length, ◌>>=◌,
}
use mathlib.Core.List.{reverse}
use bf_tree.Common.Shift.{put_at}

pub record FreeList : Type 0 where
  pub size_classes : List ℕ
  pub lists : ℕ → List ℕ

-- `FreeList::new`, of the classes of the mini pages in rising order.
abbrev pub new : List ℕ → FreeList
new page_classes = record { size_classes = reverse page_classes; lists = λ i. [] }

-- `Iterator::position`
unfoldable pub position : (ℕ → Bool) → List ℕ → Option ℕ
position p [] = none
position p (x ∷ xs) = let rest = position p xs >>= λ i. some (suc i) in if p x then some 0 else rest

unfoldable pub size_class_smaller_than : FreeList → ℕ → Option ℕ
size_class_smaller_than f size = position (λ s. leb s size) f.size_classes

unfoldable pub size_class_larger_than : FreeList → ℕ → Option ℕ
size_class_larger_than f size = position (λ s. leb size s) (reverse f.size_classes) >>= λ pos.
    some (length f.size_classes - 1 - pos)

-- `size_classes.last().unwrap()`
unfoldable pub last : List ℕ → Option ℕ
last [] = none
last (x ∷ []) = some x
last (x ∷ y ∷ ys) = last (y ∷ ys)

-- The first pointer of a list.
abbrev pub head? : List ℕ → Option ℕ
head? [] = none
head? (x ∷ xs) = some x

abbrev pub tail_of : List ℕ → List ℕ
tail_of [] = []
tail_of (x ∷ xs) = xs

unfoldable pub remove : FreeList → ℕ → Option (Option ℕ × FreeList)
remove f size = size_class_larger_than f size >>= λ i.
    some (head? (f.lists i), record f { lists = put_at f.lists i (tail_of (f.lists i)) })

-- `FreeListError`
pub data Added : Type 0 where
  would_block size_too_small : Added
  added : FreeList → Added

-- `try_add`; `contended` says that another thread has the lock of the list.
unfoldable pub try_add : FreeList → ℕ → ℕ → Bool → Option Added
try_add f ptr size contended = last f.size_classes >>= λ smallest.
    if ltb size smallest
    then some size_too_small
    else size_class_smaller_than f size >>= λ i. some (
        if contended
        then would_block
        else added (record f { lists = put_at f.lists i (ptr ∷ f.lists i) }))

-- The list without the first place of a pointer, and whether it was there.
unfoldable pub without : ℕ → List ℕ → Bool × List ℕ
without ptr [] = (false, [])
without ptr (x ∷ xs) =
    let (there, rest) = without ptr xs in if x == ptr then (true, xs) else (there, x ∷ rest)

unfoldable pub find_and_remove : FreeList → ℕ → ℕ → Option (Bool × FreeList)
find_and_remove f ptr size = size_class_smaller_than f size >>= λ i.
    let (there, rest) = without ptr (f.lists i) in
    some (there, record f { lists = put_at f.lists i rest })
