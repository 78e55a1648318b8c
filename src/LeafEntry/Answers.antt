-- ===== src/LeafEntry/Answers.antt =====
-- What the pages of an entry allow a read to return and to change.
use bf_tree.Common.{ℕ, ◌≤◌, ◌<◌, ◌≡◌, ◌≢◌, ◌⊎◌, sym, inl, inr, Bool, true, false, some, length}
use bf_tree.Common.Bytes.{Key}
use bf_tree.Nodes.LeafNode.{LeafNode, count, as_offset, LeafReadResult, not_found, read_by_key}
use bf_tree.Nodes.LeafNode.Layout.{rest_at, first, IsValid}
use bf_tree.Nodes.LeafNode.Lookup.{rest_of}
use bf_tree.Nodes.LeafNode.Records.{shown, IsMissing, record_cases, read_at, read_missing}
use bf_tree.Nodes.LeafNode.Mark.{ReadsLike}
use bf_tree.Storage.{PageLocation}
use bf_tree.LeafEntry.{LeafEntry, ReadResult, mini, full, base, nothing, load_base_page}

-- What a page has for a key: the record with the key, or none.
abbrev pub Has : LeafNode → Key → LeafReadResult → Type 0
Has n key r =
    ((i : ℕ) × (first n ≤ i)
      × (i < count n)
      × (rest_at n i ≡ rest_of n key)
      × (shown n (n.slots i) ≡ r))
    ⊎ (IsMissing n key × (r ≡ not_found))

pub read_by_key-Has : (n : LeafNode) (key : Key) → IsValid n → Has n key (read_by_key n key).0
read_by_key-Has n key v = elim (record_cases n key v) [
  | inl (i, a, b, e) ↦ inl (i, a, b, e, sym (read_at n key i v a b e))
  | inr gone ↦ inr (gone, read_missing n key v gone)
]

-- The pages of an entry are valid leaves, and a mini page has a base page behind it unless the tree is
-- cache-only.
abbrev pub IsEntryAt : LeafEntry → Bool → PageLocation → Type 0
IsEntryAt e cache_only (PageLocation.base offset) = IsValid (load_base_page e offset)
IsEntryAt e cache_only (PageLocation.full ptr) = IsValid (e.cache ptr)
IsEntryAt e true (PageLocation.mini ptr) = IsValid (e.cache ptr)
IsEntryAt e false (PageLocation.mini ptr) =
    IsValid (e.cache ptr)
    × ((offset : ℕ) × (as_offset (e.cache ptr).next_level ≡ some offset)
        × IsValid (load_base_page e offset))
IsEntryAt e cache_only PageLocation.null = Unit

abbrev pub IsEntry : LeafEntry → Bool → Type 0
IsEntry e cache_only = IsEntryAt e cache_only e.location

-- The key is not shorter than the prefix of a page that is read: the code slices the key behind it.
abbrev pub IsLongAt : LeafEntry → Key → Bool → PageLocation → Type 0
IsLongAt e key cache_only (PageLocation.base offset) =
    (load_base_page e offset).prefix_len ≤ length key
IsLongAt e key cache_only (PageLocation.full ptr) = (e.cache ptr).prefix_len ≤ length key
IsLongAt e key true (PageLocation.mini ptr) = (e.cache ptr).prefix_len ≤ length key
IsLongAt e key false (PageLocation.mini ptr) =
    ((e.cache ptr).prefix_len ≤ length key)
    × ((offset : ℕ)
        → as_offset (e.cache ptr).next_level ≡ some offset
        → (load_base_page e offset).prefix_len ≤ length key)
IsLongAt e key cache_only PageLocation.null = Unit

-- The answers that the records of an entry allow: those of the page in memory come first.
abbrev pub AnswerAt : LeafEntry → Key → Bool → PageLocation → ReadResult → Type 0
AnswerAt e key cache_only (PageLocation.base offset) (base r) = Has (load_base_page e offset) key r
AnswerAt e key cache_only (PageLocation.full ptr) (full r) = Has (e.cache ptr) key r
AnswerAt e key cache_only (PageLocation.mini ptr) (mini r) =
    Has (e.cache ptr) key r × (r ≢ not_found)
AnswerAt e key cache_only (PageLocation.mini ptr) nothing =
    IsMissing (e.cache ptr) key × (cache_only ≡ true)
AnswerAt e key cache_only (PageLocation.mini ptr) (base r) =
    IsMissing (e.cache ptr) key
    × (cache_only ≡ false)
    × ((offset : ℕ) × (as_offset (e.cache ptr).next_level ≡ some offset)
        × Has (load_base_page e offset) key r)
AnswerAt e key cache_only PageLocation.null nothing = Unit
AnswerAt e key cache_only _ _ = ⊥

-- The pages of `e'` read like those of `e` for every key.
abbrev pub KeptAt : LeafEntry → LeafEntry → Bool → PageLocation → Type 0
KeptAt e e' cache_only (PageLocation.base offset) =
    ReadsLike (load_base_page e offset) (load_base_page e' offset)
KeptAt e e' cache_only (PageLocation.full ptr) = ReadsLike (e.cache ptr) (e'.cache ptr)
KeptAt e e' cache_only (PageLocation.mini ptr) =
    ReadsLike (e.cache ptr) (e'.cache ptr)
    × ((offset : ℕ)
        → cache_only ≡ false
        → as_offset (e.cache ptr).next_level ≡ some offset
        → ReadsLike (load_base_page e offset) (load_base_page e' offset))
KeptAt e e' cache_only PageLocation.null = Unit

-- A read of `key` returns `r` and leaves `e'`.
pub record Reads (e : LeafEntry) (key : Key) (cache_only : Bool) (l : PageLocation) (r : ReadResult)
    (e' : LeafEntry) : Type 0 where
  pub answer : AnswerAt e key cache_only l r
  pub same_location : e'.location ≡ e.location
  pub valid : IsEntryAt e' cache_only l
  pub kept : KeptAt e e' cache_only l
