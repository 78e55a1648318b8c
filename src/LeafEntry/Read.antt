-- ===== src/LeafEntry/Read.antt =====
-- A read of a leaf: what it returns, and what it leaves.
use bf_tree.Common.{
  ℕ, ◌≡◌, ◌≢◌, ◌∙◌, refl, sym, ap, subst, inl, inr, Bool, true, false, Option, none, some,
  some-injective, leb, if◌then◌else◌, Bool-cases,
}
use bf_tree.Common.Bytes.{Key}
use bf_tree.Common.Shift.{put_at_self}
use bf_tree.Nodes.OpType.{is_absent}
use bf_tree.Nodes.LeafKvMeta.{op_type}
use bf_tree.Nodes.LeafNode.{
  LeafNode, as_offset, LeafReadResult, hit, deleted, not_found, read_by_key,
}
use bf_tree.Nodes.LeafNode.Layout.{IsValid}
use bf_tree.Nodes.LeafNode.Records.{shown, IsMissing}
use bf_tree.Nodes.LeafNode.Mark.{
  ReadsLike, reads_like, read_by_key_inner-read_by_key, read_by_key-ReadsLike,
}
use bf_tree.Storage.{PageLocation}
use bf_tree.LeafEntry
use bf_tree.LeafEntry.{
  LeafEntry, ReadResult, mini, full, base, nothing, load_base_page, with_base, with_cache_page,
  read_base, after_mini, read, copied_to, result_len,
}
use bf_tree.LeafEntry.Answers.{Has, read_by_key-Has, IsEntryAt, IsEntry, IsLongAt, Reads}

shown-not_found : (n : LeafNode) (i : ℕ) → shown n (n.slots i) ≢ not_found
shown-not_found n i h = elim (Bool-cases (is_absent (op_type (n.slots i)))) [
  | inl gone ↦ cc (rw gone at h)
  | inr there ↦ cc (rw there at h)
]

Has-IsMissing : (n : LeafNode) (key : Key) → Has n key not_found → IsMissing n key
Has-IsMissing n key h = elim h [
  | inl (i, a, b, e, s) ↦ absurd (shown-not_found n i s)
  | inr (gone, _) ↦ gone
]

-- The mini page changed in place.
module _ (e : LeafEntry) (ptr : ℕ) (n : LeafNode) (like : ReadsLike (e.cache ptr) n) where
  there : (with_cache_page e ptr n).cache ptr ≡ n
  there = put_at_self e.cache ptr n

  still_like : ReadsLike (e.cache ptr) ((with_cache_page e ptr n).cache ptr)
  still_like = subst (ReadsLike (e.cache ptr)) (sym there) like

  same_next : ((with_cache_page e ptr n).cache ptr).next_level ≡ (e.cache ptr).next_level
  same_next = ap (λ (x : LeafNode). x.next_level) (there ∙ like.same_rest)

  kept_mini :
      (cache_only : Bool)
      → IsEntryAt e cache_only (PageLocation.mini ptr)
      → IsEntryAt (with_cache_page e ptr n) cache_only (PageLocation.mini ptr)
  kept_mini true v = still_like.valid
  kept_mini false v = (still_like.valid, (v.1.0, ap as_offset same_next ∙ v.1.1, v.1.2))

  same_offset : {a b : ℕ} {o : Option ℕ} → o ≡ some a → o ≡ some b → a ≡ b
  same_offset p q = some-injective _ _ (sym p ∙ q)

  differ : true ≡ false → ⊥
  differ k = cc

  IsValid-load_base_page :
      (cache_only : Bool)
      → IsEntryAt e cache_only (PageLocation.mini ptr)
      → (offset : ℕ) → cache_only ≡ false
      → as_offset (e.cache ptr).next_level ≡ some offset
      → IsValid (load_base_page e offset)
  IsValid-load_base_page true v offset m a = absurd (differ m)
  IsValid-load_base_page false v offset m a =
      subst (λ x. IsValid (load_base_page e x)) (same_offset v.1.1 a) v.1.2

  mini-Reads :
      (key : Key) (cache_only : Bool) (out : LeafReadResult)
      → IsEntryAt e cache_only (PageLocation.mini ptr)
      → Has (e.cache ptr) key out
      → (r : ReadResult) × (e' : LeafEntry) × (after_mini
            (with_cache_page e ptr n)
            key
            cache_only
            (e.cache ptr).next_level
            out
          ≡ some (r, e'))
        × Reads e key cache_only (PageLocation.mini ptr) r e'
  unfolding after_mini
  mini-Reads key cache_only (hit value) v h = (
    mini (hit value),
    with_cache_page e ptr n,
    refl,
    record {
      answer = (h, λ k. cc);
      same_location = refl;
      valid = kept_mini cache_only v;
      kept = (
        still_like,
        λ o m a. reads_like (load_base_page e o) (IsValid-load_base_page cache_only v o m a),
      );
    },
  )
  mini-Reads key cache_only deleted v h = (
    mini deleted,
    with_cache_page e ptr n,
    refl,
    record {
      answer = (h, λ k. cc);
      same_location = refl;
      valid = kept_mini cache_only v;
      kept = (
        still_like,
        λ o m a. reads_like (load_base_page e o) (IsValid-load_base_page cache_only v o m a),
      );
    },
  )
  mini-Reads key true not_found v h = (
    nothing,
    with_cache_page e ptr n,
    refl,
    record {
      answer = (Has-IsMissing (e.cache ptr) key h, refl);
      same_location = refl;
      valid = kept_mini true v;
      kept = (still_like, λ o m a. absurd (differ m));
    },
  )
  mini-Reads key false not_found v h =
      let (offset, at, vb) = v.1 in
      let page = load_base_page e offset in
      let like_base = read_by_key-ReadsLike page key vb in
      (
        base (read_by_key page key).0,
        with_base (with_cache_page e ptr n) (read_by_key page key).1,
        rw at refl,
        record {
          answer =
              (Has-IsMissing (e.cache ptr) key h, refl, (offset, at, read_by_key-Has page key vb));
          same_location = refl;
          valid = (still_like.valid, (offset, ap as_offset same_next ∙ at, like_base.valid));
          kept = (
            still_like,
            λ o m a.
                subst (λ x. ReadsLike (load_base_page e x) (read_by_key page key).1)
                  (same_offset at a) like_base,
          );
        },
      )

-- Where the records are found, before the value is copied.
read_at-Reads :
    (e : LeafEntry) (key : Key) (mini_page_binary_search cache_only : Bool)
    → IsEntry e cache_only
    → (r : ReadResult) × (e' : LeafEntry) × (LeafEntry.read_at e key mini_page_binary_search
          cache_only e.location
        ≡ some (r, e'))
      × Reads e key cache_only e.location r e'
unfolding LeafEntry.read_at
read_at-Reads e key mini_page_binary_search cache_only v = at_location e.location v
  where
    valid_page :
        (m : Bool) (ptr : ℕ) → IsEntryAt e m (PageLocation.mini ptr) → IsValid (e.cache ptr)
    valid_page true ptr w = w
    valid_page false ptr w = w.0

    at_location :
        (l : PageLocation)
        → IsEntryAt e cache_only l
        → (r : ReadResult) × (e' : LeafEntry) × (LeafEntry.read_at e key mini_page_binary_search
              cache_only l
            ≡ some (r, e'))
          × Reads e key cache_only l r e'
    at_location (PageLocation.base offset) w =
        let page = load_base_page e offset in
        (
          base (read_by_key page key).0,
          with_base e (read_by_key page key).1,
          refl,
          record {
            answer = read_by_key-Has page key w;
            same_location = refl;
            valid = (read_by_key-ReadsLike page key w).valid;
            kept = read_by_key-ReadsLike page key w;
          },
        )
    at_location (PageLocation.full ptr) w =
        let like = read_by_key-ReadsLike (e.cache ptr) key w in
        (
          full (read_by_key (e.cache ptr) key).0,
          with_cache_page e ptr (read_by_key (e.cache ptr) key).1,
          refl,
          record {
            answer = read_by_key-Has (e.cache ptr) key w;
            same_location = refl;
            valid = (still_like e ptr (read_by_key (e.cache ptr) key).1 like).valid;
            kept = still_like e ptr (read_by_key (e.cache ptr) key).1 like;
          },
        )
    at_location (PageLocation.mini ptr) w =
        let page = e.cache ptr in
        let u = valid_page cache_only ptr w in
        rw (read_by_key_inner-read_by_key page key mini_page_binary_search u) (
          mini-Reads e ptr (read_by_key page key).1 (read_by_key-ReadsLike page key u) key
            cache_only (read_by_key page key).0 w (read_by_key-Has page key u))
    at_location PageLocation.null w =
        (nothing, e, refl, record { answer = tt; same_location = refl; valid = tt; kept = tt })

copied_to-if :
    (out_buffer : ℕ) (r : ReadResult) (e : LeafEntry)
    → copied_to out_buffer (r, e) ≡ (if leb (result_len r) out_buffer then some (r, e) else none)
copied_to-if out_buffer r e = elim (Bool-cases (leb (result_len r) out_buffer)) [
  | inl fits ↦ rw fits refl
  | inr short ↦ rw short refl
]

-- A read of a leaf whose pages are valid, by a key that is not shorter than the prefix of a page that it
-- reads, answers by the records: in a base page or a full page by the record with the key, in a mini page
-- by its record, else by the record of the base page behind it, or with nothing in a cache-only tree. It
-- leaves valid pages that read the same for every key. It panics if the value of the answer is longer than
-- the buffer, and otherwise not.
pub read-Reads :
    (e : LeafEntry) (key : Key) (out_buffer : ℕ) (mini_page_binary_search cache_only : Bool)
    → IsEntry e cache_only
    → IsLongAt e key cache_only e.location
    → (r : ReadResult) × (e' : LeafEntry) × (read e key out_buffer mini_page_binary_search
          cache_only
        ≡ (if leb (result_len r) out_buffer then some (r, e') else none))
      × Reads e key cache_only e.location r e'
read-Reads e key out_buffer mini_page_binary_search cache_only v long =
    let (r, e', f, reads) = read_at-Reads e key mini_page_binary_search cache_only v in
    (r, e', rw f (copied_to-if out_buffer r e'), reads)
