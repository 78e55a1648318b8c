-- ===== src/LeafEntry/Written.antt =====
-- What a read returns after a record was put into the mini page.
use bf_tree.Common.{
  ℕ, ◌≤◌, ◌≡◌, ◌≢◌, ◌∙◌, leb, length, arith, refl, sym, ap, subst, inl, inr, Bool, true, false,
  List, Option, some, Bool-cases, ◌>>=◌, and_false,
}
use bf_tree.Common.Bytes.{Key}
use bf_tree.Common.Shift.{put_at_self}
use bf_tree.Nodes.OpType.{OpType, is_absent}
use bf_tree.Nodes.LeafNode.Payload.{HasSizes}
use bf_tree.Nodes.LeafNode.ReadFresh.{put_result}
use bf_tree.Nodes.LeafNode.Insert.{insert-Ends, outcome}
use bf_tree.Nodes.LeafNode.{
  LeafNode, is_delete, is_base_page, insert, LeafReadResult, hit, deleted, not_found, read_by_key,
}
use bf_tree.Nodes.LeafNode.Layout.{IsValid}
use bf_tree.Nodes.LeafNode.Mark.{read_by_key_inner-read_by_key}
use bf_tree.Storage.{PageLocation}
use bf_tree.LeafEntry
use bf_tree.LeafEntry.{
  LeafEntry, ReadResult, mini, full, base, nothing, load_base_page, with_base, with_cache_page,
  read_base, after_mini, read, copied_to, result_len,
}

after_mini_found :
    (e : LeafEntry) (key : Key) (cache_only : Bool) (next_level : ℕ) (out : LeafReadResult)
    → out ≢ not_found
    → after_mini e key cache_only next_level out ≡ some (mini out, e)
unfolding after_mini
after_mini_found e key cache_only next_level (hit value) d = refl
after_mini_found e key cache_only next_level deleted d = refl
after_mini_found e key cache_only next_level not_found d = absurd (d refl)

found_in_mini :
    (e : LeafEntry) (key : Key) (ptr : ℕ) (out : LeafReadResult)
    (mini_page_binary_search cache_only : Bool)
    → IsValid (e.cache ptr)
    → (read_by_key (e.cache ptr) key).0 ≡ out
    → out ≢ not_found
    → (e' : LeafEntry) × (LeafEntry.read_at e key mini_page_binary_search cache_only
          (PageLocation.mini ptr)
        ≡ some (mini out, e'))
unfolding LeafEntry.read_at
found_in_mini e key ptr out mini_page_binary_search cache_only v f d =
    let page = e.cache ptr in
    (
      with_cache_page e ptr (read_by_key page key).1,
      rw (read_by_key_inner-read_by_key page key mini_page_binary_search v, f)
          (after_mini_found (with_cache_page e ptr (read_by_key page key).1) key cache_only
            page.next_level out d),
    )

put_result-not_found : (op : OpType) (value : List ℕ) → put_result op value ≢ not_found
put_result-not_found op value h = elim (Bool-cases (is_absent op)) [
  | inl gone ↦ cc (rw gone at h)
  | inr there ↦ cc (rw there at h)
]

copied_whole :
    {o : Option (ReadResult × LeafEntry)} {r : ReadResult} {e : LeafEntry} (out_buffer : ℕ)
    → o ≡ some (r, e)
    → leb (result_len r) out_buffer ≡ true
    → (o >>= copied_to out_buffer) ≡ some (r, e)
copied_whole out_buffer f t = rw (f, t) refl

-- What was put fits into a buffer that has room for the value.
put_result-fits :
    (op : OpType) (value : List ℕ) (out_buffer : ℕ)
    → length value ≤ out_buffer
    → leb (result_len (mini (put_result op value))) out_buffer ≡ true
put_result-fits op value out_buffer l = elim (Bool-cases (is_absent op)) [
  | inl gone ↦ rw gone (ground arith)
  | inr there ↦ rw there (ground (arith, l))
]

-- A record that `insert` has put into the mini page is what the next read of its key, into a buffer not
-- shorter than the value, returns, whatever the base page has.
pub read-insert :
    (e : LeafEntry) (key : Key) (value : List ℕ) (op : OpType) (ptr : ℕ) (n : LeafNode)
    (out_buffer : ℕ) (mini_page_binary_search cache_only : Bool)
    → e.location ≡ PageLocation.mini ptr
    → IsValid (e.cache ptr)
    → is_base_page (e.cache ptr) ≡ false
    → HasSizes (e.cache ptr) key value
    → length value ≤ out_buffer
    → insert (e.cache ptr) key value op 0 ≡ some (true, n)
    → (e' : LeafEntry) × (read
          (with_cache_page e ptr n)
          key
          out_buffer
          mini_page_binary_search
          cache_only
        ≡ some (mini (put_result op value), e'))
read-insert e key value op ptr n out_buffer mini_page_binary_search cache_only l v m s b i =
    let p = insert-Ends (e.cache ptr) key value op 0 v s (true, n) i in
    let there = put_at_self e.cache ptr n in
    let o : outcome (e.cache ptr) key value op ≡ put_result op value =
      rw (m, and_false (is_delete op)) refl in
    let (e', f) =
      found_in_mini (with_cache_page e ptr n) key ptr (put_result op value) mini_page_binary_search
        cache_only (subst IsValid (sym there) p.valid)
        (ap (λ x. (read_by_key x key).0) there ∙ p.read_key ∙ o) (put_result-not_found op value) in
    (
      e',
      copied_whole out_buffer
          (subst
            (λ x.
              LeafEntry.read_at (with_cache_page e ptr n) key mini_page_binary_search cache_only x
              ≡ some (mini (put_result op value), e'))
            (sym l) f)
          (put_result-fits op value out_buffer b),
    )
