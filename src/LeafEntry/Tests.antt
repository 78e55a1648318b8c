-- ===== src/LeafEntry/Tests.antt =====
-- A mini page of one record in front of an empty base page.
use bf_tree.Common.{ℕ, ◌-◌, ◌≡◌, refl, true, false, none, some, leb, if◌then◌else◌, [], ◌∷◌, arith}
use bf_tree.Common.Bytes.{Key, cmp}
use bf_tree.Common.Search
use bf_tree.Nodes.OpType.{OpType}
use bf_tree.Nodes.NodeMeta
use bf_tree.Nodes.LeafNode
use bf_tree.Nodes.LeafNode.{LeafNode, hit, insert, insert_new}
use bf_tree.Nodes.LeafNode.Layout.{IsValid}
use bf_tree.Nodes.LeafNode.ReadFresh.{put_result}
use bf_tree.Storage.{PageLocation}
use bf_tree.LeafEntry.{LeafEntry, ReadResult, mini, read, result_len, with_cache_page}
use bf_tree.LeafEntry.Answers.{IsEntry, Reads}
use bf_tree.LeafEntry.Read.{read-Reads}
use bf_tree.LeafEntry.Written.{read-insert}

abbrev empty_page : ℕ → ℕ → LeafNode
empty_page size next_level = record {
  meta = record { encoded = 0; node_size = size; remaining_size = size - 32 };
  prefix_len = 0;
  next_level = next_level;
  lsn = 0;
  snapshot_version = 0;
  slots = λ i. record { offset = 7; op_type_key_len = 3; ref_value_len = 1; preview_bytes = [] };
  bytes = λ a. 77;
}

abbrev mini_page : LeafNode
mini_page = empty_page 128 4096

abbrev base_page : LeafNode
base_page = empty_page 4096 18446744073709551615

mini_page-IsValid : IsValid mini_page
unfolding NodeMeta.meta_count_with_fence NodeMeta.has_fence
mini_page-IsValid = record {
  word = omega arith;
  size = omega arith;
  fences = omega arith;
  room = omega arith;
  records = λ i a b. absurd (omega arith);
  apart = λ i j a b c. absurd (omega arith);
  sorted = λ i j a b c. absurd (omega arith);
}

base_page-IsValid : IsValid base_page
unfolding NodeMeta.meta_count_with_fence NodeMeta.has_fence
base_page-IsValid = record {
  word = omega arith;
  size = omega arith;
  fences = omega arith;
  room = omega arith;
  records = λ i a b. absurd (omega arith);
  apart = λ i j a b c. absurd (omega arith);
  sorted = λ i j a b c. absurd (omega arith);
}

abbrev entry : LeafEntry
entry = record {
  location = PageLocation.mini 8;
  cache = λ p. mini_page;
  disk = λ o. base_page;
  tmp_buffer = none;
}

entry-IsEntry : IsEntry entry false
unfolding LeafNode.as_offset
entry-IsEntry = (mini_page-IsValid, (4096, refl, base_page-IsValid))

abbrev key : Key
key = 5 ∷ 6 ∷ 7 ∷ []

read-Reads_example :
    (r : ReadResult) × (e' : LeafEntry) × (read entry key 2 true false
      ≡ (if leb (result_len r) 2 then some (r, e') else none))
    × Reads entry key false (PageLocation.mini 8) r e'
read-Reads_example =
    read-Reads entry key 2 true false entry-IsEntry (omega arith, λ o a. omega arith)

abbrev written : LeafNode
written = insert_new mini_page key (1 ∷ 2 ∷ []) OpType.insert 0

read-insert_example :
    (e' : LeafEntry) × (read (with_cache_page entry 8 written) key 2 false false
      ≡ some (mini (put_result OpType.insert (1 ∷ 2 ∷ [])), e'))
unfolding insert LeafNode.lower_bound Search.search_loop LeafNode.full_with_fences
    LeafNode.get_remaining_key cmp NodeMeta.meta_count_with_fence NodeMeta.has_fence
    LeafNode.is_base_page NodeMeta.is_cache_only_leaf
read-insert_example =
    read-insert entry key (1 ∷ 2 ∷ []) OpType.insert 8 written 2 false false refl mini_page-IsValid
      refl (record { prefixed = omega arith; key_small = omega arith; value_small = omega arith })
      (omega arith) refl
