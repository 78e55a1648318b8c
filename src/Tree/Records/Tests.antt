-- ===== src/Tree/Records/Tests.antt =====
-- Records at the bounds of two configurations.
use bf_tree.Common.{ℕ, ◌≡◌, refl, List, [], ◌∷◌, none, false}
use bf_tree.Nodes.LeafNode.Merge
use bf_tree.Nodes.LeafNode.Merge.{get_chain_size_hint}
use bf_tree.Tree.SizeClasses
use bf_tree.Tree.SizeClasses.{Sizes}

-- The greatest mini page has 1984 bytes: 1944 for a record, 8 for its slot, 32 for the header.
abbrev tight : Sizes
tight = record {
  min_record_size = 48;
  max_record_size = 1944;
  leaf_page_size = 4096;
  max_fence_len = 128;
  cache_only = false;
}

abbrev tight_classes : List ℕ
tight_classes = 128 ∷ 192 ∷ 256 ∷ 512 ∷ 960 ∷ 1856 ∷ 1984 ∷ 4096 ∷ []

-- Choosing a mini page for it panics.
tight-panics : get_chain_size_hint 64 1880 tight_classes false ≡ none
unfolding get_chain_size_hint Merge.pick_class Merge.first_above
tight-panics = refl
