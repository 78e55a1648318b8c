-- ===== src/Nodes/LeafNode/Layout.antt =====
-- The invariant of a leaf, of its records: the slots behind the fences.
use bf_tree.Common.{ℕ, ◌+◌, ◌-◌, ◌*◌, ◌≤◌, ◌<◌, ◌≡◌, ◌⊎◌, Ordering, min, take}
use bf_tree.Common.Bytes.{Key, cmp}
use bf_tree.Nodes.LeafKvMeta.{LeafKvMeta, get_key_len, value_len}
use bf_tree.Nodes.LeafNode.{
  LeafNode, count, first_meta_pos_after_fence, max_data_size, get_remaining_key,
}

-- The key of slot `i` behind the prefix.
abbrev pub rest_at : LeafNode → ℕ → Key
rest_at n i = get_remaining_key n (n.slots i)

-- The length of the key that is stored, and the end of the payload.
abbrev pub rest_len : LeafNode → LeafKvMeta → ℕ
rest_len n m = get_key_len m - n.prefix_len

abbrev pub payload_end : LeafNode → LeafKvMeta → ℕ
payload_end n m = m.offset + rest_len n m + value_len m

-- Where the payloads begin.
abbrev pub low : LeafNode → ℕ
low n = count n * 8 + n.meta.remaining_size

abbrev pub first : LeafNode → ℕ
first n = first_meta_pos_after_fence n

-- A record: its payload lies between the free space and the end of the page, its key is not shorter
-- than the prefix, and the two bytes in the slot are the first of the key behind the prefix.
pub record IsRecord (n : LeafNode) (m : LeafKvMeta) : Type 0 where
  pub prefixed : n.prefix_len ≤ get_key_len m
  pub above : low n ≤ m.offset
  pub inside : payload_end n m ≤ max_data_size n.meta.node_size
  pub preview : take (min 2 (rest_len n m)) m.preview_bytes ≡ take 2 (get_remaining_key n m)

-- Pages have 32 KiB at most. Payloads do not overlap; the keys rise strictly.
pub record IsValid (n : LeafNode) : Type 0 where
  pub word : n.meta.encoded < 65536
  pub size : n.meta.node_size ≤ 32768
  pub fences : first n ≤ count n
  pub room : low n ≤ max_data_size n.meta.node_size
  pub records : (i : ℕ) → first n ≤ i → i < count n → IsRecord n (n.slots i)
  pub apart :
      (i j : ℕ)
      → first n ≤ i
      → i < j
      → j < count n
      → (payload_end n (n.slots i) ≤ (n.slots j).offset)
        ⊎ (payload_end n (n.slots j) ≤ (n.slots i).offset)
  pub sorted :
      (i j : ℕ) → first n ≤ i → i < j → j < count n → cmp (rest_at n i) (rest_at n j) ≡ Ordering.lt
