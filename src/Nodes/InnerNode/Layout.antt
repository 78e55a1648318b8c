-- ===== src/Nodes/InnerNode/Layout.antt =====
-- The invariant of an inner node.
use bf_tree.Common.{ℕ, ◌+◌, ◌-◌, ◌*◌, ◌≤◌, ◌<◌, ◌≡◌, ◌⊎◌, length, Ordering}
use bf_tree.Common.Bytes.{Key, cmp}
use bf_tree.Nodes.PageId.{PageId}
use bf_tree.Nodes.InnerNode.{InnerKvMeta, InnerNode, max_data_size, count, get_full_key, get_value}

-- The key and the child of slot `i`.
abbrev pub key_at : InnerNode → ℕ → Key
key_at n i = get_full_key n (n.slots i)

abbrev pub child_at : InnerNode → ℕ → PageId
child_at n i = get_value n (n.slots i)

-- The end of the payload of a slot.
abbrev pub payload_end : InnerKvMeta → ℕ
payload_end m = m.offset + (m.key_len - 4) + 8

-- The payload of a slot lies from `low` on and inside the page.
pub record IsPlaced (low : ℕ) (m : InnerKvMeta) : Type 0 where
  pub prefix : length m.key_prefix ≡ 4
  pub above : low ≤ m.offset
  pub inside : payload_end m ≤ max_data_size

-- The slot array and the free space end where the payloads begin; payloads do not overlap; the
-- keys from slot 1 on rise strictly.
pub record IsValid (n : InnerNode) : Type 0 where
  pub word : n.meta.encoded < 65536
  pub dummy : 0 < count n
  pub room : count n * 8 + n.meta.remaining_size ≤ max_data_size
  pub placed : (i : ℕ) → i < count n → IsPlaced (count n * 8 + n.meta.remaining_size) (n.slots i)
  pub apart :
      (i j : ℕ)
      → i < j
      → j < count n
      → (payload_end (n.slots i) ≤ (n.slots j).offset)
        ⊎ (payload_end (n.slots j) ≤ (n.slots i).offset)
  pub sorted : (i j : ℕ) → 1 ≤ i → i < j → j < count n → cmp (key_at n i) (key_at n j) ≡ Ordering.lt
