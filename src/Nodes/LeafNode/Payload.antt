-- ===== src/Nodes/LeafNode/Payload.antt =====
-- The payload that `insert` writes below the others.
use bf_tree.Common.{
  ℕ, ◌+◌, ◌-◌, ◌≤◌, ◌<◌, ◌≡◌, ◌∙◌, inr, sym, arith, List, length, drop, length-drop,
}
use bf_tree.Common.Bytes.{Key, read, write, write_apart, read-write_append}
use bf_tree.Nodes.LeafNode.{
  LeafNode, post_fix_len, kv_len, new_offset, put_pair, current_lowest_offset,
}
use bf_tree.Nodes.LeafNode.Layout.{low, IsValid}
use bf_tree.Nodes.LeafNode.Lookup.{rest_of}

-- A key not shorter than the prefix, and sizes that a slot can hold.
pub record HasSizes (n : LeafNode) (key : Key) (value : List ℕ) : Type 0 where
  pub prefixed : n.prefix_len ≤ length key
  pub key_small : length key < 16384
  pub value_small : length value < 32768

module _ (n : LeafNode) (key : Key) (value : List ℕ) (s : HasSizes n key value) where
  pub post_size : post_fix_len n key ≡ length key - n.prefix_len
  post_size = omega (arith, s.prefixed, s.key_small)

  pub kv_size : kv_len n key value ≡ length key - n.prefix_len + length value
  kv_size = omega (arith, s.prefixed, s.key_small, s.value_small)

  -- Its two parts are read back, and what is behind it stays.
  pub put_pair_parts :
      (offset : ℕ)
      → (read (put_pair n key value offset) offset (length key - n.prefix_len) ≡ rest_of n key)
        × (read (put_pair n key value offset) (offset + (length key - n.prefix_len)) (length value)
            ≡ value)
  put_pair_parts offset =
      let l = length-drop n.prefix_len key in
      let both = read-write_append n.bytes offset (drop n.prefix_len key) value in
      rw post_size (rw l at both)

  pub put_pair_behind :
      (offset a : ℕ)
      → offset + (length key - n.prefix_len) + length value ≤ a
      → n.bytes a ≡ put_pair n key value offset a
  put_pair_behind offset a h =
      let l = length-drop n.prefix_len key in
      let e =
        write_apart (write n.bytes offset (drop n.prefix_len key)) (offset + post_fix_len n key)
          value a (inr (omega (arith, post_size, h)))
        ∙ write_apart n.bytes offset (drop n.prefix_len key) a (inr (omega (arith, l, h))) in
      sym e

  -- It ends where the payloads began.
  pub new_offset_lem :
      IsValid n
      → kv_len n key value ≤ n.meta.remaining_size
      → new_offset n key value + (length key - n.prefix_len) + length value ≡ low n
  unfolding current_lowest_offset
  new_offset_lem v h = omega (arith, kv_size, h, v.room, v.size)
