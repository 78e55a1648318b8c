-- ===== src/Nodes/Sizes.antt =====
-- src/nodes/mod.rs: the constants that the nodes share.
use Prim.Native.Nat.{ℕ}

-- `INNER_NODE_SIZE`
abbrev pub inner_node_size : ℕ
inner_node_size = 4096

-- `FENCE_KEY_CNT`
abbrev pub fence_key_cnt : ℕ
fence_key_cnt = 2
