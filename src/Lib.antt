-- ===== src/Lib.antt =====
-- A verification library of Bf-Tree, an ordered key-value index that keeps small pages of hot records
-- (mini pages) in memory in front of its leaves on disk. Paths below are from the repository's root.
--
-- The program's parts. A tree routes a key through inner nodes to a leaf or to the mini page in front
-- of it; a page is named by a page id, which is a number of the mapping table or a pointer to an inner
-- node. Every page begins with a packed word of count and flags. Writes go to a mini page and to the
-- write-ahead log, and are merged into the leaf later; a full leaf or inner node is split, and the
-- split key goes to the parent. The files here:
--
-- Common: byte strings with the order of Rust's slices, byte memory, little-endian words, bits of
--   machine words, the binary search loop and the shift of an array that both kinds of node share.
-- Nodes.PageId: src/nodes/page_id.rs, `PageID`.
-- Nodes.NodeMeta: src/nodes/node_meta.rs, `NodeMeta`, the packed word.
-- Nodes.InnerNode: src/nodes/inner_node.rs. `lower_bound`, `insert`, `have_space_for` and
--   `update_at_pos` stand in InnerNode.antt, `InnerNodeBuilder::build`, `reinitialize`, `consolidate`
--   and `split` in InnerNode/Build.antt.
-- Nodes.OpType, Nodes.LeafKvMeta: src/nodes/leaf_node.rs, `OpType` and `LeafKVMeta`.
-- Nodes.LeafNode: src/nodes/leaf_node.rs, `LeafNode`. Both searches, `insert` and `read_by_key` stand in
--   LeafNode.antt; `initialize`, the functions `consolidate…` and `copy_initialize_to` in Rebuild.antt;
--   `merge_mini_page`, the changes of kinds and the snapshot version in Merge.antt; `split` and
--   `split_with_key` in Split.antt. Layout.antt has the invariant of a leaf.
-- Wal: src/wal/operations.rs in Operations.antt; src/wal/mod.rs in Log.antt (the buffer and its
--   flushes) and Reader.antt (`WalEntryIter`).
-- CircularBuffer: src/circular_buffer, the memory of the mini pages. MetaState.antt has the state word of a
--   piece of memory, Protocol.antt the threads that change it as a step relation, Buffer.antt `alloc`,
--   `dealloc_inner` and the addresses, Eviction.antt the parts of `evict_one`, the head and the iterator
--   of mod.rs; FreeList.antt is freelist.rs. Buffer/Run.antt has the steps of the whole buffer.
-- Utils.RwLock: src/utils/rw_lock.rs, the lock word as a step relation over its atomic operations.
-- Utils.MappingTable: src/utils/mapping_table.rs, the table of page ids.
-- Storage: src/storage.rs, `PageLocation`. LeafEntry: src/mini_page_op.rs, `LeafOperations`, the reads
--   of a leaf over its mini page and its base page. Nodes.LeafNode.Scan: `get_record_by_pos_with_bound`, and
--   `ScanIter::next` of src/range_scan.rs inside a leaf.
-- Snapshot: src/snapshot.rs, the phases of `CPRSnapShotMgr`, `reserve_thread_slot`, `release_thread_slot` and
--   `check_if_phase_completed` as a step relation over their atomic operations.
-- Tree.SizeClasses: src/tree.rs, `create_mem_page_size_classes`. Tree.Records: the tests of `BfTree::insert`,
--   `read` and `delete` on lengths, and the size of a new mini page for an accepted record.
-- Config: src/config.rs, `Config::validate`.
--
-- How code becomes definitions. A node is a record of its header, an array of slots (a function of the
-- index) and a byte memory (a function of the address) for the payloads; the code keeps both arrays in
-- one block, and the invariants state where they end. A method that changes a node returns the new one.
-- Words of 16 bits keep their wrap-around, `u16`, and casts to 32 bits are `as_u32`. A failed `assert!` or a
-- panic is `none`; debug assertions and the overflow checks of a debug build are left out of the nodes, and a
-- key shorter than the prefix of a leaf, which the code cannot slice, is excluded by the theorems. Guards and
-- early returns are the tests of the definitions, in the order of the code.
--
-- Loops and fuel. `search_loop` gets the count as fuel, as each round takes at least one from the
-- window; `linear_loop`, `metas_from` and `cache_from` the count, as each round moves the index by one;
-- `entries_from` one more than the length of the segment, as an entry takes 24 bytes or more; a segment
-- that is read with too little of it would be a fault. `alloc` has no fuel: its call of
-- itself, for which it releases the mutex, is a step of its own. `bump_head` gets the evicting address and
-- `iter_from` the distance to the tail, as a piece takes 8 bytes or more; `take_free` goes down the list.
-- `size_classes_from` gets one more than the greatest size, and `next_in_leaf` the count.
--
-- Bounds. A page has at most 32 KiB, a key in a leaf is shorter than 2 ^ 14 bytes and a value shorter
-- than 2 ^ 15, as the words of a slot have it; a key in an inner node is shorter than 65520 bytes.
--
-- Not modelled: the lock words inside nodes and what a waiting thread does, allocation and raw copies of
-- nodes, file input and output, timers, statistics and metrics; the tree's own operations,
-- the file of a snapshot and recovery from it, and the way of a
-- scan from leaf to leaf. A thread that waits for the log is modelled as
-- its attempt under the lock, the rounds of the flush job and the appends of others between the attempts.
pub mod Common
pub mod Nodes
pub mod Wal
pub mod Utils
pub mod CircularBuffer
pub mod Tree
pub mod Config
pub mod Storage
pub mod LeafEntry
pub mod Snapshot
