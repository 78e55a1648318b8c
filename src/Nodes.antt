-- ===== src/Nodes.antt =====
-- src/nodes: the pages of the tree.
pub mod Sizes
pub mod PageId
pub mod OpType
pub mod NodeMeta
pub mod LeafKvMeta
pub mod InnerNode
pub mod LeafNode
