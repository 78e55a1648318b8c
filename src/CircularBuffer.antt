-- ===== src/CircularBuffer.antt =====
-- src/circular_buffer: the memory of the mini pages. `MetaState` is the state word of a piece of memory,
-- `Protocol` the threads that change it, `FreeList` the freed memory by size, `Buffer` the operations on
-- the whole.
pub mod MetaState
pub mod Protocol
pub mod FreeList
pub mod Buffer
pub mod Eviction
mod Tests
