-- ===== src/Wal.antt =====
-- src/wal: the write-ahead log. `Operations` is the encoding of an operation, `Log` the buffer that
-- writers append to and the flush job writes out, `Reader` the iteration over a written segment.
pub mod Operations
pub mod Log
pub mod Reader
pub mod Encoding
pub mod RoundTrip
pub mod Progress
mod Tests
