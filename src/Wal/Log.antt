-- ===== src/Wal/Log.antt =====
-- src/wal/mod.rs: the buffer of the log and its flushes. The device is a parameter of the program:
-- a call of `VfsImpl::write` is recorded in `writes`, the latest first. A thread that waits lets
-- others run: `append_and_wait` is modelled as its attempt under the lock, `try_append`, and the
-- test of its waiting loop, `is_durable`.
use bf_tree.Common.{
  ℕ, ◌+◌, ◌-◌, ◌/◌, ◌^◌, ◌%◌, Bool, true, false, List, [], ◌∷◌, ◌++◌, length, ltb, leb, ◌==◌,
  if◌then◌else◌,
}
use bf_tree.Common.Bytes.{Memory, read, write, le_bytes}

-- `WriteAheadLogInner`
pub record Wal : Type 0 where
  pub buffer : Memory
  pub buffer_size : ℕ
  pub buffer_cursor : ℕ
  pub file_offset : ℕ
  pub next_lsn : ℕ
  pub flushed_lsn : ℕ
  pub need_flush : Bool
  pub writes : List (ℕ × List ℕ)

-- `WriteAheadLog::new`; the memory is not cleared.
abbrev pub new : Memory → ℕ → Wal
new memory segment_size = record {
  buffer = memory;
  buffer_size = segment_size;
  buffer_cursor = 0;
  file_offset = 0;
  next_lsn = 0;
  flushed_lsn = 0;
  need_flush = false;
  writes = [];
}

-- `LogHeader`
pub record LogHeader : Type 0 where
  pub log_len : ℕ
  pub lsn : ℕ
  pub page_offset : ℕ

-- `LogHeader::as_slice`: three words in memory, 24 bytes
unfoldable pub header_bytes : LogHeader → List ℕ
header_bytes h = le_bytes 8 h.log_len ++ (le_bytes 8 h.lsn ++ le_bytes 8 h.page_offset)

unfoldable pub clear_next_header : Wal → Wal
clear_next_header w =
    if leb (w.buffer_cursor + 8) w.buffer_size
    then record w { buffer = write w.buffer w.buffer_cursor (0 ∷ 0 ∷ 0 ∷ 0 ∷ 0 ∷ 0 ∷ 0 ∷ 0 ∷ []) }
    else w

unfoldable pub should_inplace_flush : Wal → Bool
should_inplace_flush w = ltb w.buffer_cursor (w.buffer_size / 2)

-- The bytes that a flush hands to the device.
abbrev pub segment : Wal → List ℕ
segment w = read (clear_next_header w).buffer 0 w.buffer_size

-- `flush`; the subtraction is on `u64`.
unfoldable pub flush : Wal → Wal
flush w =
    let in_place = should_inplace_flush w in
    if w.buffer_cursor == 0 then w else record w {
      buffer = (clear_next_header w).buffer;
      writes = (w.file_offset, segment w) ∷ w.writes;
      file_offset = if in_place then w.file_offset else w.file_offset + w.buffer_size;
      buffer_cursor = if in_place then w.buffer_cursor else 0;
      flushed_lsn = (w.next_lsn + 2 ^ 64 - 1) % 2 ^ 64;
      need_flush = false;
    }

-- How an attempt of `append_and_wait` ends: it has asked for a flush and tries again, or its entry
-- is in the buffer.
pub data Attempt : Type 0 where
  retry : Wal → Attempt
  appended : ℕ → Wal → Attempt

abbrev pub required_bytes : List ℕ → ℕ
required_bytes body = 24 + length body

-- The entry in the buffer behind its header. `body` is what the entry writes to its buffer.
unfoldable pub put_entry : Wal → List ℕ → ℕ → Wal
put_entry w body page_offset =
    let cursor = w.buffer_cursor in
    let header : LogHeader = record {
      log_len = required_bytes body;
      lsn = w.next_lsn;
      page_offset = page_offset;
    } in
    record w {
      next_lsn = w.next_lsn + 1;
      buffer_cursor = cursor + required_bytes body;
      buffer = write (write w.buffer cursor (header_bytes header)) (cursor + 24) body;
    }

unfoldable pub try_append : Wal → List ℕ → ℕ → Attempt
try_append w body page_offset =
    if ltb (w.buffer_size - w.buffer_cursor) (required_bytes body)
    then retry (record w { need_flush = true })
    else appended w.next_lsn (put_entry w body page_offset)

-- The writer of `lsn` waits no longer: the negation of `flushed_lsn < lsn`.
unfoldable pub is_durable : Wal → ℕ → Bool
is_durable w lsn = leb lsn w.flushed_lsn

-- One round of `background_flush_job`: `elapsed` says that the interval is over.
unfoldable pub flush_round : Wal → Bool → Wal
flush_round w elapsed = if w.need_flush then flush w else if elapsed then flush w else w
