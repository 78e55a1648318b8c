-- ===== src/Wal/Tests.antt =====
-- Runs of the log on small inputs, and the theorems at concrete logs.
use bf_tree.Common.{ℕ, ◌≡◌, refl, true, false, some, List, [], ◌∷◌, arith}
use bf_tree.Common.Bytes.{Memory, le_bytes}
use bf_tree.Nodes.OpType.{OpType, to_byte}
use bf_tree.Wal.Operations
use bf_tree.Wal.Operations.{
  WriteOp, log_size, write_to_buffer, read_from_buffer, op_bytes, read_op,
  read_from_buffer-write_to_buffer,
}
use bf_tree.Wal.Log.{
  Wal, new, flush, retry, appended, try_append, put_entry, is_durable, segment, flush_round,
}
use bf_tree.Wal.Reader.{entries}
use bf_tree.Wal.RoundTrip.{append_list, logged, new-append_list-entries}
use bf_tree.Wal.Progress.{
  attempts, IsAppended, retry_succeeds, stuck_writer_retries, later_entry_waits,
  first_entry_not_waited,
}

abbrev op : WriteOp
op = record { key = 7 ∷ 8 ∷ []; value = 9 ∷ []; op_type = OpType.insert }

abbrev op_buffer : List ℕ
op_buffer = 0 ∷ 2 ∷ 0 ∷ 1 ∷ 0 ∷ 0 ∷ 7 ∷ 8 ∷ 9 ∷ []

read_from_buffer-write_to_buffer_example :
    (log_size (Operations.write op) ≡ some 9)
    × (read_from_buffer op_buffer ≡ some (Operations.write op))
unfolding write_to_buffer op_bytes le_bytes to_byte
read_from_buffer-write_to_buffer_example =
    read_from_buffer-write_to_buffer op op_buffer (omega arith) (omega arith) refl

abbrev dirty : Memory
dirty = λ a. 77

abbrev two_ops : List (List ℕ × ℕ)
two_ops = ((1 ∷ 2 ∷ []), 0) ∷ ((3 ∷ []), 4096) ∷ []

abbrev two : Wal
two = put_entry (put_entry (new dirty 512) (1 ∷ 2 ∷ []) 0) (3 ∷ []) 4096

new-append_list-entries_example : entries (segment two) ≡ some (logged 0 two_ops)
unfolding append_list try_append put_entry
new-append_list-entries_example =
    new-append_list-entries dirty 512 two_ops two (omega arith) (omega arith) (omega arith) refl

first_entry_not_waited_example :
    let w = put_entry (new dirty 512) (1 ∷ []) 0 in
    (try_append (new dirty 512) (1 ∷ []) 0 ≡ appended 0 w)
    × (is_durable w 0 ≡ true)
    × (w.writes ≡ [])
first_entry_not_waited_example = first_entry_not_waited dirty 512 (1 ∷ []) 0 (omega arith)

-- A log after its first flush.
abbrev flushed : Wal
flushed = record (new dirty 512) { next_lsn = 1; buffer_cursor = 25 }

later_entry_waits_example :
    (is_durable (put_entry flushed (3 ∷ []) 0) 1 ≡ false)
    × (is_durable (flush (put_entry flushed (3 ∷ []) 0)) 1 ≡ true)
unfolding try_append
later_entry_waits_example =
    later_entry_waits flushed (put_entry flushed (3 ∷ []) 0) (3 ∷ []) 0 1 (omega arith)
      (omega arith) refl

-- A buffer of 60 bytes with 40 of them, and with 25 of them, in use.
abbrev upper_half : Wal
upper_half = record (new dirty 60) { next_lsn = 2; buffer_cursor = 40 }

abbrev lower_half : Wal
lower_half = record (new dirty 60) { next_lsn = 2; buffer_cursor = 25 }

abbrev twelve : List ℕ
twelve = 1 ∷ 2 ∷ 3 ∷ 4 ∷ 5 ∷ 6 ∷ 7 ∷ 8 ∷ 9 ∷ 10 ∷ 11 ∷ 12 ∷ []

-- Two bytes of another writer come first.
abbrev two_bytes : List (List ℕ × ℕ)
two_bytes = ((1 ∷ 2 ∷ [], 7) ∷ [])

abbrev short : List ℕ
short = 9 ∷ []

abbrev nearly_full : Wal
nearly_full = record upper_half { buffer_cursor = 50 }

retry_succeeds_example :
    (try_append nearly_full short 0 ≡ retry (record nearly_full { need_flush = true }))
    × ((v : Wal) × IsAppended
          (flush_round (record nearly_full { need_flush = true }) false)
          v
          two_bytes
        × ((w' : Wal) × (try_append v short 0 ≡ appended 3 w') × (w'.buffer_cursor ≡ 51)))
retry_succeeds_example =
    retry_succeeds nearly_full short 0 two_bytes (omega arith) (omega arith) (omega arith)
      (omega arith)

stuck_writer_retries_example :
    (w' : Wal) × (attempts 5 lower_half twelve 0 ≡ retry w') × (w'.next_lsn ≡ 2)
stuck_writer_retries_example = stuck_writer_retries 5 lower_half twelve 0 (omega arith)
