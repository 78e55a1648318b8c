-- ===== src/Wal/Reader.antt =====
-- src/wal/mod.rs: `WalEntryIter`, the entries of a segment read from the file.
use bf_tree.Common.{
  ℕ, zero, suc, ◌+◌, ◌-◌, Option, none, some, List, [], ◌∷◌, ◌||◌, length, take, drop, ltb, leb,
  ◌==◌, if◌then◌else◌, ◌>>=◌,
}
use bf_tree.Common.Bytes.{from_le}
use bf_tree.Wal.Log.{LogHeader}

-- `LogHeader::from_slice`, of at least 24 bytes
unfoldable pub from_slice : List ℕ → LogHeader
from_slice buffer = record {
  log_len = from_le (take 8 buffer);
  lsn = from_le (take 8 (drop 8 buffer));
  page_offset = from_le (take 8 (drop 16 buffer));
}

-- A step of the iterator: the end, a slice out of range, or an entry and the next offset.
pub data Next : Type 0 where
  done : Next
  fault : Next
  item : LogHeader → List ℕ → ℕ → Next

unfoldable pub next : List ℕ → ℕ → Next
next bytes cur_offset =
    let header = from_slice (drop cur_offset bytes) in
    if leb (length bytes) (cur_offset + 24)
    then done
    else if header.log_len == 0
    then done
    else if ltb header.log_len 24 || ltb (length bytes) (cur_offset + header.log_len)
    then fault
    else item header (take (header.log_len - 24) (drop (cur_offset + 24) bytes))
        (cur_offset + header.log_len)

-- All entries from `cur_offset` on; `none` is a fault. An entry takes 24 bytes or more, so fuel
-- `length bytes` is enough.
unfoldable pub entries_from : ℕ → List ℕ → ℕ → Option (List (LogHeader × List ℕ))
entries_from zero bytes cur_offset = none
entries_from (suc fuel) bytes cur_offset = elim (next bytes cur_offset) [
  | done ↦ some []
  | fault ↦ none
  | item header body after ↦ entries_from fuel bytes after >>= λ rest. some ((header, body) ∷ rest)
]

-- `entry_iter`, collected
unfoldable pub entries : List ℕ → Option (List (LogHeader × List ℕ))
entries segment = entries_from (length segment + 1) segment 0
