-- ===== src/Wal/Progress.antt =====
-- What the writers of the log wait for.
use bf_tree.Common.{
  ℕ, zero, suc, ◌∙◌, ◌+◌, ◌/◌, length, ◌∷◌, some, ◌≤◌, ◌<◌, ◌≡◌, refl, Bool, true, false, List, [],
  arith,
}
use bf_tree.Common.Bytes.{Memory}
use bf_tree.Wal.Log.{
  Wal, new, flush, should_inplace_flush, Attempt, retry, appended, required_bytes, try_append,
  put_entry, is_durable, flush_round,
}
use bf_tree.Wal.RoundTrip.{append_list}

-- The first entry of a new log is durable for its writer before any flush: `flushed_lsn` begins at
-- 0, which is also the number of the first entry. So the writer returns and nothing is written.
pub first_entry_not_waited :
    (memory : Memory) (segment_size : ℕ) (body : List ℕ) (page_offset : ℕ)
    → required_bytes body ≤ segment_size
    → let w = put_entry (new memory segment_size) body page_offset in
      (try_append (new memory segment_size) body page_offset ≡ appended 0 w)
      × (is_durable w 0 ≡ true)
      × (w.writes ≡ [])
unfolding try_append put_entry is_durable
first_entry_not_waited memory segment_size body page_offset h = ground arith

-- Every later entry is not durable until a flush, and is then: the flush that follows an append
-- raises `flushed_lsn` to its number.
pub later_entry_waits :
    (w w' : Wal) (body : List ℕ) (page_offset lsn : ℕ)
    → w.flushed_lsn < w.next_lsn
    → w.next_lsn < 18446744073709551615
    → try_append w body page_offset ≡ appended lsn w'
    → (is_durable w' lsn ≡ false) × (is_durable (flush w') lsn ≡ true)
unfolding try_append put_entry is_durable flush
later_entry_waits w w' body page_offset lsn f b e = ground arith

-- `append_and_wait` of a writer that is alone, with the flush job answering each request, `n` times at
-- most.
pub attempts : ℕ → Wal → List ℕ → ℕ → Attempt
attempts zero w body page_offset = try_append w body page_offset
attempts (suc n) w body page_offset = elim (try_append w body page_offset) [
  | retry w' ↦ attempts n (flush_round w' false) body page_offset
  | appended lsn w' ↦ appended lsn w'
]

-- How many bytes entries take in the buffer.
abbrev pub taken : List (List ℕ × ℕ) → ℕ
taken [] = 0
taken ((body, page_offset) ∷ rest) = required_bytes body + taken rest

-- `v` is `w` with these entries appended.
pub record IsAppended (w v : Wal) (ops : List (List ℕ × ℕ)) : Type 0 where
  pub went : append_list w ops ≡ some v
  pub cursor : v.buffer_cursor ≡ w.buffer_cursor + taken ops
  pub size : v.buffer_size ≡ w.buffer_size
  pub number : v.next_lsn ≡ w.next_lsn + length ops

-- An entry that fits behind the cursor is appended there.
try_append-fits :
    (w : Wal) (body : List ℕ) (page_offset : ℕ)
    → w.buffer_cursor + required_bytes body ≤ w.buffer_size
    → (v : Wal) × (try_append w body page_offset ≡ appended w.next_lsn v)
      × (v.buffer_cursor ≡ w.buffer_cursor + required_bytes body)
      × (v.buffer_size ≡ w.buffer_size)
      × (v.next_lsn ≡ w.next_lsn + 1)
unfolding try_append put_entry
try_append-fits w body page_offset l =
    (put_entry w body page_offset, ground (arith, l), refl, refl, refl)

-- Entries that fit behind the cursor are all appended.
append_list-IsAppended :
    (ops : List (List ℕ × ℕ)) (w : Wal)
    → w.buffer_cursor + taken ops ≤ w.buffer_size
    → (v : Wal) × IsAppended w v ops
unfolding append_list
append_list-IsAppended [] w l =
    (w, record { went = refl; cursor = omega arith; size = refl; number = omega arith })
append_list-IsAppended ((body, page_offset) ∷ rest) w l =
    let (u, went, cursor, size, number) = try_append-fits w body page_offset (omega (arith, l)) in
    let (v, a) = append_list-IsAppended rest u (omega (arith, l, cursor, size)) in
    (
      v,
      record {
        went = rw (went, append_list) a.went;
        cursor = omega (arith, a.cursor, cursor);
        size = a.size ∙ size;
        number = omega (arith, a.number, number);
      },
    )

-- A writer whose entry does not fit behind the cursor, which is in the upper half of the buffer, asks for
-- a flush. Whatever other writers append between the flush and the writer's next attempt, if their
-- entries and its own fit together in an empty buffer, they are all appended and so is its own, behind them.
pub retry_succeeds :
    (w : Wal) (body : List ℕ) (page_offset : ℕ) (others : List (List ℕ × ℕ))
    → taken others + required_bytes body ≤ w.buffer_size
    → w.buffer_cursor ≤ w.buffer_size
    → w.buffer_size < w.buffer_cursor + required_bytes body
    → w.buffer_size / 2 ≤ w.buffer_cursor
    → let asking = record w { need_flush = true } in
      (try_append w body page_offset ≡ retry asking)
      × ((v : Wal) × IsAppended (flush_round asking false) v others
          × ((w' : Wal) × (try_append v body page_offset ≡ appended (w.next_lsn + length others) w')
              × (w'.buffer_cursor ≡ taken others + required_bytes body)))
unfolding try_append flush_round flush should_inplace_flush
retry_succeeds w body page_offset others f i full upper =
    let asking = record w { need_flush = true } in
    let start : (flush_round asking false).buffer_cursor ≡ 0 = ground arith in
    let same_size : (flush_round asking false).buffer_size ≡ w.buffer_size = ground arith in
    let same_lsn : (flush_round asking false).next_lsn ≡ w.next_lsn = ground arith in
    let (v, a) =
      append_list-IsAppended others (flush_round asking false)
        (omega (arith, start, same_size, f)) in
    let (w', went, cursor, _, _) =
      try_append-fits v body page_offset (omega (arith, f, a.cursor, a.size, start, same_size)) in
    let number : v.next_lsn ≡ w.next_lsn + length others = omega (arith, a.number, same_lsn) in
    (ground arith, (v, a, (w', rw (← number) went, omega (arith, cursor, a.cursor, start))))

-- What keeps a writer from ever appending: the cursor is in the lower half, so that a flush does not
-- move it, and the entry does not fit behind it.
pub record IsStuck (w : Wal) (body : List ℕ) : Type 0 where
  pub lower : w.buffer_cursor < w.buffer_size / 2
  pub some_bytes : 0 < w.buffer_cursor
  pub full : w.buffer_size < w.buffer_cursor + required_bytes body

flush_round-next_lsn : (w : Wal) (b : Bool) → (flush_round w b).next_lsn ≡ w.next_lsn
unfolding flush_round flush
flush_round-next_lsn w b = ground arith

IsStuck-retry :
    (w : Wal) (body : List ℕ) (page_offset : ℕ)
    → IsStuck w body
    → (try_append w body page_offset ≡ retry (record w { need_flush = true }))
      × IsStuck (flush_round (record w { need_flush = true }) false) body
unfolding try_append flush_round flush should_inplace_flush
IsStuck-retry w body page_offset s = ground arith

-- A writer that is stuck asks for flushes for ever, although its entry may fit in the buffer.
pub stuck_writer_retries :
    (n : ℕ) (w : Wal) (body : List ℕ) (page_offset : ℕ)
    → IsStuck w body
    → (w' : Wal) × (attempts n w body page_offset ≡ retry w') × (w'.next_lsn ≡ w.next_lsn)
unfolding attempts
stuck_writer_retries zero w body page_offset s =
    (record w { need_flush = true }, (IsStuck-retry w body page_offset s).0, refl)
stuck_writer_retries (suc n) w body page_offset s =
    let step = IsStuck-retry w body page_offset s in
    let (w', more, same) =
      stuck_writer_retries n (flush_round (record w { need_flush = true }) false) body page_offset
        step.1 in
    (
      w',
      rw (step.0, attempts) more,
      same ∙ flush_round-next_lsn (record w { need_flush = true }) false,
    )
