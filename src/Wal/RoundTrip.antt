-- ===== src/Wal/RoundTrip.antt =====
-- What is appended and flushed is what the reader finds.
use mathlib.Core.List.{append_assoc, append-nil}
use native.Mathlib.Nat.{zero-add}
use bf_tree.Common.{
  ℕ, ◌+◌, ◌-◌, ◌≤◌, ◌<◌, ◌^◌, ◌≡◌, ◌⊎◌, inl, inr, refl, ap, sym, subst, some-injective,
  none-ne-some, ◌∙◌, true, false, Option, none, some, List, [], ◌∷◌, ◌++◌, length, ltb, leb, ◌==◌,
  arith, Bool-cases, dec_le,
}
use bf_tree.Common.Bytes.{
  Memory, read, write, le_bytes, from_le, read-write_append, read-write_apart, read-write_self,
  read-append, length-read,
}
use bf_tree.Wal.Log.{
  Wal, LogHeader, header_bytes, clear_next_header, segment, flush, Attempt, retry, appended,
  required_bytes, try_append, put_entry, new,
}
use bf_tree.Wal.Reader.{entries}
use bf_tree.Wal.Encoding.{
  Entry, IsEntry, AreEntries, encode, encode_all, encode_all-append, Stops, entries-encode,
}

-- The log holds the entries `es`, and the cursor is behind the last.
pub record Holds (w : Wal) (es : List Entry) : Type 0 where
  pub inside : w.buffer_cursor ≤ w.buffer_size
  pub size_word : w.buffer_size < 2 ^ 64
  pub are : AreEntries es
  pub begin : (rest : List ℕ) → read w.buffer 0 w.buffer_cursor ++ rest ≡ encode_all es rest

-- The header that an append writes.
abbrev pub header_of : Wal → List ℕ → ℕ → LogHeader
header_of w body page_offset = record {
  log_len = required_bytes body;
  lsn = w.next_lsn;
  page_offset = page_offset;
}

length-header_bytes : (h : LogHeader) → length (header_bytes h) ≡ 24
unfolding header_bytes le_bytes
length-header_bytes h = refl

header_bytes-encode :
    (h : LogHeader) (body rest : List ℕ) → header_bytes h ++ (body ++ rest) ≡ encode (h, body) rest
unfolding header_bytes le_bytes
header_bytes-encode h body rest = refl

AreEntries-append :
    (es : List Entry) (e : Entry) → AreEntries es → IsEntry e → AreEntries (es ++ (e ∷ []))
AreEntries-append [] e v w = (w, tt)
AreEntries-append (d ∷ es) e v w = (v.0, AreEntries-append es e v.1 w)

abbrev wal_of : Wal → Attempt → Wal
wal_of w (retry v) = w
wal_of w (appended lsn v) = v

abbrev lsn_of : Attempt → ℕ
lsn_of (retry v) = 0
lsn_of (appended lsn v) = lsn

put_entry-Holds :
    (w : Wal) (es : List Entry) (body : List ℕ) (page_offset : ℕ)
    → Holds w es
    → 0 < length body
    → w.next_lsn < 2 ^ 64
    → page_offset < 2 ^ 64
    → required_bytes body ≤ w.buffer_size - w.buffer_cursor
    → Holds (put_entry w body page_offset) (es ++ ((header_of w body page_offset, body) ∷ []))
unfolding put_entry
put_entry-Holds w es body page_offset h b l p fits = record {
  inside = omega (arith, h.inside);
  size_word = h.size_word;
  are = AreEntries-append es _ h.are (record {
    len = refl;
    body = b;
    len_word = omega (arith, h.size_word);
    lsn_word = l;
    page_word = p;
  });
  begin = λ rest. rw (encode_all-append es _ rest) (
      let c = w.buffer_cursor in
      let hd = header_bytes (header_of w body page_offset) in
      let mem = write (write w.buffer c hd) (c + 24) body in
      let size = length-header_bytes (header_of w body page_offset) in
      let both = rw size at (read-write_append w.buffer c hd body) in
      let old : read mem 0 c ≡ read w.buffer 0 c =
        read-write_apart (write w.buffer c hd) 0 c (c + 24) body (inl (omega arith))
        ∙ read-write_apart w.buffer 0 c c hd (inl (omega arith)) in
      let e1 = read-append mem 0 c (24 + length body) in
      let e2 = read-append mem c 24 (length body) in
      rw (e1, zero-add, e2, old, both.0, both.1, append_assoc, append_assoc)
        (h.begin (hd ++ (body ++ rest)) ∙ ap (encode_all es) (header_bytes-encode _ body rest)));
}

-- An entry that is appended stands behind those that were there.
pub try_append-Holds :
    (w w' : Wal) (es : List Entry) (body : List ℕ) (page_offset lsn : ℕ)
    → Holds w es
    → 0 < length body
    → w.next_lsn < 2 ^ 64
    → page_offset < 2 ^ 64
    → try_append w body page_offset ≡ appended lsn w'
    → Holds w' (es ++ ((header_of w body page_offset, body) ∷ [])) × (lsn ≡ w.next_lsn)
unfolding try_append
try_append-Holds w w' es body page_offset lsn h b l p e =
    elim (Bool-cases (ltb (w.buffer_size - w.buffer_cursor) (required_bytes body))) [
      | inl full ↦ cc (rw full at e)
      | inr fits ↦
          let room : required_bytes body ≤ w.buffer_size - w.buffer_cursor = ground arith in
          let made = put_entry-Holds w es body page_offset h b l p room in
          let same : put_entry w body page_offset ≡ w' = ap (wal_of w) (rw fits at e) in
          let lsn_same : w.next_lsn ≡ lsn = ap lsn_of (rw fits at e) in
          (
            subst (λ x. Holds x (es ++ ((header_of w body page_offset, body) ∷ []))) same made,
            sym lsn_same,
          )
    ]

-- What a flush leaves behind the entries ends the reader: a header of zeros, or too few bytes.
tail-Stops :
    (w : Wal)
    → w.buffer_cursor ≤ w.buffer_size
    → (read (clear_next_header w).buffer 0 w.buffer_cursor ≡ read w.buffer 0 w.buffer_cursor)
      × Stops (read (clear_next_header w).buffer w.buffer_cursor (w.buffer_size - w.buffer_cursor))
unfolding clear_next_header
tail-Stops w inside = elim (dec_le (w.buffer_cursor + 8) w.buffer_size) [
  | yes room ↦
      let t : leb (w.buffer_cursor + 8) w.buffer_size ≡ true = ground arith in
      let zeros : List ℕ = 0 ∷ 0 ∷ 0 ∷ 0 ∷ 0 ∷ 0 ∷ 0 ∷ 0 ∷ [] in
      let c = w.buffer_cursor in
      let n : w.buffer_size - c ≡ 8 + (w.buffer_size - c - 8) = omega arith in
      rw t (
        read-write_apart w.buffer 0 c c zeros (inl (omega arith)),
        inr (
            rw
              (
                n,
                read-append (write w.buffer c zeros) c 8 (w.buffer_size - c - 8),
                read-write_self w.buffer c zeros,
              )
              (unfold from_le in refl)),
      )
  | no full ↦
      let t : leb (w.buffer_cursor + 8) w.buffer_size ≡ false = ground arith in
      rw t (
        refl,
        inl (omega (arith, length-read w.buffer w.buffer_cursor (w.buffer_size - w.buffer_cursor))),
      )
]

segment-entries : (w : Wal) (es : List Entry) → Holds w es → entries (segment w) ≡ some es
segment-entries w es h =
    let c = w.buffer_cursor in
    let mem = (clear_next_header w).buffer in
    let t = tail-Stops w h.inside in
    let z : 0 + c ≡ c = omega arith in
    let n : w.buffer_size ≡ c + (w.buffer_size - c) = omega (arith, h.inside) in
    let whole : segment w ≡ read mem 0 c ++ read mem c (w.buffer_size - c) =
      ap (read mem 0) n
      ∙ read-append mem 0 c (w.buffer_size - c)
      ∙ ap (λ k. read mem 0 c ++ read mem k (w.buffer_size - c)) z in
    entries-encode es (segment w) (read mem c (w.buffer_size - c)) h.are t.1
      (whole ∙ rw t.0 (h.begin (read mem c (w.buffer_size - c))))

-- A flush of a log that holds entries writes one segment, at the offset of the file, which reads
-- as these entries, and answers the request for a flush.
pub flush-entries :
    (w : Wal) (es : List Entry)
    → Holds w es
    → 0 < w.buffer_cursor
    → (entries (segment w) ≡ some es)
      × ((flush w).writes ≡ (w.file_offset, segment w) ∷ w.writes)
      × ((flush w).need_flush ≡ false)
unfolding flush
flush-entries w es h c =
    let t : (w.buffer_cursor == 0) ≡ false = ground arith in (segment-entries w es h, rw t, rw t)

Attempt-cases :
    (a : Attempt) → ((w : Wal) × (a ≡ retry w)) ⊎ ((lsn : ℕ) × (w : Wal) × (a ≡ appended lsn w))
Attempt-cases (retry w) = inl (w, refl)
Attempt-cases (appended lsn w) = inr (lsn, w, refl)

try_append-next_lsn :
    (w w' : Wal) (body : List ℕ) (page_offset lsn : ℕ)
    → try_append w body page_offset ≡ appended lsn w'
    → w'.next_lsn ≡ w.next_lsn + 1
unfolding try_append put_entry
try_append-next_lsn w w' body page_offset lsn e = ground arith

-- Writers that append one after the other with no flush between them; `none` if one has to wait.
unfoldable pub append_list : Wal → List (List ℕ × ℕ) → Option Wal
append_list w [] = some w
append_list w ((body, page_offset) ∷ rest) = elim (try_append w body page_offset) [
  | retry w' ↦ none
  | appended lsn w' ↦ append_list w' rest
]

-- The entries of these writers, with the sequence numbers from `lsn` on.
abbrev pub logged : ℕ → List (List ℕ × ℕ) → List Entry
logged lsn [] = []
logged lsn ((body, page_offset) ∷ rest) =
    (record { log_len = required_bytes body; lsn = lsn; page_offset = page_offset }, body)
    ∷ logged (lsn + 1) rest

abbrev pub AreBodies : List (List ℕ × ℕ) → Type 0
AreBodies [] = Unit
AreBodies ((body, page_offset) ∷ rest) = (0 < length body) × (page_offset < 2 ^ 64) × AreBodies rest

append_list-Holds :
    (ops : List (List ℕ × ℕ)) (w w' : Wal) (es : List Entry)
    → Holds w es
    → AreBodies ops
    → w.next_lsn + length ops < 2 ^ 64
    → append_list w ops ≡ some w'
    → Holds w' (es ++ logged w.next_lsn ops)
unfolding append_list
append_list-Holds [] w w' es h a l e =
    subst (λ x. Holds x (es ++ [])) (some-injective _ _ e) (rw (append-nil es) h)
append_list-Holds ((body, page_offset) ∷ rest) w w' es h a l e =
    elim (Attempt-cases (try_append w body page_offset)) [
      | inl (v, waits) ↦ none-ne-some (rw (waits, append_list) at e)
      | inr (lsn, v, went) ↦
          let one = try_append-Holds w v es body page_offset lsn h a.0 (omega arith) a.1 went in
          let n = try_append-next_lsn w v body page_offset lsn went in
          let more =
            append_list-Holds rest v w' _ one.0 a.2 (omega (arith, n))
              (rw (went, append_list) at e) in
          rw (n, append_assoc) at more
    ]

-- All that is appended to a new log before its first flush is read back from the segment of that
-- flush: the same bodies in the same order, with their page offsets, numbered from 0.
pub new-append_list-entries :
    (memory : Memory) (segment_size : ℕ) (ops : List (List ℕ × ℕ)) (w : Wal)
    → segment_size < 2 ^ 64
    → AreBodies ops
    → length ops < 2 ^ 64
    → append_list (new memory segment_size) ops ≡ some w
    → entries (segment w) ≡ some (logged 0 ops)
new-append_list-entries memory segment_size ops w s a l e = segment-entries w (logged 0 ops) (
    append_list-Holds ops (new memory segment_size) w []
      (record {
        inside = omega arith;
        size_word = s;
        are = tt;
        begin = λ rest. unfold read in refl;
      })
      a (omega arith) e)
