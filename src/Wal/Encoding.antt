-- ===== src/Wal/Encoding.antt =====
-- A segment as the sequence of its entries: what the reader finds in such a segment.

use bf_tree.Common.{
  ℕ, zero, suc, ◌+◌, ◌-◌, ◌≤◌, ◌<◌, ◌^◌, ◌≡◌, ◌⊎◌, inl, inr, refl, ap, sym, ◌∙◌, true, false, some,
  List, [], ◌∷◌, ◌++◌, length, take, drop, ltb, leb, ◌==◌, arith, length-append, length-drop,
  take-append_exact, drop-append_exact, drop-add,
}
use bf_tree.Common.Bytes.{le_bytes, from_le, from_le-le_bytes}
use bf_tree.Wal.Log.{LogHeader}
use bf_tree.Wal.Reader.{from_slice, done, item, next, entries_from, entries}

abbrev pub Entry : Type 0
Entry = LogHeader × List ℕ

-- An entry with a body, in words of 64 bits.
pub record IsEntry (e : Entry) : Type 0 where
  pub len : e.0.log_len ≡ 24 + length e.1
  pub body : 0 < length e.1
  pub len_word : e.0.log_len < 2 ^ 64
  pub lsn_word : e.0.lsn < 2 ^ 64
  pub page_word : e.0.page_offset < 2 ^ 64

abbrev pub AreEntries : List Entry → Type 0
AreEntries [] = Unit
AreEntries (e ∷ es) = IsEntry e × AreEntries es

-- The bytes of entries, in front of `rest`.
abbrev pub encode : Entry → List ℕ → List ℕ
encode (h, body) rest =
    le_bytes 8 h.log_len ++ (le_bytes 8 h.lsn ++ (le_bytes 8 h.page_offset ++ (body ++ rest)))

abbrev pub encode_all : List Entry → List ℕ → List ℕ
encode_all [] rest = rest
encode_all (e ∷ es) rest = encode e (encode_all es rest)

pub encode_all-append :
    (es : List Entry) (e : Entry) (rest : List ℕ)
    → encode_all (es ++ (e ∷ [])) rest ≡ encode_all es (encode e rest)
encode_all-append [] e rest = refl
encode_all-append (d ∷ es) e rest = ap (encode d) (encode_all-append es e rest)

from_slice-encode : (e : Entry) (rest : List ℕ) → IsEntry e → from_slice (encode e rest) ≡ e.0
unfolding from_slice le_bytes
from_slice-encode (h, body) rest v = rw (
  from_le-le_bytes h.log_len v.len_word,
  from_le-le_bytes h.lsn v.lsn_word,
  from_le-le_bytes h.page_offset v.page_word,
)

drop-encode : (e : Entry) (rest : List ℕ) → drop 24 (encode e rest) ≡ e.1 ++ rest
unfolding le_bytes
drop-encode (h, body) rest = refl

length-encode : (e : Entry) (rest : List ℕ) → length (encode e rest) ≡ 24 + length e.1 + length rest
unfolding le_bytes
length-encode (h, body) rest = omega (arith, length-append body rest)

-- At the offset of an entry the iterator gives it, and stands at what follows.
next_at_entry :
    (bytes : List ℕ) (off : ℕ) (e : Entry) (rest : List ℕ)
    → IsEntry e
    → drop off bytes ≡ encode e rest
    → (next bytes off ≡ item e.0 e.1 (off + e.0.log_len)) × (drop (off + e.0.log_len) bytes ≡ rest)
unfolding next
next_at_entry bytes off e rest v at =
    let size : length bytes - off ≡ 24 + length e.1 + length rest =
      sym (length-drop off bytes) ∙ ap length at ∙ length-encode e rest in
    let header : from_slice (drop off bytes) ≡ e.0 = rw at (from_slice-encode e rest v) in
    let after : drop (off + 24) bytes ≡ e.1 ++ rest =
      drop-add off 24 bytes ∙ rw at (drop-encode e rest) in
    let t1 : leb (length bytes) (off + 24) ≡ false = ground (arith, v.body) in
    let t2 : (e.0.log_len == 0) ≡ false = ground (arith, v.len) in
    let t3 : ltb e.0.log_len 24 ≡ false = ground (arith, v.len) in
    let t4 : ltb (length bytes) (off + e.0.log_len) ≡ false = ground (arith, v.len) in
    let l : e.0.log_len - 24 ≡ length e.1 = omega (arith, v.len) in
    let k : off + e.0.log_len ≡ off + 24 + length e.1 = omega (arith, v.len) in
    (
      rw (header, t1, t2, t3, t4, after, l, take-append_exact (length e.1) e.1 rest refl),
      rw (k, drop-add (off + 24) (length e.1) bytes, after)
          (drop-append_exact (length e.1) e.1 rest refl),
    )

-- What follows the last entry ends the iteration: less than a header, or a length of zero.
abbrev pub Stops : List ℕ → Type 0
Stops rest = (length rest ≤ 24) ⊎ (from_le (take 8 rest) ≡ 0)

next_at_end :
    (bytes : List ℕ) (off : ℕ) (rest : List ℕ)
    → off ≤ length bytes
    → drop off bytes ≡ rest
    → Stops rest
    → next bytes off ≡ done
unfolding next from_slice
next_at_end bytes off rest inside at (inl short) =
    let size : length bytes - off ≡ length rest = sym (length-drop off bytes) ∙ ap length at in
    let t : leb (length bytes) (off + 24) ≡ true = ground arith in rw t
next_at_end bytes off rest inside at (inr zero_len) = rw (at, zero_len) (ground arith)

entries_from-encode :
    (es : List Entry) (fuel : ℕ) (bytes : List ℕ) (off : ℕ) (rest : List ℕ)
    → AreEntries es
    → Stops rest
    → off ≤ length bytes
    → drop off bytes ≡ encode_all es rest
    → length bytes < fuel + off
    → entries_from fuel bytes off ≡ some es
unfolding entries_from
entries_from-encode [] zero bytes off rest v s o at f = absurd (omega arith)
entries_from-encode (e ∷ es) zero bytes off rest v s o at f = absurd (omega arith)
entries_from-encode [] (suc fuel) bytes off rest v s o at f =
    rw (next_at_end bytes off rest o at s, entries_from)
entries_from-encode (e ∷ es) (suc fuel) bytes off rest v s o at f =
    let n = next_at_entry bytes off e (encode_all es rest) v.0 at in
    let size : length bytes - off ≡ 24 + length e.1 + length (encode_all es rest) =
      sym (length-drop off bytes) ∙ ap length at ∙ length-encode e (encode_all es rest) in
    let ih =
      entries_from-encode es fuel bytes (off + e.0.log_len) rest v.1 s (omega (arith, v.0.len)) n.1
        (omega (arith, v.0.len)) in
    rw (n.0, entries_from) (rw ih)

-- A segment that begins with entries and then stops reads as those entries.
pub entries-encode :
    (es : List Entry) (bytes rest : List ℕ)
    → AreEntries es
    → Stops rest
    → bytes ≡ encode_all es rest
    → entries bytes ≡ some es
unfolding entries
entries-encode es bytes rest v s e =
    entries_from-encode es (length bytes + 1) bytes 0 rest v s (omega arith) e (omega arith)
