-- ===== src/Wal/Operations.antt =====
-- src/wal/operations.rs: a logged operation as bytes and back. `none` is a panic.
use bf_tree.Common.{
  ℕ, ◌+◌, ◌<◌, ◌≡◌, refl, Bool, Option, none, some, List, [], ◌∷◌, ◌++◌, ◌>>=◌, ◌>>◌, check, length,
  take, drop, u16, ◌==◌, arith, take-append_exact, drop-append_exact, get_or, test_eq, ltb, not,
  suc, true, false, length-append, some-injective, subst, ap,
}
use bf_tree.Common.Bytes.{le_bytes, from_le, from_le-le_bytes_2}
use bf_tree.Nodes.OpType.{OpType, to_byte, of_byte, of_byte-to_byte}

-- `WriteOp`
pub record WriteOp : Type 0 where
  pub key : List ℕ
  pub value : List ℕ
  pub op_type : OpType

-- `WriteOp::make_insert` and `WriteOp::make_delete`
unfoldable pub make_insert : List ℕ → List ℕ → WriteOp
make_insert key value = record { key = key; value = value; op_type = OpType.insert }

unfoldable pub make_delete : List ℕ → WriteOp
make_delete key = record { key = key; value = []; op_type = OpType.delete }

-- `WriteOp::log_size`
unfoldable pub op_size : WriteOp → ℕ
op_size op = 2 + 2 + 1 + length op.key + length op.value

-- `WriteOp::write_to_buffer`: what the buffer of `log_size` bytes holds afterwards.
unfoldable pub op_bytes : WriteOp → List ℕ
op_bytes op =
    le_bytes 2 (u16 (length op.key))
    ++ (le_bytes 2 (u16 (length op.value)) ++ (to_byte op.op_type ∷ (op.key ++ op.value)))

-- `WriteOp::read_from_buffer`; a buffer that is too short is a panic.
unfoldable pub read_op : List ℕ → Option WriteOp
read_op buffer = do
  check (ltb 4 (length buffer))
  let key_size = from_le (take 2 buffer)
  let value_size = from_le (take 2 (drop 2 buffer))
  op ← of_byte (get_or (drop 4 buffer) 0 0)
  check (not (ltb (length buffer) (5 + key_size)))
  let value = drop key_size (drop 5 buffer)
  check (length value == value_size)
  some (record { key = take key_size (drop 5 buffer); value = value; op_type = op })

-- `LogEntry`. Splits are not logged yet: their size and their bytes are `todo!()`.
pub data LogEntry : Type 0 where
  write : WriteOp → LogEntry
  split : LogEntry

-- `LogEntry::log_size`
unfoldable pub log_size : LogEntry → Option ℕ
log_size (write op) = some (1 + op_size op)
log_size split = none

-- `LogEntry::write_to_buffer`
unfoldable pub write_to_buffer : LogEntry → Option (List ℕ)
write_to_buffer (write op) = some (0 ∷ op_bytes op)
write_to_buffer split = none

-- `LogEntry::read_from_buffer`
unfoldable pub read_from_buffer : List ℕ → Option LogEntry
read_from_buffer [] = none
read_from_buffer (tag ∷ buffer) =
    let op = read_op buffer >>= λ o. some (write o) in
    elim (tag == 0) [
      | Bool.true ↦ op
      | Bool.false ↦ elim (tag == 1) [ Bool.true ↦ some split | Bool.false ↦ none ]
    ]

-- Four bytes of sizes and the byte of the kind in front of the key and the value.
module _ (op : WriteOp) (k : length op.key < 65536) (v : length op.value < 65536) where
  -- The operation that was written is read back.
  pub read_op-op_bytes : read_op (op_bytes op) ≡ some op
  unfolding read_op op_bytes le_bytes
  read_op-op_bytes =
      let all = length (op.key ++ op.value) in
      let sum = length-append op.key op.value in
      let ek : u16 (length op.key) ≡ length op.key = omega arith in
      let ev : u16 (length op.value) ≡ length op.value = omega arith in
      let t1 : ltb 4 (suc (suc (suc (suc (suc all))))) ≡ true = ground arith in
      let t2 : ltb (suc (suc (suc (suc (suc all))))) (5 + length op.key) ≡ false =
        ground (arith, sum) in
      rw (
        t1,
        ek,
        ev,
        from_le-le_bytes_2 (length op.key) k,
        from_le-le_bytes_2 (length op.value) v,
        of_byte-to_byte op.op_type,
        t2,
        drop-append_exact (length op.key) op.key op.value refl,
        take-append_exact (length op.key) op.key op.value refl,
        test_eq (length op.value) (length op.value) refl,
      )

length_op : (op : WriteOp) → 1 + op_size op ≡ length (0 ∷ op_bytes op)
unfolding op_size op_bytes le_bytes
length_op op = omega (arith, length-append op.key op.value)

-- An entry has the size that it says, and is read back.
pub read_from_buffer-write_to_buffer :
    (op : WriteOp) (bytes : List ℕ)
    → length op.key < 65536
    → length op.value < 65536
    → write_to_buffer (write op) ≡ some bytes
    → (log_size (write op) ≡ some (length bytes)) × (read_from_buffer bytes ≡ some (write op))
unfolding write_to_buffer read_from_buffer log_size
read_from_buffer-write_to_buffer op bytes k v h =
    let same : 0 ∷ op_bytes op ≡ bytes = some-injective _ _ h in
    subst
      (λ b.
        (◌≡◌ {A = Option ℕ} (some (1 + op_size op)) (some (length b)))
        × (read_from_buffer b ≡ some (write op)))
      same (ap some (length_op op), rw (read_op-op_bytes op k v))
