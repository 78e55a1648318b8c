-- ===== src/Utils/MappingTable.antt =====
-- src/utils/mapping_table.rs: page ids and what they stand for, in batches that are made when they are
-- first needed. `none` in a table is memory that is not initialized. The mutex makes each operation
-- one step. The number of records in a batch is not 0.
pub mod Entries
mod Tests
use bf_tree.Common.{ℕ, ◌+◌, ◌*◌, ◌/◌, ◌%◌, Bool, Option, none, some, ltb, leb, if◌then◌else◌, ◌>>=◌}
use bf_tree.Common.Shift.{put_at}

abbrev pub max_batches : ℕ
max_batches = 128

-- `RecordBatch`
abbrev pub RecordBatch {ℓ} : Type ℓ → Type ℓ
RecordBatch A = ℕ → Option A

-- `RecordBatch::new`
abbrev pub new_batch {ℓ} : {A : Type ℓ} → RecordBatch A
new_batch i = none

-- `MappingTable`, with its `States`
pub record MappingTable {ℓ} (A : Type ℓ) : Type ℓ where
  pub next_id : ℕ
  pub current_initialized_batch : ℕ
  pub batches : ℕ → Option (RecordBatch A)
  pub record_per_batch : ℕ

-- `MappingTable::new`: the first batch is made at once.
unfoldable pub new {ℓ} : {A : Type ℓ} → ℕ → MappingTable A
new record_per_batch = record {
  next_id = 0;
  current_initialized_batch = 0;
  batches = put_at (λ i. none) 0 (some new_batch);
  record_per_batch = record_per_batch;
}

module _ {ℓ} {A : Type ℓ} where
  abbrev pub get_batch_id : MappingTable A → ℕ → ℕ
  get_batch_id t id = id / t.record_per_batch

  abbrev pub get_record_id : MappingTable A → ℕ → ℕ
  get_record_id t id = id % t.record_per_batch

  -- `get`; `none` is a read of memory that is not initialized.
  unfoldable pub get : MappingTable A → ℕ → Option A
  get t id = t.batches (get_batch_id t id) >>= λ batch. batch (get_record_id t id)

  -- The first half of `set`: a new batch, or the panic if there are too many.
  unfoldable pub with_batch : MappingTable A → ℕ → Option (MappingTable A)
  with_batch t batch_id =
      if ltb t.current_initialized_batch batch_id
      then if leb max_batches batch_id
        then none
        else some (record t {
          batches = put_at t.batches batch_id (some new_batch);
          current_initialized_batch = batch_id;
        })
      else some t

  -- The second half: the write.
  unfoldable pub write_record : MappingTable A → ℕ → ℕ → A → Option (MappingTable A)
  write_record t batch_id record_id val = t.batches batch_id >>= λ batch.
      some (record t {
        batches = put_at t.batches batch_id (some (put_at batch record_id (some val)));
      })

  unfoldable pub set : MappingTable A → ℕ → A → Option (MappingTable A)
  set t id val = with_batch t (get_batch_id t id) >>= λ t'.
      write_record t' (get_batch_id t id) (get_record_id t id) val

  -- `insert`: the new id, and the table.
  unfoldable pub insert : MappingTable A → A → Option (ℕ × MappingTable A)
  insert t val =
      set (record t { next_id = t.next_id + 1 }) t.next_id val >>= λ t'. some (t.next_id, t')
