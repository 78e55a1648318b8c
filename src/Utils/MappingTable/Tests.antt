-- ===== src/Utils/MappingTable/Tests.antt =====
-- A run of the table, and the theorem at a concrete table.
use bf_tree.Common.{ℕ, ◌≡◌, refl, none, some, arith}
use bf_tree.Common.Shift.{put_at, put_at_other}
use bf_tree.Utils.MappingTable.{
  MappingTable, RecordBatch, new_batch, insert, set, with_batch, write_record,
}
use bf_tree.Utils.MappingTable.Entries.{IsValid, Sets, insert-Sets}

-- Two records in a batch, and both used: the next record needs a new batch.
abbrev full_batch : RecordBatch ℕ
full_batch = put_at (put_at new_batch 0 (some 7)) 1 (some 8)

abbrev full : MappingTable ℕ
full = record {
  next_id = 2;
  current_initialized_batch = 0;
  batches = put_at (λ i. none) 0 (some full_batch);
  record_per_batch = 2;
}

full-IsValid : IsValid full
full-IsValid = record {
  unmade = λ b h. put_at_other (λ i. none) 0 (some full_batch) b (omega arith);
}

abbrev third_batch : RecordBatch ℕ
third_batch = put_at new_batch 0 (some 9)

abbrev three : MappingTable ℕ
three = record {
  next_id = 3;
  current_initialized_batch = 1;
  batches = put_at (put_at full.batches 1 (some new_batch)) 1 (some third_batch);
  record_per_batch = 2;
}

insert-Sets_example : (2 ≡ full.next_id) × Sets full three 2 9
unfolding insert set with_batch write_record put_at
insert-Sets_example = insert-Sets full three 9 2 full-IsValid refl
