-- ===== src/Utils/RwLock/Tests.antt =====
-- Runs of the lock, and the theorems at concrete states.
use bf_tree.Common.{◌≤◌, ◌<◌, ◌≡◌, refl, arith, some}
use bf_tree.Utils.RwLock.{
  State, new, read, write, wait, drop_read, IsReachable, start, after, read_exchange,
  write_exchange, wait_exchange, upgrade_exchange, read_release, u32_max,
}
use bf_tree.Utils.RwLock.Exclusion.{mutual_exclusion, writer_admitted}

-- A reader comes, a writer waits for it, and the reader leaves.
abbrev waited : State
waited = record { lock_val = 1; readers = 0; writers = 0 }

waited-IsReachable : IsReachable 8 waited
unfolding read_exchange wait_exchange read_release
waited-IsReachable =
    let one : State = record { lock_val = 2; readers = 1; writers = 0 } in
    let two : State = record { lock_val = 3; readers = 1; writers = 0 } in
    after (after (after start (read new 2 (omega arith) refl)) (wait one 3 refl))
      (drop_read two (omega arith))

-- Then the writer has the lock.
abbrev written : State
written = record { lock_val = u32_max; readers = 0; writers = 1 }

written-IsReachable : IsReachable 8 written
unfolding write_exchange
written-IsReachable = after waited-IsReachable (write waited u32_max (omega arith) refl)

mutual_exclusion_example : (written.writers ≤ 1) × (0 < written.writers → written.readers ≡ 0)
mutual_exclusion_example = mutual_exclusion 8 (omega arith) written written-IsReachable

writer_admitted_example :
    (waited.readers ≡ 0 → waited.writers ≡ 0 → write_exchange waited.lock_val ≡ some u32_max)
    × (upgrade_exchange waited.lock_val ≡ some u32_max
        → (waited.readers ≡ 1) × (waited.writers ≡ 0))
writer_admitted_example = writer_admitted 8 (omega arith) waited waited-IsReachable
