-- ===== src/Utils/RwLock.antt =====
-- src/utils/rw_lock.rs: the word of the lock, `lock_val`, of 32 bits. It is twice the number of
-- readers, plus one while a writer waits, or all ones while a writer holds the lock. The threads take
-- turns at its atomic operations; what a thread waits for, and the value of the lock, are left out.
pub mod Exclusion
mod Tests
use bf_tree.Common.{ℕ, ◌+◌, ◌-◌, ◌<◌, ◌≡◌, ◌%◌, ◌^◌, Option, none, some, leb, ◌==◌, if◌then◌else◌}

abbrev pub u32_max : ℕ
u32_max = 4294967295

-- The exchanges of `lock_val`, with their guards: `none` where the code does not try them. `read` and
-- `try_read` have the first, `write` and `try_write` the second, and `write` the third if it is not
-- to have the lock.
unfoldable pub read_exchange : ℕ → Option ℕ
read_exchange v = if v % 2 == 0 then some ((v + 2) % 2 ^ 32) else none

unfoldable pub write_exchange : ℕ → Option ℕ
write_exchange s = if leb s 1 then some u32_max else none

unfoldable pub wait_exchange : ℕ → Option ℕ
wait_exchange s = if leb s 1 then none else if s % 2 == 0 then some (s + 1) else none

-- `try_upgrade`
unfoldable pub upgrade_exchange : ℕ → Option ℕ
upgrade_exchange v = if v == 2 then some u32_max else none

-- The release of a reader, `fetch_sub(2)`, and of a writer.
unfoldable pub read_release : ℕ → ℕ
read_release v = (v + 2 ^ 32 - 2) % 2 ^ 32

abbrev pub write_release : ℕ
write_release = 0

-- The word, and the guards that threads hold.
pub record State : Type 0 where
  pub lock_val : ℕ
  pub readers : ℕ
  pub writers : ℕ

-- `RwLock::new`
abbrev pub new : State
new = record { lock_val = 0; readers = 0; writers = 0 }

-- A step of a thread: a successful exchange or a release. There are `threads` threads, and each holds
-- at most one guard, so a new guard needs a thread without one.
pub data Step (threads : ℕ) : State → State → Type 0 where
  read :
      (s : State) (v : ℕ)
      → s.readers + s.writers < threads
      → read_exchange s.lock_val ≡ some v
      → Step threads s (record s { lock_val = v; readers = s.readers + 1 })
  write :
      (s : State) (v : ℕ)
      → s.readers + s.writers < threads
      → write_exchange s.lock_val ≡ some v
      → Step threads s (record s { lock_val = v; writers = s.writers + 1 })
  wait :
      (s : State) (v : ℕ)
      → wait_exchange s.lock_val ≡ some v
      → Step threads s (record s { lock_val = v })
  upgrade :
      (s : State) (v : ℕ)
      → 0 < s.readers
      → upgrade_exchange s.lock_val ≡ some v
      → Step threads s (record { lock_val = v; readers = s.readers - 1; writers = s.writers + 1 })
  drop_read :
      (s : State)
      → 0 < s.readers
      → Step threads s (record s { lock_val = read_release s.lock_val; readers = s.readers - 1 })
  drop_write :
      (s : State)
      → 0 < s.writers
      → Step threads s (record s { lock_val = write_release; writers = s.writers - 1 })

-- The states of a lock that began as `new`.
pub data IsReachable (threads : ℕ) : State → Type 0 where
  start : IsReachable threads new
  after : {s s' : State} → IsReachable threads s → Step threads s s' → IsReachable threads s'
