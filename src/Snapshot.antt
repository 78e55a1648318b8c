-- ===== src/Snapshot.antt =====
-- src/snapshot.rs: `CPRSnapShotMgr`, the phases of a snapshot and the threads that work in them. Each step is
-- one atomic operation of a worker in its slot or of the manager, and steps interleave in any order, which
-- is what the fences are for. A slot is taken unless its worker is idle.
pub mod Words
pub mod Agreement
mod Tests
use bf_tree.Common.{
  ℕ, suc, ◌+◌, ◌*◌, ◌/◌, ◌%◌, ◌^◌, ◌<◌, ◌≡◌, ◌≢◌, ◌⊎◌, Bool, true, false, Option, none, some, ltb,
  ◌==◌, if◌then◌else◌, ◌>>=◌, ◌>>◌, check,
}
use bf_tree.Common.Shift.{put_at}

pub data PhaseId : Type 0 where
  rest prepare in_progress sweep : PhaseId

unfoldable pub from_raw : ℕ → Option PhaseId
from_raw value =
    if value == 0
    then some rest
    else if value == 1
    then some prepare
    else if value == 2
    then some in_progress
    else if value == 3
    then some sweep
    else none

abbrev pub as_raw : PhaseId → ℕ
as_raw rest = 0
as_raw prepare = 1
as_raw in_progress = 2
as_raw sweep = 3

-- `DEFAULT_MAX_SNAPSHOT_THREAD_NUM`
abbrev pub slot_count : ℕ
slot_count = 64

-- A phase above a version of 61 bits; `|` of words without a common bit is their sum.
unfoldable pub new_snapshot_state : ℕ → ℕ → Option ℕ
new_snapshot_state phase_id version = do
  check (ltb phase_id 4)
  check (ltb version (2 ^ 61))
  some (phase_id * 2 ^ 61 + version)

-- `get_global_version` and `get_global_phase_id`, of a word of 64 bits
unfoldable pub get_version : ℕ → ℕ
get_version state = state % 2 ^ 61

unfoldable pub get_phase_id : ℕ → Option PhaseId
get_phase_id state = from_raw (state / 2 ^ 61 % 8)

abbrev pub next_state : PhaseId → ℕ → Option ℕ
next_state rest version = new_snapshot_state (as_raw prepare) version
next_state prepare version = new_snapshot_state (as_raw in_progress) (version + 1)
next_state in_progress version = new_snapshot_state (as_raw sweep) version
next_state sweep version = new_snapshot_state (as_raw rest) version

-- `advance_global_state`
unfoldable pub advance_global_state : ℕ → Option ℕ
advance_global_state state =
    get_phase_id state >>= λ phase_id. next_state phase_id (get_version state)

-- Where a worker stands in `reserve_thread_slot` and behind it: with a slot, with the global state it has
-- read, with that as its local state, with the state found to be the global one still, with its
-- guard, and about to free the slot.
pub data Worker : Type 0 where
  idle taken leaving : Worker
  loaded stored checked committed : ℕ → Worker

-- `CPRSnapShotMgr`; the local state `none` is `INVALID_SNAPSHOT_STATE`. `passed` is how many slots the
-- manager has found in the global state, and `frozen` how many it has found free since it set the pause.
pub record Manager : Type 0 where
  pub global_state : ℕ
  pub pause_snapshot : Bool
  pub local_states : ℕ → Option ℕ
  pub workers : ℕ → Worker
  pub passed : ℕ
  pub frozen : ℕ

-- A worker that has moved.
abbrev pub moved : Manager → ℕ → Worker → Option ℕ → Manager
moved s i w l = record s {
  workers = put_at s.workers i w;
  local_states = put_at s.local_states i l;
}

pub data Step : Manager → Manager → Type 0 where
  take : (s : Manager) (i : ℕ) → s.workers i ≡ idle → Step s (moved s i taken none)
  load :
      (s : Manager) (i : ℕ) → s.workers i ≡ taken → Step s (moved s i (loaded s.global_state) none)
  store : (s : Manager) (i g : ℕ) → s.workers i ≡ loaded g → Step s (moved s i (stored g) (some g))
  recheck :
      (s : Manager) (i g : ℕ)
      → s.workers i ≡ stored g
      → g ≡ s.global_state
      → Step s (moved s i (checked g) (some g))
  recheck_fails :
      (s : Manager) (i g : ℕ)
      → s.workers i ≡ stored g
      → g ≢ s.global_state
      → Step s (moved s i leaving none)
  commit :
      (s : Manager) (i g : ℕ)
      → s.workers i ≡ checked g
      → s.pause_snapshot ≡ false
      → Step s (moved s i (committed g) (some g))
  commit_fails :
      (s : Manager) (i g : ℕ)
      → s.workers i ≡ checked g
      → s.pause_snapshot ≡ true
      → Step s (moved s i leaving none)
  release : (s : Manager) (i g : ℕ) → s.workers i ≡ committed g → Step s (moved s i leaving none)
  free : (s : Manager) (i : ℕ) → s.workers i ≡ leaving → Step s (moved s i idle none)
  advance :
      (s : Manager) (w : ℕ)
      → s.passed ≡ slot_count
      → advance_global_state s.global_state ≡ some w
      → Step s (record s { global_state = w; passed = 0 })
  -- One round of the loop of `check_if_phase_completed` for the global state, and its return with false
  pass :
      (s : Manager)
      → (s.local_states s.passed ≡ none) ⊎ (s.local_states s.passed ≡ some s.global_state)
      → Step s (record s { passed = suc s.passed })
  pass_fails : (s : Manager) → Step s (record s { passed = 0 })
  -- The same for `INVALID_SNAPSHOT_STATE`, in the sweep
  pause : (s : Manager) → Step s (record s { pause_snapshot = true; frozen = 0 })
  freeze :
      (s : Manager) → s.local_states s.frozen ≡ none → Step s (record s { frozen = suc s.frozen })
  freeze_fails : (s : Manager) → Step s (record s { frozen = 0 })
  unpause : (s : Manager) → Step s (record s { pause_snapshot = false })

-- `CPRSnapShotMgr::new`
abbrev pub new : ℕ → Manager
new state = record {
  global_state = state;
  pause_snapshot = false;
  local_states = λ i. none;
  workers = λ i. idle;
  passed = 0;
  frozen = 0;
}

pub data IsReachable : ℕ → Manager → Type 0 where
  start : (state : ℕ) → IsReachable state (new state)
  after : (state : ℕ) (s s' : Manager) → IsReachable state s → Step s s' → IsReachable state s'
