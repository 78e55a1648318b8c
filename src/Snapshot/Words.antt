-- ===== src/Snapshot/Words.antt =====
-- The words of the global state.
use bf_tree.Common.{
  ℕ, ◌+◌, ◌-◌, ◌*◌, ◌/◌, ◌%◌, ◌^◌, ◌≤◌, ◌<◌, ◌≡◌, ◌∙◌, refl, ap, arith, true, some, some-injective,
  check-then, ltb,
}
use bf_tree.Snapshot.{
  PhaseId, rest, prepare, in_progress, sweep, from_raw, as_raw, new_snapshot_state, get_version,
  get_phase_id, next_state, advance_global_state,
}

-- The word of a phase and a version.
abbrev pub word : PhaseId → ℕ → ℕ
word p version = as_raw p * 2 ^ 61 + version

raw-bound : (p : PhaseId) → as_raw p ≤ 3
raw-bound rest = omega arith
raw-bound prepare = omega arith
raw-bound in_progress = omega arith
raw-bound sweep = omega arith

from_raw-as_raw : (p : PhaseId) → from_raw (as_raw p) ≡ some p
unfolding from_raw
from_raw-as_raw rest = refl
from_raw-as_raw prepare = refl
from_raw-as_raw in_progress = refl
from_raw-as_raw sweep = refl

-- Phase and version packed into a word are read from it again, and the word is not
-- `INVALID_SNAPSHOT_STATE`.
pub new_snapshot_state-parts :
    (p : PhaseId) (version w : ℕ)
    → new_snapshot_state (as_raw p) version ≡ some w
    → (get_phase_id w ≡ some p) × (get_version w ≡ version) × (w < 2 ^ 64 - 1)
unfolding new_snapshot_state get_phase_id get_version
new_snapshot_state-parts p version w e =
    let (_, e1) = check-then (ltb (as_raw p) 4) _ e in
    let (small, e2) = check-then (ltb version (2 ^ 61)) (some (word p version)) e1 in
    let l : version < 2 ^ 61 = ground (arith, small) in
    let n : word p version ≡ w = some-injective _ _ e2 in
    let b = raw-bound p in
    let phase : w / 2 ^ 61 % 8 ≡ as_raw p = omega (arith, n, l, b) in
    (ap from_raw phase ∙ from_raw-as_raw p, omega (arith, n, l, b), omega (arith, n, l, b))

pub new_snapshot_state-some :
    (p : PhaseId) (version : ℕ)
    → version < 2 ^ 61
    → new_snapshot_state (as_raw p) version ≡ some (word p version)
unfolding new_snapshot_state
new_snapshot_state-some p version l =
    let b = raw-bound p in
    let t1 : ltb (as_raw p) 4 ≡ true = ground (arith, b) in
    let t2 : ltb version (2 ^ 61) ≡ true = ground (arith, l) in rw (t1, t2) refl

advance-word :
    (p : PhaseId) (version : ℕ)
    → version < 2 ^ 61
    → advance_global_state (word p version) ≡ next_state p version
unfolding advance_global_state
advance-word p version l =
    let (a, b, _) =
      new_snapshot_state-parts p version (word p version) (new_snapshot_state-some p version l) in
    rw (a, b) refl

-- A snapshot advances the state four times: from rest over prepare, and in progress and sweep with the next
-- version, to rest with the next version.
pub advance_cycle :
    (version : ℕ)
    → version + 1 < 2 ^ 61
    → (advance_global_state (word rest version) ≡ some (word prepare version))
      × (advance_global_state (word prepare version) ≡ some (word in_progress (version + 1)))
      × (advance_global_state (word in_progress (version + 1)) ≡ some (word sweep (version + 1)))
      × (advance_global_state (word sweep (version + 1)) ≡ some (word rest (version + 1)))
advance_cycle version l = (
  advance-word rest version (omega (arith, l))
      ∙ new_snapshot_state-some prepare version (omega (arith, l)),
  advance-word prepare version (omega (arith, l))
      ∙ new_snapshot_state-some in_progress (version + 1) l,
  advance-word in_progress (version + 1) l ∙ new_snapshot_state-some sweep (version + 1) l,
  advance-word sweep (version + 1) l ∙ new_snapshot_state-some rest (version + 1) l,
)
