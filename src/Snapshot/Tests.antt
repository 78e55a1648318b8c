-- ===== src/Snapshot/Tests.antt =====
-- A worker that gets a guard, at rest in version 7, and the words of a snapshot.
use bf_tree.Common.{◌-◌, ◌^◌, ◌<◌, ◌≡◌, ◌≢◌, ◌⊎◌, refl, arith, true, some, none}
use bf_tree.Common.Shift.{put_at}
use bf_tree.Snapshot
use bf_tree.Snapshot.{
  Manager, IsReachable, moved, committed, checked, stored, loaded, taken, rest, prepare,
  in_progress, sweep, new_snapshot_state, get_version, get_phase_id, advance_global_state,
  slot_count,
}
use bf_tree.Snapshot.Words.{word, new_snapshot_state-parts, advance_cycle}
use bf_tree.Snapshot.Agreement.{guards_agree}

abbrev begun : Manager
begun = moved (Snapshot.new 7) 3 taken none

abbrev with_state : Manager
with_state = moved begun 3 (loaded 7) none

abbrev announced : Manager
announced = moved with_state 3 (stored 7) (some 7)

abbrev confirmed : Manager
confirmed = moved announced 3 (checked 7) (some 7)

abbrev guarded : Manager
guarded = moved confirmed 3 (committed 7) (some 7)

guarded-IsReachable : IsReachable 7 guarded
unfolding put_at
guarded-IsReachable =
    Snapshot.after 7 confirmed guarded
      (Snapshot.after 7 announced confirmed
        (Snapshot.after 7 with_state announced
          (Snapshot.after 7 begun with_state
            (Snapshot.after 7 (Snapshot.new 7) begun (Snapshot.start 7)
              (Snapshot.take (Snapshot.new 7) 3 refl))
            (Snapshot.load begun 3 refl))
          (Snapshot.store with_state 3 7 refl))
        (Snapshot.recheck announced 3 7 refl refl))
      (Snapshot.commit confirmed 3 7 refl refl)

guards_agree_example :
    ((7 ≡ guarded.global_state) ⊎ (advance_global_state 7 ≡ some guarded.global_state))
    × (guarded.passed ≡ slot_count → 7 ≡ guarded.global_state)
    × (guarded.pause_snapshot ≡ true → guarded.frozen ≢ slot_count)
unfolding put_at
guards_agree_example = guards_agree 7 guarded guarded-IsReachable 3 7 (omega arith) refl

new_snapshot_state-parts_example :
    (get_phase_id 4611686018427387909 ≡ some in_progress)
    × (get_version 4611686018427387909 ≡ 5)
    × (4611686018427387909 < 2 ^ 64 - 1)
unfolding new_snapshot_state
new_snapshot_state-parts_example = new_snapshot_state-parts in_progress 5 4611686018427387909 refl

advance_cycle_example :
    (advance_global_state (word rest 5) ≡ some (word prepare 5))
    × (advance_global_state (word prepare 5) ≡ some (word in_progress 6))
    × (advance_global_state (word in_progress 6) ≡ some (word sweep 6))
    × (advance_global_state (word sweep 6) ≡ some (word rest 6))
advance_cycle_example = advance_cycle 5 (omega arith)
