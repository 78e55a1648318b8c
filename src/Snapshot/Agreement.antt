-- ===== src/Snapshot/Agreement.antt =====
-- The workers that hold a guard agree with the manager on the phase.
use native.Mathlib.Decide.{ℕ_discrete}
use bf_tree.Common.{
  ℕ, ◌<◌, ◌≡◌, ◌≢◌, ◌∙◌, ◌⊎◌, refl, sym, ap, inl, inr, arith, Bool, true, false, Option, none, some,
  some-injective, none-ne-some,
}
use bf_tree.Common.Shift.{put_at_self, put_at_other}
use bf_tree.Snapshot.{
  Worker, idle, taken, leaving, loaded, stored, checked, committed, Manager, moved, slot_count,
  advance_global_state, new, Step, IsReachable,
}
use bf_tree.Snapshot

-- The state that a worker has found to be the global one.
abbrev pub admitted : Worker → Option ℕ
admitted (checked g) = some g
admitted (committed g) = some g
admitted idle = none
admitted taken = none
admitted leaving = none
admitted (loaded g) = none
admitted (stored g) = none

abbrev pub is_committed : Worker → Bool
is_committed (committed g) = true
is_committed (checked g) = false
is_committed idle = false
is_committed taken = false
is_committed leaving = false
is_committed (loaded g) = false
is_committed (stored g) = false

-- The local state of a worker.
abbrev pub local_of : Worker → Option ℕ
local_of (checked g) = some g
local_of (committed g) = some g
local_of idle = none
local_of taken = none
local_of leaving = none
local_of (loaded g) = none
local_of (stored g) = some g

-- Local states are those of the workers. Behind the manager's check every worker that was admitted is in
-- the global state, in any case in that or the one before. Behind the check for the pause nobody holds
-- a guard.
pub record Agrees (s : Manager) : Type 0 where
  pub locals : (i : ℕ) → s.local_states i ≡ local_of (s.workers i)
  pub current : (i g : ℕ) → i < s.passed → admitted (s.workers i) ≡ some g → g ≡ s.global_state
  pub near :
      (i g : ℕ)
      → i < slot_count
      → admitted (s.workers i) ≡ some g
      → (g ≡ s.global_state) ⊎ (advance_global_state g ≡ some s.global_state)
  pub still : s.pause_snapshot ≡ true → (i : ℕ) → i < s.frozen → is_committed (s.workers i) ≡ false

-- A worker that is admitted only in the global state or where it was admitted before, and gets a guard
-- only without a pause.
moved-Agrees :
    (s : Manager) (i : ℕ) (w : Worker)
    → Agrees s
    → ((g : ℕ) → admitted w ≡ some g → (g ≡ s.global_state) ⊎ (admitted (s.workers i) ≡ some g))
    → (s.pause_snapshot ≡ true → is_committed w ≡ false)
    → Agrees (moved s i w (local_of w))
moved-Agrees s i w v a p = record {
  locals = λ j. elim (ℕ_discrete j i) [
    | yes e ↦ rw (e, put_at_self s.local_states i (local_of w), put_at_self s.workers i w) refl
    | no d ↦
        rw (put_at_other s.local_states i (local_of w) j d, put_at_other s.workers i w j d)
          (v.locals j)
  ];
  current = λ j g l h. elim (ℕ_discrete j i) [
    | yes e ↦ elim (a g (rw (e, put_at_self s.workers i w) at h)) [
      | inl now ↦ now
      | inr before ↦ v.current i g (omega (arith, e, l)) before
    ]
    | no d ↦ v.current j g l (rw (put_at_other s.workers i w j d) at h)
  ];
  near = λ j g l h. elim (ℕ_discrete j i) [
    | yes e ↦ elim (a g (rw (e, put_at_self s.workers i w) at h)) [
      | inl now ↦ inl now
      | inr before ↦ v.near i g (omega (arith, e, l)) before
    ]
    | no d ↦ v.near j g l (rw (put_at_other s.workers i w j d) at h)
  ];
  still = λ m j l. elim (ℕ_discrete j i) [
    | yes e ↦ rw (e, put_at_self s.workers i w) (p m)
    | no d ↦ rw (put_at_other s.workers i w j d) (v.still m j l)
  ];
}

admitted-local_of : (w : Worker) (g : ℕ) → admitted w ≡ some g → local_of w ≡ some g
admitted-local_of (checked h) g e = e
admitted-local_of (committed h) g e = e
admitted-local_of idle g e = none-ne-some e
admitted-local_of taken g e = none-ne-some e
admitted-local_of leaving g e = none-ne-some e
admitted-local_of (loaded h) g e = none-ne-some e
admitted-local_of (stored h) g e = none-ne-some e

no_local-is_committed : (w : Worker) → local_of w ≡ none → is_committed w ≡ false
no_local-is_committed (checked h) e = refl
no_local-is_committed (committed h) e = none-ne-some (sym e)
no_local-is_committed idle e = refl
no_local-is_committed taken e = refl
no_local-is_committed leaving e = refl
no_local-is_committed (loaded h) e = refl
no_local-is_committed (stored h) e = refl

true-ne-false : {C : Type 0} → true ≡ false → C
true-ne-false h = cc

step-Agrees : (s s' : Manager) → Step s s' → Agrees s → Agrees s'
step-Agrees s _ (Snapshot.take _ i h) v =
    moved-Agrees s i taken v (λ g e. none-ne-some e) (λ m. refl)
step-Agrees s _ (Snapshot.load _ i h) v =
    moved-Agrees s i (loaded s.global_state) v (λ g e. none-ne-some e) (λ m. refl)
step-Agrees s _ (Snapshot.store _ i g h) v =
    moved-Agrees s i (stored g) v (λ k e. none-ne-some e) (λ m. refl)
step-Agrees s _ (Snapshot.recheck _ i g h same) v =
    moved-Agrees s i (checked g) v (λ k e. inl (sym (some-injective _ _ e) ∙ same)) (λ m. refl)
step-Agrees s _ (Snapshot.recheck_fails _ i g h d) v =
    moved-Agrees s i leaving v (λ k e. none-ne-some e) (λ m. refl)
step-Agrees s _ (Snapshot.commit _ i g h free) v =
    moved-Agrees s i (committed g) v (λ k e. inr (ap admitted h ∙ e))
      (λ m. true-ne-false (sym m ∙ free))
step-Agrees s _ (Snapshot.commit_fails _ i g h p) v =
    moved-Agrees s i leaving v (λ k e. none-ne-some e) (λ m. refl)
step-Agrees s _ (Snapshot.release _ i g h) v =
    moved-Agrees s i leaving v (λ k e. none-ne-some e) (λ m. refl)
step-Agrees s _ (Snapshot.free _ i h) v =
    moved-Agrees s i idle v (λ k e. none-ne-some e) (λ m. refl)
step-Agrees s _ (Snapshot.advance _ w all e) v = record {
  locals = v.locals;
  current = λ i g l h. absurd (omega (arith, l));
  near = λ i g l h. inr (ap advance_global_state (v.current i g (omega (arith, l, all)) h) ∙ e);
  still = v.still;
}
step-Agrees s _ (Snapshot.pass _ seen) v = record {
  locals = v.locals;
  current = λ i g l h. elim (ℕ_discrete i s.passed) [
    | no d ↦ v.current i g (omega (arith, l, d)) h
    | yes e ↦
        let here = v.locals i ∙ admitted-local_of (s.workers i) g h in
        elim seen [
          | inl out ↦ none-ne-some (sym out ∙ rw e at here)
          | inr now ↦ some-injective _ _ (sym (rw e at here) ∙ now)
        ]
  ];
  near = v.near;
  still = v.still;
}
step-Agrees s _ (Snapshot.pass_fails _) v = record {
  locals = v.locals;
  current = λ i g l h. absurd (omega (arith, l));
  near = v.near;
  still = v.still;
}
step-Agrees s _ (Snapshot.pause _) v = record {
  locals = v.locals;
  current = v.current;
  near = v.near;
  still = λ m i l. absurd (omega (arith, l));
}
step-Agrees s _ (Snapshot.freeze _ out) v = record {
  locals = v.locals;
  current = v.current;
  near = v.near;
  still = λ m i l. elim (ℕ_discrete i s.frozen) [
    | no d ↦ v.still m i (omega (arith, l, d))
    | yes e ↦ no_local-is_committed (s.workers i) (sym (v.locals i) ∙ rw e out)
  ];
}
step-Agrees s _ (Snapshot.freeze_fails _) v = record {
  locals = v.locals;
  current = v.current;
  near = v.near;
  still = λ m i l. absurd (omega (arith, l));
}
step-Agrees s _ (Snapshot.unpause _) v = record {
  locals = v.locals;
  current = v.current;
  near = v.near;
  still = λ m. true-ne-false (sym m);
}

reached-Agrees : (state : ℕ) (s : Manager) → IsReachable state s → Agrees s
reached-Agrees state _ (Snapshot.start _) = record {
  locals = λ i. refl;
  current = λ i g l e. none-ne-some e;
  near = λ i g l e. none-ne-some e;
  still = λ m. true-ne-false (sym m);
}
reached-Agrees state s' (Snapshot.after _ s _ r t) = step-Agrees s s' t (reached-Agrees state s r)

-- In every state that the workers and the manager reach, a worker with a guard is in the global state or in
-- the one before it; once the manager has checked all slots for the global state every worker with a
-- guard is in it; and once it has checked all slots in a pause no worker has a guard until it ends the
-- pause.
pub guards_agree :
    (state : ℕ) (s : Manager)
    → IsReachable state s
    → (i g : ℕ) → i < slot_count
    → s.workers i ≡ committed g
    → ((g ≡ s.global_state) ⊎ (advance_global_state g ≡ some s.global_state))
      × (s.passed ≡ slot_count → g ≡ s.global_state)
      × (s.pause_snapshot ≡ true → s.frozen ≢ slot_count)
guards_agree state s r i g l c =
    let v = reached-Agrees state s r in
    let a : admitted (s.workers i) ≡ some g = ap admitted c in
    (
      v.near i g l a,
      λ all. v.current i g (omega (arith, l, all)) a,
      λ m all. true-ne-false (sym (ap is_committed c) ∙ v.still m i (omega (arith, l, all))),
    )
