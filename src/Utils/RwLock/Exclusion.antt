-- ===== src/Utils/RwLock/Exclusion.antt =====
-- What the word of the lock says of the guards.
use bf_tree.Common.{ℕ, ◌+◌, ◌*◌, ◌%◌, ◌≤◌, ◌<◌, ◌≡◌, ◌⊎◌, inl, inr, refl, arith, some}
use bf_tree.Utils.RwLock.{
  State, Step, read, write, wait, upgrade, drop_read, drop_write, IsReachable, start, after,
  read_exchange, write_exchange, wait_exchange, upgrade_exchange, read_release, u32_max,
}

-- Readers only, and perhaps a writer that waits; or one writer.
pub data IsConsistent (threads : ℕ) (s : State) : Type 0 where
  shared :
      s.writers ≡ 0
      → s.readers ≤ threads
      → (s.lock_val ≡ 2 * s.readers) ⊎ (s.lock_val ≡ 2 * s.readers + 1)
      → IsConsistent threads s
  exclusive : s.writers ≡ 1 → s.readers ≡ 0 → s.lock_val ≡ u32_max → IsConsistent threads s

-- An exchange takes place in the state that its guard needs, and makes the word that it says.
read_exchange_lem : (v w : ℕ) → read_exchange v ≡ some w → (v % 2 ≡ 0) × (w ≡ (v + 2) % 4294967296)
unfolding read_exchange
read_exchange_lem v w h = ground arith

write_exchange_lem : (v w : ℕ) → write_exchange v ≡ some w → (v ≤ 1) × (w ≡ u32_max)
unfolding write_exchange
write_exchange_lem v w h = ground arith

wait_exchange_lem : (v w : ℕ) → wait_exchange v ≡ some w → (1 < v) × (v % 2 ≡ 0) × (w ≡ v + 1)
unfolding wait_exchange
wait_exchange_lem v w h = ground arith

upgrade_exchange_lem : (v w : ℕ) → upgrade_exchange v ≡ some w → (v ≡ 2) × (w ≡ u32_max)
unfolding upgrade_exchange
upgrade_exchange_lem v w h = ground arith

module _ (threads : ℕ) (few : threads < 2147483647) where
  Step-IsConsistent :
      {s s' : State} → IsConsistent threads s → Step threads s s' → IsConsistent threads s'
  unfolding read_release
  Step-IsConsistent (shared w r v) (read s x room e) =
      let f = read_exchange_lem s.lock_val x e in
      shared w (omega arith)
        (elim v [ inl a ↦ inl (omega (arith, f.0, f.1)) | inr a ↦ absurd (omega (arith, f.0)) ])
  Step-IsConsistent (exclusive w r v) (read s x room e) =
      absurd (omega (arith, (read_exchange_lem s.lock_val x e).0))
  Step-IsConsistent (shared w r v) (write s x room e) =
      let f = write_exchange_lem s.lock_val x e in
      elim v [
        | inl a ↦ exclusive (omega arith) (omega (arith, f.0)) f.1
        | inr a ↦ exclusive (omega arith) (omega (arith, f.0)) f.1
      ]
  Step-IsConsistent (exclusive w r v) (write s x room e) =
      absurd (omega (arith, (write_exchange_lem s.lock_val x e).0))
  Step-IsConsistent (shared w r v) (wait s x e) =
      let f = wait_exchange_lem s.lock_val x e in
      shared w r (elim v [ inl a ↦ inr (omega (arith, f.2)) | inr a ↦ absurd (omega (arith, f.1)) ])
  Step-IsConsistent (exclusive w r v) (wait s x e) =
      absurd (omega (arith, (wait_exchange_lem s.lock_val x e).1))
  Step-IsConsistent (shared w r v) (upgrade s x h e) =
      let f = upgrade_exchange_lem s.lock_val x e in
      elim v [
        | inl a ↦ exclusive (omega arith) (omega (arith, f.0)) f.1
        | inr a ↦ absurd (omega (arith, f.0))
      ]
  Step-IsConsistent (exclusive w r v) (upgrade s x h e) = absurd (omega arith)
  Step-IsConsistent (shared w r v) (drop_read s h) =
      shared w (omega arith) (elim v [ inl a ↦ inl (omega arith) | inr a ↦ inr (omega arith) ])
  Step-IsConsistent (exclusive w r v) (drop_read s h) = absurd (omega arith)
  Step-IsConsistent (shared w r v) (drop_write s h) = absurd (omega arith)
  Step-IsConsistent (exclusive w r v) (drop_write s h) =
      shared (omega arith) (omega arith) (inl (omega arith))

  IsReachable-IsConsistent : {s : State} → IsReachable threads s → IsConsistent threads s
  IsReachable-IsConsistent start = shared refl (omega arith) (inl refl)
  IsReachable-IsConsistent (after r t) = Step-IsConsistent (IsReachable-IsConsistent r) t

  -- With fewer than 2 ^ 31 - 1 threads there is at every time at most one writer, and no reader beside
  -- it.
  pub mutual_exclusion :
      (s : State) → IsReachable threads s → (s.writers ≤ 1) × (0 < s.writers → s.readers ≡ 0)
  mutual_exclusion s r = elim (IsReachable-IsConsistent r) [
    | shared w k v ↦ (omega arith, λ h. absurd (omega arith))
    | exclusive w k v ↦ (omega arith, λ h. k)
  ]

  -- A lock that nobody holds admits a writer, whatever has waited before; and a reader upgrades only
  -- if it is the only one that holds the lock.
  pub writer_admitted :
      (s : State)
      → IsReachable threads s
      → (s.readers ≡ 0 → s.writers ≡ 0 → write_exchange s.lock_val ≡ some u32_max)
        × (upgrade_exchange s.lock_val ≡ some u32_max → (s.readers ≡ 1) × (s.writers ≡ 0))
  unfolding write_exchange upgrade_exchange
  writer_admitted s r = elim (IsReachable-IsConsistent r) [
    | shared w k (inl v) ↦ (λ a b. ground (arith, a, v), λ h. ground (arith, w, v))
    | shared w k (inr v) ↦ (λ a b. ground (arith, a, v), λ h. ground (arith, w, v))
    | exclusive w k v ↦ (λ a b. absurd (omega arith), λ h. ground (arith, v))
  ]
