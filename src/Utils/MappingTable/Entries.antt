-- ===== src/Utils/MappingTable/Entries.antt =====
-- What the ids of a table stand for after an insertion.
use native.Mathlib.Decide.{ℕ_discrete}
use native.Mathlib.Nat.{div-add-mod}
use bf_tree.Common.{
  ℕ, ◌+◌, ◌/◌, ◌%◌, ◌<◌, ◌≡◌, ◌≢◌, ◌∙◌, refl, ap, sym, inl, inr, none, some, arith, ltb, leb,
  bind-some, some-injective, subst, Bool-cases, none-ne-some,
}
use bf_tree.Common.Shift.{put_at, put_at_self, put_at_other}
use bf_tree.Utils.MappingTable.{
  MappingTable, new_batch, get, with_batch, write_record, set, insert, get_batch_id, get_record_id,
}

-- An id is its batch and its place there.
same_place : (r i j : ℕ) → j / r ≡ i / r → j % r ≡ i % r → j ≡ i
same_place r i j p q = sym (div-add-mod j r) ∙ rw (p, q) (div-add-mod i r)

module _ {ℓ} {A : Type ℓ} where
  -- Batches behind the current one are not made.
  pub record IsValid (t : MappingTable A) : Type ℓ where
    pub unmade : (b : ℕ) → t.current_initialized_batch < b → t.batches b ≡ none

  -- `t'` is `t` but for the entry of `id`, which is `entry`.
  pub record Sets (t t' : MappingTable A) (id : ℕ) (val : A) : Type ℓ where
    pub valid : IsValid t'
    pub same_size : t'.record_per_batch ≡ t.record_per_batch
    pub here : get t' id ≡ some val
    pub other : (j : ℕ) → j ≢ id → get t' j ≡ get t j

  -- A new batch changes no entry.
  with_batch_lem :
      (t t' : MappingTable A) (b : ℕ)
      → IsValid t
      → with_batch t b ≡ some t'
      → IsValid t' × (t'.record_per_batch ≡ t.record_per_batch) × ((j : ℕ) → get t' j ≡ get t j)
  unfolding with_batch get
  with_batch_lem t t' b v e = elim (Bool-cases (ltb t.current_initialized_batch b)) [
    | inr made ↦
        subst
          (λ x.
            IsValid x × (x.record_per_batch ≡ t.record_per_batch) × ((j : ℕ) → get x j ≡ get t j))
          (some-injective _ _ (rw made at e)) (v, refl, λ j. refl)
    | inl unmade ↦
        let behind : t.current_initialized_batch < b = ground arith in
        elim (Bool-cases (leb 128 b)) [
          | inl full ↦ none-ne-some (rw (unmade, full) at e)
          | inr room ↦
              subst
                (λ x.
                  IsValid x
                  × (x.record_per_batch ≡ t.record_per_batch)
                  × ((j : ℕ) → get x j ≡ get t j))
                (some-injective _ _ (rw (unmade, room) at e))
                (
                  record {
                    unmade = λ c h.
                        put_at_other t.batches b (some new_batch) c (omega arith)
                        ∙ v.unmade c (omega arith);
                  },
                  refl,
                  λ j. elim (ℕ_discrete (j / t.record_per_batch) b) [
                    | yes same ↦
                        rw
                          (
                            same,
                            put_at_self t.batches b (some (new_batch {A = A})),
                            v.unmade b behind,
                          )
                          refl
                    | no apart ↦
                        rw
                          (put_at_other t.batches b (some new_batch) (j / t.record_per_batch) apart)
                          refl
                  ],
                )
        ]
  ]

  -- The write changes the entry at its place, and no other.
  write_record_lem :
      (t t' : MappingTable A) (id : ℕ) (val : A)
      → IsValid t
      → write_record t (get_batch_id t id) (get_record_id t id) val ≡ some t'
      → Sets t t' id val
  unfolding write_record get
  write_record_lem t t' id val v e =
      let b = get_batch_id t id in
      let (batch, there, done) = bind-some (t.batches b) _ e in
      let changed = some (put_at batch (get_record_id t id) (some val)) in
      subst (λ x. Sets t x id val) (some-injective _ _ done)
        (record {
          valid = record {
            unmade = λ c h. elim (ℕ_discrete c b) [
              | yes same ↦ none-ne-some (sym (v.unmade c h) ∙ ap t.batches same ∙ there)
              | no apart ↦ put_at_other t.batches b changed c apart ∙ v.unmade c h
            ];
          };
          same_size = refl;
          here =
              rw (put_at_self t.batches b changed)
                (put_at_self batch (get_record_id t id) (some val));
          other = λ j d. elim (ℕ_discrete (get_batch_id t j) b) [
            | yes same ↦
                rw (same, put_at_self t.batches b changed, there)
                  (put_at_other batch (get_record_id t id) (some val) (get_record_id t j)
                    (λ same_record. d (same_place t.record_per_batch id j same same_record)))
            | no apart ↦ rw (put_at_other t.batches b changed (get_batch_id t j) apart) refl
          ];
        })

  -- An insertion gives the next id to the record, and changes what no other id stands for.
  pub insert-Sets :
      (t t' : MappingTable A) (val : A) (id : ℕ)
      → IsValid t
      → insert t val ≡ some (id, t')
      → (id ≡ t.next_id) × Sets t t' id val
  unfolding insert set
  insert-Sets t t' val id v e =
      let t0 = record t { next_id = t.next_id + 1 } in
      let (t2, made, pair) = bind-some (set t0 t.next_id val) _ e in
      let (t1, batch, written) = bind-some (with_batch t0 (get_batch_id t t.next_id)) _ made in
      let f =
        with_batch_lem t0 t1 (get_batch_id t t.next_id) (record { unmade = v.unmade }) batch in
      let p = some-injective _ _ pair in
      let same_id : t.next_id ≡ id = ap (λ r. r.0) p in
      let same_table : t2 ≡ t' = ap (λ r. r.1) p in
      let w = write_record_lem t1 t2 t.next_id val f.0 (rw f.1 written) in
      (
        sym same_id,
        subst (λ x. Sets t x id val) same_table
            (subst (λ i. Sets t t2 i val) same_id
              (record {
                valid = w.valid;
                same_size = w.same_size ∙ f.1;
                here = w.here;
                other = λ j d. w.other j d ∙ f.2 j ∙ (unfold get in refl);
              })),
      )
