-- ===== src/Store/Changed.antt =====
-- What an update that succeeds tells of its row and values.
use agos_memory.Base.{
  ℕ, zero, suc, ◌+◌, ◌≤◌, ◌<◌, ◌≡◌, refl, sym, ◌∙◌, ap, subst, arith, Bool, true, false, Option,
  none, some, ◌==◌, inl, inr, Bool-cases,
}
use agos_memory.Store.{
  Config, Tables, Result, ok, err, Call, resume, Faults, sqlite_error, sqlite_empty,
}
use agos_memory.Store.Steps.{for_columns, vec0_get_chunk_position}
use agos_memory.Store.Insert.{VectorValue, same_type}
use agos_memory.Store.Update.{vec0_update_update_vector_column, update_column, vec0_update_update}
use agos_memory.Store.UpdateLaws.{FitsIfGiven}
use agos_memory.Store.Maps.{same_or_apart}
use agos_memory.Store.Refusals.{Refuses-resume, accepts, vec0_get_chunk_position-Refuses}
use agos_memory.Store.History.{WholeValues, err-ne-ok, Refuses-ok, accepts-Fits}

-- A sequence that succeeds starts with a call that does.
resume-ok :
    {A B : Type 0} (f : A → Call B) (b : B) (r : Result A × Tables × ℕ)
    → (resume f r).0 ≡ ok b
    → (a : A) × (r.0 ≡ ok a) × ((f a r.1 r.2).0 ≡ ok b)
resume-ok f b (ok a, t, k) e = (a, refl, e)
resume-ok f b (err c, t, k) e = absurd (err-ne-ok c b e)

-- Every round of a loop that succeeds has.
rounds-ok :
    (body : ℕ → Call (Unit {0})) (left i j : ℕ) (t : Tables) (k : ℕ)
    → (for_columns body left i t k).0 ≡ ok tt
    → i ≤ j
    → j < i + left
    → (u : Tables) × (n : ℕ) × ((body j u n).0 ≡ ok tt)
unfolding for_columns
rounds-ok body zero i j t k e l r = absurd (omega arith)
rounds-ok body (suc left) i j t k e l r =
    let (a, first, rest) = resume-ok (λ _. for_columns body left (i + 1)) tt (body i t k) e in
    elim (same_or_apart i j) [
      | inl same ↦ (t, k, subst (λ x. (body x t k).0 ≡ ok tt) same first)
      | inr d ↦
          rounds-ok body left (i + 1) j (body i t k).1 (body i t k).2 rest (ground (arith, d))
            (omega arith)
    ]

module _ (p : Config) (faults : Faults) where
  column_refused :
      (c o i : ℕ) (value : Option VectorValue) (t : Tables) (k : ℕ)
      → accepts (p.vector_columns i) value ≡ false
      → (update_column p faults c o i (some value) t k).0 ≡ err sqlite_error
  unfolding update_column vec0_update_update_vector_column accepts
  column_refused c o i none t k e = refl
  column_refused c o i (some v) t k e =
      typed (same_type v.element_type (p.vector_columns i).element_type)
        (v.dimensions == (p.vector_columns i).dimensions) refl refl
    where
      typed :
          (b d : Bool)
          → same_type v.element_type (p.vector_columns i).element_type ≡ b
          → (v.dimensions == (p.vector_columns i).dimensions) ≡ d
          → (update_column p faults c o i (some (some v)) t k).0 ≡ err sqlite_error
      typed false d g h = rw g refl
      typed true false g h = rw (g, h) refl
      typed true true g h = ground (arith, e, g, h)

  module _ (rowid : ℕ) (values : ℕ → Option (Option VectorValue)) (t : Tables) (k : ℕ)
      (e : (vec0_update_update p faults rowid values t k).0 ≡ ok tt) where
    pub change-row : t.rowids rowid ≡ none → ⊥
    unfolding vec0_update_update
    change-row g =
        Refuses-ok faults sqlite_empty t tt (vec0_update_update p faults rowid values t k) e (
          Refuses-resume faults sqlite_empty _ t (vec0_get_chunk_position p faults rowid t k)
            (vec0_get_chunk_position-Refuses p faults rowid t k g))

    accepted :
        (j : ℕ) (value : Option VectorValue)
        → j < p.num_vector_columns
        → values j ≡ some value
        → accepts (p.vector_columns j) value ≡ true
    unfolding vec0_update_update
    accepted j value l g =
        let (place, first, rest) =
          resume-ok
            (λ position.
              for_columns (λ i. update_column p faults position.0 position.1 i (values i))
                p.num_vector_columns 0)
            tt (vec0_get_chunk_position p faults rowid t k) e in
        let (u, n, done) =
          rounds-ok (λ i. update_column p faults place.0 place.1 i (values i)) p.num_vector_columns
            0 j _ _ rest (omega arith) (omega arith) in
        elim (Bool-cases (accepts (p.vector_columns j) value)) [
          | inl h ↦ h
          | inr h ↦ absurd (
              err-ne-ok sqlite_error tt (
                sym (column_refused place.0 place.1 j value u n h)
                ∙ subst (λ x. (update_column p faults place.0 place.1 j x u n).0 ≡ ok tt) g done))
        ]

    pub change-FitsIfGiven :
        WholeValues values → (j : ℕ) → j < p.num_vector_columns → FitsIfGiven p (values j) j
    change-FitsIfGiven whole j l = given (values j) refl
      where
        given : (value : Option (Option VectorValue)) → values j ≡ value → FitsIfGiven p value j
        given none g = tt
        given (some value) g =
            accepts-Fits p value j (accepted j value l g) (λ v h. whole j v (g ∙ ap some h))
