-- ===== src/Store/Inserted.antt =====
-- What an insertion that succeeds tells of its row.
use agos_memory.Base.{
  ℕ, ◌+◌, ◌<◌, ◌≡◌, refl, sym, ◌∙◌, ap, arith, Bool, true, false, Option, none, some, inl, inr,
  Bool-cases,
}
use agos_memory.Store.{Config, Tables, ok, err, Faults, sqlite_error}
use agos_memory.Store.Steps.{for_columns}
use agos_memory.Store.Insert.{
  IdValue, id_null, id_integer, id_other, Insertion, check_vector, replace_existing,
  vec0_update_insert_rowid_step, vec0_update_insert,
}
use agos_memory.Store.Keys.{IsAccepted, IsKey}
use agos_memory.Store.Refusals.{
  accepts, vec0_update_insert-refused, vec0_update_insert-Refuses, check_vectors-accepted,
}
use agos_memory.Store.History.{Whole, Placed, err-ne-ok, Refuses-ok, accepts-Fits}

module _ (p : Config) (faults : Faults) (row : Insertion) (t : Tables) (k got : ℕ)
    (e : (vec0_update_insert p faults row t k).0 ≡ ok got) where
  accepted :
      (j : ℕ) → j < p.num_vector_columns → accepts (p.vector_columns j) (row.vectors j) ≡ true
  accepted j l = elim (Bool-cases (accepts (p.vector_columns j) (row.vectors j))) [
    | inl h ↦ h
    | inr h ↦ absurd (
        err-ne-ok sqlite_error got
          (sym (ap (λ r. r.0) (vec0_update_insert-refused p faults row j t k l h)) ∙ e))
  ]

  checked :
      for_columns (check_vector p faults row.vectors) p.num_vector_columns 0 t k ≡ (ok tt, t, k)
  checked =
      check_vectors-accepted p faults row.vectors p.num_vector_columns 0 t k
        (λ j l. accepted j (omega arith))

  no_distance : row.has_distance ≡ false
  unfolding vec0_update_insert
  no_distance = elim (Bool-cases row.has_distance) [
    | inl h ↦ absurd (err-ne-ok sqlite_error got (sym (ap (λ r. r.0) (raised h)) ∙ e))
    | inr h ↦ h
  ]
    where
      raised :
          row.has_distance ≡ true → vec0_update_insert p faults row t k ≡ (err sqlite_error, t, k)
      raised h = rw (checked, h) refl

  no_k : row.has_k ≡ false
  unfolding vec0_update_insert
  no_k = elim (Bool-cases row.has_k) [
    | inl h ↦ absurd (err-ne-ok sqlite_error got (sym (ap (λ r. r.0) (raised h)) ∙ e))
    | inr h ↦ h
  ]
    where
      raised : row.has_k ≡ true → vec0_update_insert p faults row t k ≡ (err sqlite_error, t, k)
      raised h = rw (checked, no_distance, h) refl

  pub insert-IsAccepted : Whole row → IsAccepted p row
  insert-IsAccepted whole = record {
    fits = λ i l. accepts-Fits p (row.vectors i) i (accepted i l) (whole i);
    no_distance = no_distance;
    no_k = no_k;
  }

  not_other : row.id ≡ id_other → ⊥
  unfolding vec0_update_insert replace_existing vec0_update_insert_rowid_step
  not_other h =
      absurd (err-ne-ok sqlite_error got (sym (ap (λ r. r.0) (raised row.replace refl)) ∙ e))
    where
      raised :
          (b : Bool)
          → row.replace ≡ b
          → vec0_update_insert p faults row t k ≡ (err sqlite_error, t, k)
      raised true q = rw (checked, no_distance, no_k, q, h) refl
      raised false q = rw (checked, no_distance, no_k, q, h) refl

  pub insert-IsKey : Placed t → (rowid : ℕ) × IsKey t row.replace row.id rowid
  insert-IsKey placed = by_id row.id row.replace refl refl
    where
      by_row :
          (id : ℕ) (place : Option (Option (ℕ × ℕ)))
          → t.rowids id ≡ place
          → IsKey t true (id_integer id) id
      by_row id none g = (refl, inl g)
      by_row id (some none) g = absurd (placed id g)
      by_row id (some (some (c, o))) g = (refl, inr (c, o, g))

      absent :
          (id : ℕ) (place : Option (Option (ℕ × ℕ)))
          → row.id ≡ id_integer id
          → row.replace ≡ false
          → t.rowids id ≡ place
          → IsKey t false (id_integer id) id
      absent id none h q g = (refl, g)
      absent id (some place) h q g = absurd (
          Refuses-ok faults sqlite_error t got (vec0_update_insert p faults row t k) e
            (vec0_update_insert-Refuses p faults row id place t k accepted q h g))

      by_id :
          (id : IdValue) (b : Bool)
          → row.id ≡ id
          → row.replace ≡ b
          → (rowid : ℕ) × IsKey t b id rowid
      by_id id_null b h q = (t.rowid_sequence + 1, refl)
      by_id (id_integer id) true h q = (id, by_row id (t.rowids id) refl)
      by_id (id_integer id) false h q = (id, absent id (t.rowids id) h q refl)
      by_id id_other b h q = absurd (not_other h)
