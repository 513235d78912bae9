-- ===== src/Store/Refusals.antt =====
-- Insertions and deletions that are refused.
use agos_memory.Base.{
  ℕ, zero, suc, ◌+◌, ◌≤◌, ◌<◌, ◌≡◌, refl, ap, arith, Bool, true, false, ◌&&◌, Option, none, some,
  if◌then◌else◌, ◌==◌, inl, inr, ◌⊎◌, ◌≢◌,
}
use agos_memory.Store.{
  VectorColumn, Config, Tables, Code, sqlite_error, sqlite_empty, sqlite_code, Result, ok, err,
  Call, resume, Faults, attempt,
}
use agos_memory.Store.Steps.{for_columns, vec0_get_chunk_position, vec0_rowids_insert_rowid}
use agos_memory.Store.Insert.{
  VectorValue, id_integer, Insertion, same_type, check_vector, replace_existing,
  vec0_update_insert_rowid_step, vec0_update_insert,
}
use agos_memory.Store.Maps.{same_or_apart}
use agos_memory.Store.Delete.{vec0_update_delete}

-- The call fails, with the code unless something it called has failed, and the tables are as before.
abbrev pub Refuses : {A : Type 0} → Faults → Code → Tables → Result A × Tables × ℕ → Type 0
Refuses faults c t (ok a, u, k) = ⊥
Refuses faults c t (err d, u, k) = (u ≡ t) × ((d ≡ c) ⊎ ((n : ℕ) × (faults n ≡ true) × (n < k)))

Refuses-attempt :
    {B : Type 0} (faults : Faults) (c d : Code) (f : Unit {0} → Call B) (t : Tables) (k : ℕ)
    → Refuses faults c t (f tt t (k + 1))
    → Refuses faults c t (resume f (attempt faults d t k))
Refuses-attempt faults c d f t k h = choose (faults k) refl
  where
    choose : (b : Bool) → faults k ≡ b → Refuses faults c t (resume f (attempt faults d t k))
    choose true e = rw e (refl, inr (k, e, omega arith))
    choose false e = rw e h

-- What a call refuses the calls after it do not see.
pub Refuses-resume :
    {A B : Type 0} (faults : Faults) (c : Code) (f : A → Call B) (t : Tables)
    (r : Result A × Tables × ℕ)
    → Refuses faults c t r
    → Refuses faults c t (resume f r)
Refuses-resume faults c f t (ok a, u, k) h = absurd h
Refuses-resume faults c f t (err d, u, k) h = h

-- What the checks of a column ask of the value given for it.
unfoldable pub accepts : VectorColumn → Option VectorValue → Bool
accepts column none = false
accepts column (some v) =
    same_type v.element_type column.element_type && v.dimensions == column.dimensions

module _ (p : Config) (faults : Faults) where
  pub vec0_get_chunk_position-Refuses :
      (rowid : ℕ) (t : Tables) (k : ℕ)
      → t.rowids rowid ≡ none
      → Refuses faults sqlite_empty t (vec0_get_chunk_position p faults rowid t k)
  unfolding vec0_get_chunk_position
  vec0_get_chunk_position-Refuses rowid t k e =
      Refuses-attempt faults sqlite_empty sqlite_code _ t k
        (Refuses-attempt faults sqlite_empty sqlite_code _ t (k + 1) (rw e (refl, inl refl)))

  -- Deleting a row that is not there.
  pub vec0_update_delete-Refuses :
      (rowid : ℕ) (t : Tables) (k : ℕ)
      → t.rowids rowid ≡ none
      → Refuses faults sqlite_empty t (vec0_update_delete p faults rowid t k)
  unfolding vec0_update_delete
  vec0_update_delete-Refuses rowid t k e =
      Refuses-resume faults sqlite_empty _ t (vec0_get_chunk_position p faults rowid t k)
        (vec0_get_chunk_position-Refuses rowid t k e)

  check_vector-accepts :
      (values : ℕ → Option VectorValue) (i : ℕ) (t : Tables) (k : ℕ)
      → check_vector p faults values i t k ≡ (
          if accepts (p.vector_columns i) (values i)
          then (ok tt, t, k)
          else (err sqlite_error, t, k))
  unfolding check_vector accepts
  check_vector-accepts values i t k = given (values i) refl
    where
      typed :
          (v : VectorValue) (b d : Bool)
          → same_type v.element_type (p.vector_columns i).element_type ≡ b
          → (v.dimensions == (p.vector_columns i).dimensions) ≡ d
          → values i ≡ some v
          → check_vector p faults values i t k ≡ (
              if accepts (p.vector_columns i) (values i)
              then (ok tt, t, k)
              else (err sqlite_error, t, k))
      typed v true true g h e = rw (e, g, h) refl
      typed v true false g h e = rw (e, g, h) refl
      typed v false d g h e = rw (e, g) refl

      given :
          (value : Option VectorValue)
          → values i ≡ value
          → check_vector p faults values i t k ≡ (
              if accepts (p.vector_columns i) (values i)
              then (ok tt, t, k)
              else (err sqlite_error, t, k))
      given none e = rw e refl
      given (some v) e =
          typed v (same_type v.element_type (p.vector_columns i).element_type)
            (v.dimensions == (p.vector_columns i).dimensions) refl refl e

  check_vectors-refused :
      (values : ℕ → Option VectorValue) (left i j : ℕ) (t : Tables) (k : ℕ)
      → i ≤ j
      → j < i + left
      → accepts (p.vector_columns j) (values j) ≡ false
      → for_columns (check_vector p faults values) left i t k ≡ (err sqlite_error, t, k)
  unfolding for_columns
  check_vectors-refused values zero i j t k l r e = absurd (omega arith)
  check_vectors-refused values (suc left) i j t k l r e =
      round (accepts (p.vector_columns i) (values i)) refl
        (λ l'. check_vectors-refused values left (i + 1) j t k l' (omega arith) e)
    where
      round :
          (b : Bool)
          → accepts (p.vector_columns i) (values i) ≡ b
          → (i + 1 ≤ j
              → for_columns (check_vector p faults values) left (i + 1) t k
                ≡ (err sqlite_error, t, k))
          → resume
              (λ _. for_columns (check_vector p faults values) left (i + 1))
              (check_vector p faults values i t k)
            ≡ (err sqlite_error, t, k)
      round false g next = rw (check_vector-accepts values i t k, g) refl
      round true g next =
          rw (check_vector-accepts values i t k, g) (next (further (same_or_apart i j)))
        where
          further : (i ≡ j) ⊎ (i ≢ j) → i + 1 ≤ j
          further (inl same) =
              ground (arith, g, e, ap (λ x. accepts (p.vector_columns x) (values x)) same)
          further (inr d) = ground (arith, d)

  -- An INSERT fails with SQLITE_ERROR and changes nothing, before any call of SQLite, when the value for some
  -- column is no vector or one of another element type or number of dimensions.
  pub vec0_update_insert-refused :
      (row : Insertion) (j : ℕ) (t : Tables) (k : ℕ)
      → j < p.num_vector_columns
      → accepts (p.vector_columns j) (row.vectors j) ≡ false
      → vec0_update_insert p faults row t k ≡ (err sqlite_error, t, k)
  unfolding vec0_update_insert
  vec0_update_insert-refused row j t k l e =
      rw
        (check_vectors-refused row.vectors p.num_vector_columns 0 j t k (omega arith) (omega arith)
          e)
        refl

  pub check_vectors-accepted :
      (values : ℕ → Option VectorValue) (left i : ℕ) (t : Tables) (k : ℕ)
      → ((j : ℕ) → j < i + left → accepts (p.vector_columns j) (values j) ≡ true)
      → for_columns (check_vector p faults values) left i t k ≡ (ok tt, t, k)
  unfolding for_columns
  check_vectors-accepted values zero i t k h = refl
  check_vectors-accepted values (suc left) i t k h =
      rw (check_vector-accepts values i t k, h i (omega arith))
        (check_vectors-accepted values left (i + 1) t k (λ j l. h j (omega arith)))

  vec0_rowids_insert_rowid-Refuses :
      (rowid : ℕ) (place : Option (ℕ × ℕ)) (t : Tables) (k : ℕ)
      → t.rowids rowid ≡ some place
      → Refuses faults sqlite_error t (vec0_rowids_insert_rowid p faults rowid t k)
  unfolding vec0_rowids_insert_rowid
  vec0_rowids_insert_rowid-Refuses rowid place t k e =
      Refuses-attempt faults sqlite_error sqlite_code _ t k (rw e (refl, inl refl))

  -- Without REPLACE an INSERT of accepted vectors with the key of a row fails and changes nothing; the
  -- code is SQLITE_ERROR unless a call made before has failed.
  pub vec0_update_insert-Refuses :
      (row : Insertion) (rowid : ℕ) (place : Option (ℕ × ℕ)) (t : Tables) (k : ℕ)
      → ((j : ℕ) → j < p.num_vector_columns → accepts (p.vector_columns j) (row.vectors j) ≡ true)
      → row.replace ≡ false
      → row.id ≡ id_integer rowid
      → t.rowids rowid ≡ some place
      → Refuses faults sqlite_error t (vec0_update_insert p faults row t k)
  unfolding vec0_update_insert replace_existing vec0_update_insert_rowid_step
  vec0_update_insert-Refuses row rowid place t k h q e g =
      hidden row.has_distance row.has_k refl refl
    where
      checked :
          for_columns (check_vector p faults row.vectors) p.num_vector_columns 0 t k ≡ (ok tt, t, k)
      checked =
          check_vectors-accepted row.vectors p.num_vector_columns 0 t k (λ j l. h j (omega arith))

      hidden :
          (b d : Bool)
          → row.has_distance ≡ b
          → row.has_k ≡ d
          → Refuses faults sqlite_error t (vec0_update_insert p faults row t k)
      hidden true d x y = rw (checked, x) (refl, inl refl)
      hidden false true x y = rw (checked, x, y) (refl, inl refl)
      hidden false false x y =
          rw (checked, x, y, q, e)
            (Refuses-resume faults sqlite_error _ t _ (
              Refuses-resume faults sqlite_error _ t (vec0_rowids_insert_rowid p faults rowid t k)
                (vec0_rowids_insert_rowid-Refuses rowid place t k g)))
