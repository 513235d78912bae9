-- ===== src/Store/Keys.antt =====
-- The checks of an insertion, the replaced row and the new row's key.
use agos_memory.Base.{
  ℕ, ◌+◌, ◌<◌, ◌≡◌, ◌≢◌, refl, sym, ◌∙◌, ap, subst, arith, Bool, true, false, not, Option, none,
  some, ◌==◌, length, ◌⊎◌, inl, inr,
}
use agos_memory.Store.{Config, Tables, Faults, sqlite_error}
use agos_memory.Store.Steps.{column_size, for_columns, is_row, vec0_get_chunk_position}
use agos_memory.Store.Insert.{
  VectorValue, IdValue, id_null, id_integer, id_other, Insertion, same_type, check_vector,
  row_exists, delete_if, replace_existing,
}
use agos_memory.Store.Maps.{apart_test}
use agos_memory.Store.Outcome.{Ends, Ends-resume, Ends-for_columns, Ends-imp}
use agos_memory.Store.Rules.{after_if, after_row, last_if}
use agos_memory.Store.Invariant.{IsConfig, IsStore, find}
use agos_memory.Store.Reclaim.{Removes, vec0_update_delete-Removes}

-- The vector is one that the column takes, with as many bytes as it says.
pub record Fits (p : Config) (value : Option VectorValue) (i : ℕ) : Type 0 where
  pub vector : VectorValue
  pub given : value ≡ some vector
  pub typed : same_type vector.element_type (p.vector_columns i).element_type ≡ true
  pub dimensioned : vector.dimensions ≡ (p.vector_columns i).dimensions
  pub whole : length vector.data_bytes ≡ column_size p i

-- The row gives every column its vector, and the hidden columns nothing.
pub record IsAccepted (p : Config) (row : Insertion) : Type 0 where
  pub fits : (i : ℕ) → i < p.num_vector_columns → Fits p (row.vectors i) i
  pub no_distance : row.has_distance ≡ false
  pub no_k : row.has_k ≡ false

-- The key that the row gets: the next one, or one that no row has, or with REPLACE that of a row.
abbrev pub IsKey : Tables → Bool → IdValue → ℕ → Type 0
IsKey t replace id_null rowid = rowid ≡ t.rowid_sequence + 1
IsKey t false (id_integer id) rowid = (rowid ≡ id) × (t.rowids rowid ≡ none)
IsKey t true (id_integer id) rowid =
    (rowid ≡ id)
    × ((t.rowids rowid ≡ none) ⊎ ((c : ℕ) × (o : ℕ) × (t.rowids rowid ≡ some (some (c, o)))))
IsKey t replace id_other rowid = ⊥

pub record Cleared (p : Config) (id : IdValue) (rowid : ℕ) (t u : Tables) : Type 0 where
  pub store : IsStore p u
  pub key : IsKey u false id rowid
  pub rows : (r : ℕ) → r ≢ rowid → u.rowids r ≡ t.rowids r
  pub finds : (i r : ℕ) → i < p.num_vector_columns → r ≢ rowid → find p u i r ≡ find p t i r

true_ne_false : true ≡ false → ⊥
true_ne_false e = ground arith

module _ (p : Config) (faults : Faults) where
  pub check_vectors-Ends :
      (row : Insertion) (t : Tables) (k : ℕ)
      → IsAccepted p row
      → Ends faults
          (λ _ u. u ≡ t)
          (for_columns (check_vector p faults row.vectors) p.num_vector_columns 0 t k)
  unfolding check_vector
  check_vectors-Ends row t k a =
      Ends-for_columns faults (λ _ u. u ≡ t) (check_vector p faults row.vectors)
        p.num_vector_columns
        (λ i u k' l h.
          let f = a.fits i l in
          after_row p faults _ _ sqlite_error (row.vectors i) f.vector u k' f.given (
            after_if p faults _ _
              (not (same_type f.vector.element_type (p.vector_columns i).element_type)) sqlite_error
              u _ (ap not f.typed)
              (last_if faults _ (not (f.vector.dimensions == (p.vector_columns i).dimensions))
                sqlite_error u _ (ground (arith, f.dimensioned)) h)))
        p.num_vector_columns 0 t k (omega arith) refl

  row_exists-Ends :
      (rowid : ℕ) (t : Tables) (k : ℕ)
      → Ends faults
          (λ b u. (b ≡ is_row (t.rowids rowid)) × (u ≡ t))
          (row_exists (vec0_get_chunk_position p faults rowid t k))
  unfolding row_exists vec0_get_chunk_position
  row_exists-Ends rowid t k = first (faults k) refl
    where
      found :
          (row : Option (Option (ℕ × ℕ)))
          → t.rowids rowid ≡ row
          → faults k ≡ false
          → faults (k + 1) ≡ false
          → Ends faults
              (λ b u. (b ≡ is_row (t.rowids rowid)) × (u ≡ t))
              (row_exists (vec0_get_chunk_position p faults rowid t k))
      found none e g1 g2 = rw (g1, g2, e) (sym (ap is_row e), refl)
      found (some place) e g1 g2 = rw (g1, g2, e) (sym (ap is_row e), refl)

      second :
          (b : Bool)
          → faults (k + 1) ≡ b
          → faults k ≡ false
          → Ends faults
              (λ b u. (b ≡ is_row (t.rowids rowid)) × (u ≡ t))
              (row_exists (vec0_get_chunk_position p faults rowid t k))
      second true g g1 = rw (g1, g) (k + 1, g, omega arith)
      second false g g1 = found (t.rowids rowid) refl g1 g

      first :
          (b : Bool)
          → faults k ≡ b
          → Ends faults
              (λ b u. (b ≡ is_row (t.rowids rowid)) × (u ≡ t))
              (row_exists (vec0_get_chunk_position p faults rowid t k))
      first true g = rw g (k, g, omega arith)
      first false g = second (faults (k + 1)) refl g

  module _ (w : IsConfig p) (t : Tables) (st : IsStore p t) where
    unchanged : (id : IdValue) (rowid : ℕ) → IsKey t false id rowid → Cleared p id rowid t t
    unchanged id rowid key = record {
      store = st;
      key = key;
      rows = λ r d. refl;
      finds = λ i r l d. refl;
    }

    removed_key :
        (rowid : ℕ) (u : Tables) → Removes p rowid t u → Cleared p (id_integer rowid) rowid t u
    removed_key rowid u r = record {
      store = r.store;
      key = (refl, r.gone);
      rows = r.rows;
      finds = λ i q l d. r.finds i q l ∙ rw (apart_test q rowid d) refl;
    }

    delete_if-Cleared :
        (rowid : ℕ) (b : Bool) (k : ℕ)
        → b ≡ is_row (t.rowids rowid)
        → ((t.rowids rowid ≡ none) ⊎ ((c : ℕ) × (o : ℕ) × (t.rowids rowid ≡ some (some (c, o)))))
        → Ends faults
            (λ _ u. Cleared p (id_integer rowid) rowid t u)
            (delete_if p faults rowid b t k)
    delete_if-Cleared rowid true k e (inl g) = absurd (true_ne_false (e ∙ ap is_row g))
    delete_if-Cleared rowid true k e (inr (c, o, g)) =
        Ends-imp faults (λ _ u. Removes p rowid t u) _ (delete_if p faults rowid true t k)
          (λ _ u r. removed_key rowid u r)
          (vec0_update_delete-Removes p faults t w st rowid c o k g)
    delete_if-Cleared rowid false k e (inl g) = unchanged (id_integer rowid) rowid (refl, g)
    delete_if-Cleared rowid false k e (inr (c, o, g)) =
        absurd (true_ne_false (sym (e ∙ ap is_row g)))

    -- With REPLACE a row of the key goes, and no other row changes; without it nothing does.
    pub replace_existing-Cleared :
        (replace : Bool) (id : IdValue) (rowid k : ℕ)
        → IsKey t replace id rowid
        → Ends faults (λ _ u. Cleared p id rowid t u) (replace_existing p faults replace id t k)
    unfolding replace_existing
    replace_existing-Cleared true id_null rowid k key = unchanged id_null rowid key
    replace_existing-Cleared false id_null rowid k key = unchanged id_null rowid key
    replace_existing-Cleared replace id_other rowid k key = elim key [ ]
    replace_existing-Cleared false (id_integer id) rowid k key = unchanged (id_integer id) rowid key
    replace_existing-Cleared true (id_integer id) rowid k (same, h) =
        subst
          (λ x.
            Ends faults (λ _ u. Cleared p (id_integer x) rowid t u)
              (replace_existing p faults true (id_integer x) t k))
          same
          (Ends-resume faults (λ b u. (b ≡ is_row (t.rowids rowid)) × (u ≡ t)) _ _
            (row_exists (vec0_get_chunk_position p faults rowid t k)) (row_exists-Ends rowid t k)
            (λ b u k' r.
              subst
                (λ v.
                  Ends faults (λ _ u. Cleared p (id_integer rowid) rowid t u)
                    (delete_if p faults rowid b v k'))
                (sym r.1) (delete_if-Cleared rowid b k' r.0 h)))
