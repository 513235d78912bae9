-- ===== src/Store/Reached.antt =====
-- The tables that statements reach.
use agos_memory.Base.{
  ℕ, ◌<◌, ◌≡◌, refl, sym, ◌∙◌, ap, subst, Option, none, some, if◌then◌else◌, ◌==◌, List, inl, inr,
}
use mathlib.Core.Option.{some-injective, none-ne-some}
use agos_memory.Store.{Config, Tables, ok, Faults, sqlite_empty}
use agos_memory.Store.Insert.{VectorValue, Insertion, data_of, vec0_update_insert}
use agos_memory.Store.Delete.{vec0_update_delete}
use agos_memory.Store.Maps.{same_or_apart}
use agos_memory.Store.Invariant.{IsConfig, IsStore, find}
use agos_memory.Store.Reclaim.{Removes, vec0_update_delete-Removes}
use agos_memory.Store.Adds.{Adds, vec0_update_insert-Adds}
use agos_memory.Store.Refusals.{vec0_update_delete-Refuses}
use agos_memory.Store.Update.{vec0_update_update}
use agos_memory.Store.UpdateLaws.{updated}
use agos_memory.Store.Updates.{SetsVectors, vec0_update_update-SetsVectors}
use agos_memory.Store.Changed.{change-row, change-FitsIfGiven}
use agos_memory.Store.History.{
  change, WholeValues, Whole, Placed, empty_tables, Reaches, start, insert, delete, Ends-ok,
  Refuses-ok,
}
use agos_memory.Store.Inserted.{insert-IsAccepted, insert-IsKey}

-- What holds of reached tables.
pub record Stands (p : Config) (t : Tables) (m : ℕ → ℕ → Option (List ℕ)) : Type 0 where
  pub store : IsStore p t
  pub placed : Placed t
  pub finds : (i r : ℕ) → i < p.num_vector_columns → find p t i r ≡ m i r

pub empty-Stands : (p : Config) → Stands p empty_tables (λ _ _. none)
unfolding find
empty-Stands p = record {
  store = record {
    shape = record {
      sized = λ c chunk e. absurd (none-ne-some chunk e);
      stored = λ c chunk e. absurd (none-ne-some chunk e);
      numbered = λ c chunk e. absurd (none-ne-some chunk e);
      stray = λ c i e l. refl;
    };
    slot_of = λ r c o e. absurd (none-ne-some (some (c, o)) e);
    row_of = λ c o chunk e. absurd (none-ne-some chunk e);
    counted = λ r place e. absurd (none-ne-some place e);
  };
  placed = λ r e. none-ne-some none e;
  finds = λ i r l. refl;
}

module _ (p : Config) (faults : Faults) (w : IsConfig p) where
  inserted-Stands :
      (t : Tables) (m : ℕ → ℕ → Option (List ℕ)) (row : Insertion) (got k : ℕ)
      → Stands p t m
      → Whole row
      → (vec0_update_insert p faults row t k).0 ≡ ok got
      → Stands p
          (vec0_update_insert p faults row t k).1
          (λ i r. if r == got then some (data_of (row.vectors i)) else m i r)
  inserted-Stands t m row got k st whole e =
      let (rowid, key) = insert-IsKey p faults row t k got e st.placed in
      let done =
        Ends-ok faults (λ r u. (r ≡ rowid) × Adds p row rowid t u) got
          (vec0_update_insert p faults row t k) e
          (vec0_update_insert-Adds p w row (insert-IsAccepted p faults row t k got e whole) faults t
            st.store rowid k key) in
      stands (vec0_update_insert p faults row t k).1
        (subst (λ x. Adds p row x t (vec0_update_insert p faults row t k).1) (sym done.0) done.1)
    where
      stands :
          (u : Tables)
          → Adds p row got t u
          → Stands p u (λ i r. if r == got then some (data_of (row.vectors i)) else m i r)
      stands u added = record {
        store = added.store;
        placed = λ r h. elim (same_or_apart r got) [
          | inl same ↦ none-ne-some added.place (
              some-injective none (some added.place)
                (sym (subst (λ x. u.rowids x ≡ some none) same h) ∙ added.placed))
          | inr d ↦ st.placed r (sym (added.rows r d) ∙ h)
        ];
        finds = λ i r l.
            added.finds i r l
            ∙ ap (λ x. if r == got then some (data_of (row.vectors i)) else x) (st.finds i r l);
      }

  deleted-Stands :
      (t : Tables) (m : ℕ → ℕ → Option (List ℕ)) (rowid k : ℕ)
      → Stands p t m
      → (vec0_update_delete p faults rowid t k).0 ≡ ok tt
      → Stands p
          (vec0_update_delete p faults rowid t k).1
          (λ i r. if r == rowid then none else m i r)
  deleted-Stands t m rowid k st e = by_row (t.rowids rowid) refl
    where
      by_row :
          (row : Option (Option (ℕ × ℕ)))
          → t.rowids rowid ≡ row
          → Stands p
              (vec0_update_delete p faults rowid t k).1
              (λ i r. if r == rowid then none else m i r)
      by_row none g = absurd (
          Refuses-ok faults sqlite_empty t tt (vec0_update_delete p faults rowid t k) e
            (vec0_update_delete-Refuses p faults rowid t k g))
      by_row (some none) g = absurd (st.placed rowid g)
      by_row (some (some (c, o))) g =
          let done =
            Ends-ok faults (λ _ u. Removes p rowid t u) tt (vec0_update_delete p faults rowid t k) e
              (vec0_update_delete-Removes p faults t w st.store rowid c o k g) in
          record {
            store = done.store;
            placed = λ r h. elim (same_or_apart r rowid) [
              | inl same ↦ none-ne-some none (
                  sym done.gone
                  ∙ subst (λ x. (vec0_update_delete p faults rowid t k).1.rowids x ≡ some none) same
                      h)
              | inr d ↦ st.placed r (sym (done.rows r d) ∙ h)
            ];
            finds = λ i r l.
                done.finds i r l ∙ ap (λ x. if r == rowid then none else x) (st.finds i r l);
          }

  changed-Stands :
      (t : Tables) (m : ℕ → ℕ → Option (List ℕ)) (rowid : ℕ)
      (values : ℕ → Option (Option VectorValue)) (k : ℕ)
      → Stands p t m
      → WholeValues values
      → (vec0_update_update p faults rowid values t k).0 ≡ ok tt
      → Stands p
          (vec0_update_update p faults rowid values t k).1
          (λ i r. if r == rowid then updated (values i) (m i r) else m i r)
  changed-Stands t m rowid values k st whole e = by_row (t.rowids rowid) refl
    where
      by_row :
          (row : Option (Option (ℕ × ℕ)))
          → t.rowids rowid ≡ row
          → Stands p
              (vec0_update_update p faults rowid values t k).1
              (λ i r. if r == rowid then updated (values i) (m i r) else m i r)
      by_row none g = absurd (change-row p faults rowid values t k e g)
      by_row (some none) g = absurd (st.placed rowid g)
      by_row (some (some (c, o))) g =
          let done =
            Ends-ok faults (λ _ u. SetsVectors p values rowid t u) tt
              (vec0_update_update p faults rowid values t k) e
              (vec0_update_update-SetsVectors p w values
                (change-FitsIfGiven p faults rowid values t k e whole) faults t st.store rowid c o k
                g) in
          record {
            store = done.store;
            placed = λ r h. st.placed r (sym (ap (λ f. f r) done.rowids) ∙ h);
            finds = λ i r l.
                done.finds i r l
                ∙ ap (λ x. if r == rowid then updated (values i) x else x) (st.finds i r l);
          }

  -- For a table whose chunks and vectors are of whole bytes, and statements whose vectors have the
  -- length that their type says: from empty tables on, whatever calls fail, the statements that
  -- succeed keep the invariant, and the vectors that are found are those of a map to which each
  -- INSERT adds its row, from which each DELETE takes its row and in which each UPDATE sets the
  -- vectors that it gives.
  pub Reaches-Stands :
      (t : Tables) (m : ℕ → ℕ → Option (List ℕ)) → Reaches p faults t m → Stands p t m
  Reaches-Stands t m start = empty-Stands p
  Reaches-Stands t m (insert {t = t'} {m = m'} row got k r whole e) =
      inserted-Stands t' m' row got k (Reaches-Stands t' m' r) whole e
  Reaches-Stands t m (delete {t = t'} {m = m'} rowid k r e) =
      deleted-Stands t' m' rowid k (Reaches-Stands t' m' r) e
  Reaches-Stands t m (change {t = t'} {m = m'} rowid values k r whole e) =
      changed-Stands t' m' rowid values k (Reaches-Stands t' m' r) whole e
