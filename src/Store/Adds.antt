-- ===== src/Store/Adds.antt =====
-- `vec0Update_Insert` as a whole.
use agos_memory.Base.{
  ℕ, ◌<◌, ◌≡◌, ◌≢◌, refl, sym, ◌∙◌, ap, subst, arith, false, Option, none, some, if◌then◌else◌,
  ◌==◌, List, length, get_or, inl, inr,
}
use mathlib.Core.Option.{none-ne-some}
use agos_memory.Bitmap.{Bitmap}
use agos_memory.Store.{Config, Tables, Faults, sqlite_error, sqlite_code, return}
use agos_memory.Store.Steps.{
  column_size, is_row, add_rowid, vec0_rowids_insert_rowid, vec0_rowids_insert_id,
}
use agos_memory.Store.Insert.{
  IdValue, id_null, id_integer, id_other, Insertion, data_of, replace_existing,
  vec0_update_insert_rowid_step, vec0_update_insert_next_available_step,
  vec0_update_insert_write_final_step, vec0_update_insert,
}
use agos_memory.Store.Maps.{update_self, update_other, update-some, same_or_apart}
use agos_memory.Store.Outcome.{Ends, Ends-attempt, Ends-resume, Ends-then, Ends-gives}
use agos_memory.Store.Rules.{after_if}
use agos_memory.Store.Invariant.{IsConfig, IsStore, find, stored_at}
use agos_memory.Store.Ready.{Ready, vec0_update_insert_next_available_step-Ready}
use agos_memory.Store.Place.{filled, vec0_update_insert_write_final_step-Ends}
use agos_memory.Store.PlaceLaws.{after-IsStore, find-after}
use agos_memory.Store.Keys.{
  IsAccepted, IsKey, Cleared, check_vectors-Ends, replace_existing-Cleared,
}

-- A row without a place changes nothing else.
module _ (p : Config) (t : Tables) (st : IsStore p t) (rowid : ℕ)
    (free : t.rowids rowid ≡ none) where
  add_rowid-IsStore : IsStore p (add_rowid rowid t)
  add_rowid-IsStore = record {
    shape = record {
      sized = st.shape.sized;
      stored = st.shape.stored;
      numbered = st.shape.numbered;
      stray = st.shape.stray;
    };
    slot_of = λ r c o g. elim (update-some t.rowids rowid none (some (c, o)) r g) [
      | inl h ↦ absurd (none-ne-some (c, o) h.1)
      | inr h ↦
          let held = st.slot_of r c o h.1 in
          record {
            chunk = held.chunk;
            at = held.at;
            within = held.within;
            valid = held.valid;
            named = held.named;
          }
    ];
    row_of = λ c o chunk g l v.
        let owner = st.row_of c o chunk g l v in
        update_other t.rowids rowid (some none) (get_or chunk.rowids o 0) (λ q.
          none-ne-some (some (c, o))
            (sym free ∙ subst (λ x. t.rowids x ≡ some (some (c, o))) q owner))
        ∙ owner;
    counted = λ r place g. elim (update-some t.rowids rowid none place r g) [
      | inl h ↦ ground (arith, h.0)
      | inr h ↦ ground (arith, st.counted r place h.1)
    ];
  }

  find-add_rowid : (i r : ℕ) → find p (add_rowid rowid t) i r ≡ find p t i r
  unfolding find
  find-add_rowid i r = elim (same_or_apart r rowid) [
    | inl same ↦
        subst
          (λ x.
            stored_at p (add_rowid rowid t) i ((add_rowid rowid t).rowids x)
            ≡ stored_at p t i (t.rowids x))
          (sym same)
          (ap (stored_at p (add_rowid rowid t) i) (update_self t.rowids rowid (some none))
            ∙ ap (stored_at p t i) (sym free))
    | inr d ↦ ap (stored_at p t i) (update_other t.rowids rowid (some none) r d)
  ]

-- The key of `IsKey` is one that no row has.
IsKey-none :
    (p : Config) (t : Tables) (st : IsStore p t) (id : IdValue) (rowid : ℕ)
    → IsKey t false id rowid
    → t.rowids rowid ≡ none
IsKey-none p t st id_null rowid e = at (t.rowids rowid) refl
  where
    at : (row : Option (Option (ℕ × ℕ))) → t.rowids rowid ≡ row → row ≡ none
    at none g = refl
    at (some place) g = absurd (omega (arith, e, st.counted rowid place g))
IsKey-none p t st (id_integer id) rowid h = h.1
IsKey-none p t st id_other rowid h = elim h [ ]

module _ (p : Config) (faults : Faults) where
  vec0_rowids_insert_rowid-Ends :
      (t : Tables) (k rowid : ℕ)
      → t.rowids rowid ≡ none
      → Ends faults (λ _ u. u ≡ add_rowid rowid t) (vec0_rowids_insert_rowid p faults rowid t k)
  unfolding vec0_rowids_insert_rowid
  vec0_rowids_insert_rowid-Ends t k rowid free = Ends-attempt faults _ _ sqlite_code t k (
      after_if p faults _ _ (is_row (t.rowids rowid)) sqlite_error t _ (ap is_row free)
        (Ends-attempt faults _ _ sqlite_error t _ refl))

  insert_rowid_step-Ends :
      (t : Tables) (k : ℕ) (id : IdValue) (rowid : ℕ)
      → IsKey t false id rowid
      → Ends faults
          (λ r u. (r ≡ rowid) × (u ≡ add_rowid rowid t))
          (vec0_update_insert_rowid_step p faults id t k)
  unfolding vec0_update_insert_rowid_step vec0_rowids_insert_id
  insert_rowid_step-Ends t k id_null rowid e =
      Ends-attempt faults _ _ sqlite_code t k
        (Ends-attempt faults _ _ sqlite_error t _ (sym e, ap (λ x. add_rowid x t) (sym e)))
  insert_rowid_step-Ends t k (id_integer id) rowid (e, free) =
      Ends-then faults (add_rowid id t) (λ r u. (r ≡ rowid) × (u ≡ add_rowid rowid t))
        (λ _. return id) (vec0_rowids_insert_rowid p faults id t k)
        (vec0_rowids_insert_rowid-Ends t k id (subst (λ x. t.rowids x ≡ none) e free))
        (λ _ k'. (sym e, ap (λ x. add_rowid x t) (sym e)))
  insert_rowid_step-Ends t k id_other rowid h = elim h [ ]

-- The tables keep their invariant, the row has a place and the vectors it gave, and the other rows have
-- what they had.
pub record Adds (p : Config) (row : Insertion) (rowid : ℕ) (t u : Tables) : Type 0 where
  pub store : IsStore p u
  pub place : ℕ × ℕ
  pub placed : u.rowids rowid ≡ some (some place)
  pub rows : (r : ℕ) → r ≢ rowid → u.rowids r ≡ t.rowids r
  pub finds :
      (i r : ℕ)
      → i < p.num_vector_columns
      → find p u i r ≡ (if r == rowid then some (data_of (row.vectors i)) else find p t i r)

module _ (p : Config) (w : IsConfig p) (row : Insertion) (a : IsAccepted p row) where
  abbrev vector_datas : ℕ → List ℕ
  vector_datas i = data_of (row.vectors i)

  whole : (i : ℕ) → i < p.num_vector_columns → length (vector_datas i) ≡ column_size p i
  whole i l = let f = a.fits i l in ap (λ v. length (data_of v)) f.given ∙ f.whole

  module _ (faults : Faults) (t t1 u : Tables) (rowid : ℕ) (cl : Cleared p row.id rowid t t1)
      (place : ℕ × ℕ × Bitmap) (rd : Ready p (add_rowid rowid t1) place u) where
    unplaced : u.rowids rowid ≡ some none
    unplaced = ap (λ f. f rowid) rd.rowids ∙ update_self t1.rowids rowid (some none)

    write-Ends :
        (k : ℕ)
        → Ends faults
            (λ _ v. v ≡ filled p vector_datas place.0 place.1 rowid rd.chunk u)
            (vec0_update_insert_write_final_step p faults place.0 place.1 rowid vector_datas place.2
              u k)
    write-Ends k =
        subst
          (λ b.
            Ends faults (λ _ v. v ≡ filled p vector_datas place.0 place.1 rowid rd.chunk u)
              (vec0_update_insert_write_final_step p faults place.0 place.1 rowid vector_datas b u
                k))
          (sym rd.buffer)
          (vec0_update_insert_write_final_step-Ends p w vector_datas whole faults place.0 place.1
            rowid rd.chunk u k rd.at (rd.store.shape.sized place.0 rd.chunk rd.at)
            (rd.store.shape.stored place.0 rd.chunk rd.at) rd.within unplaced)

    written-Adds : Adds p row rowid t (filled p vector_datas place.0 place.1 rowid rd.chunk u)
    written-Adds = record {
      store =
          after-IsStore p w vector_datas whole u rd.store place.0 place.1 rowid rd.chunk rd.at
            rd.within rd.free unplaced;
      place = (place.0, place.1);
      placed = update_self u.rowids rowid (some (some (place.0, place.1)));
      rows = λ r d.
          update_other u.rowids rowid (some (some (place.0, place.1))) r d
          ∙ ap (λ f. f r) rd.rowids
          ∙ update_other t1.rowids rowid (some none) r d
          ∙ cl.rows r d;
      finds = λ i r l.
          find-after p w vector_datas whole u rd.store place.0 place.1 rowid rd.chunk rd.at
            rd.within rd.free unplaced i r l
          ∙ others i r l;
    }
      where
        others :
            (i r : ℕ)
            → i < p.num_vector_columns
            → (if r == rowid then some (vector_datas i) else find p u i r)
              ≡ (if r == rowid then some (vector_datas i) else find p t i r)
        others i r l = elim (same_or_apart r rowid) [
          | inl same ↦
              subst
                (λ x.
                  (if x == rowid then some (vector_datas i) else find p u i x)
                  ≡ (if x == rowid then some (vector_datas i) else find p t i x))
                (sym same) (own rowid)
          | inr d ↦
              ap (λ x. if r == rowid then some (vector_datas i) else x)
                (rd.finds i r
                  ∙ find-add_rowid p t1 cl.store rowid
                      (IsKey-none p t1 cl.store row.id rowid cl.key) i r
                  ∙ cl.finds i r l d)
        ]
          where
            own :
                (x : ℕ)
                → (if x == x then some (vector_datas i) else find p u i x)
                  ≡ (if x == x then some (vector_datas i) else find p t i x)
            own x = ground arith

  -- In tables that keep the invariant, an INSERT of a row that gives each column a vector of its type and
  -- dimensions, with a key that no row has, or with REPLACE the key of a row, ends with that key; the
  -- invariant is kept, the row is found with its vectors, the other rows keep their places and are found as before. It ends
  -- otherwise only when something it calls has failed.
  pub vec0_update_insert-Adds :
      (faults : Faults) (t : Tables) (st : IsStore p t) (rowid k : ℕ)
      → IsKey t row.replace row.id rowid
      → Ends faults
          (λ r u. (r ≡ rowid) × Adds p row rowid t u)
          (vec0_update_insert p faults row t k)
  unfolding vec0_update_insert
  vec0_update_insert-Adds faults t st rowid k key =
      Ends-then faults t _ _ _ (check_vectors-Ends p faults row t k a) (λ _ k1.
        after_if p faults _ _ row.has_distance sqlite_error t k1 a.no_distance (
          after_if p faults _ _ row.has_k sqlite_error t k1 a.no_k (
            Ends-resume faults (λ _ u. Cleared p row.id rowid t u) _ _
              (replace_existing p faults row.replace row.id t k1)
              (replace_existing-Cleared p faults w t st row.replace row.id rowid k1 key)
              (λ _ t1 k2 cl.
                Ends-gives faults rowid (add_rowid rowid t1) _ _ _
                  (insert_rowid_step-Ends p faults t1 k2 row.id rowid cl.key)
                  (λ k3.
                    Ends-resume faults (Ready p (add_rowid rowid t1)) _ _
                      (vec0_update_insert_next_available_step p faults (add_rowid rowid t1) k3)
                      (vec0_update_insert_next_available_step-Ready p faults w (add_rowid rowid t1)
                        (add_rowid-IsStore p t1 cl.store rowid
                          (IsKey-none p t1 cl.store row.id rowid cl.key))
                        k3)
                      (λ place u k4 rd.
                        Ends-then faults (filled p vector_datas place.0 place.1 rowid rd.chunk u) _
                          _ _ (write-Ends faults t t1 u rowid cl place rd k4)
                          (λ _ k5.
                            Ends-attempt faults _ _ sqlite_code _ k5
                              (refl, written-Adds faults t t1 u rowid cl place rd))))))))
