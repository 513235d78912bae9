-- ===== src/Store/Updates.antt =====
-- `vec0Update_Update` as a whole.
use agos_memory.Base.{
  ℕ, ◌*◌, ◌<◌, ◌≡◌, ◌≢◌, refl, sym, ◌∙◌, ap, subst, arith, Option, none, some, if◌then◌else◌, ◌==◌,
  List, length, get_or, inl, inr,
}
use mathlib.Core.Option.{some-injective, none-ne-some}
use agos_memory.Nodes.{copy_in}
use agos_memory.Nodes.Bytes.{copy_out-slot_self, copy_out-slot_other, length-copy_in}
use agos_memory.Store.{Config, Tables, Faults}
use agos_memory.Store.Steps.{column_size, put_chunk}
use agos_memory.Store.Insert.{VectorValue}
use agos_memory.Store.Update.{vec0_update_update}
use agos_memory.Store.Maps.{same_or_apart, apart_test, update_same}
use agos_memory.Store.Outcome.{Ends, Ends-gives, Ends-imp}
use agos_memory.Store.Vectors.{with_vectors}
use agos_memory.Store.Invariant.{IsConfig, IsShaped, IsStore, Holds, find, stored_at, slice}
use agos_memory.Store.Shape.{changed-here, changed-there, changed-IsShaped}
use agos_memory.Store.Erase.{vec0_get_chunk_position-Ends}
use agos_memory.Store.UpdateLaws.{replaced, updated, FitsIfGiven, update_columns-Ends}

module _ (p : Config) (w : IsConfig p) (values : ℕ → Option (Option VectorValue))
    (fits : (i : ℕ) → i < p.num_vector_columns → FitsIfGiven p (values i) i) (t : Tables)
    (st : IsStore p t) (rowid c o : ℕ) (e : t.rowids rowid ≡ some (some (c, o))) where
  abbrev rows : ℕ → Option (List ℕ)
  rows i = replaced (column_size p i) o (values i) (t.vectors i c)

  abbrev after : Tables
  after = with_vectors p.num_vector_columns c rows t

  held : Holds p t c o rowid
  held = st.slot_of rowid c o e

  -- The blob of a column after, with its size and the row's slot of it.
  replaced_row :
      (i : ℕ) (value : Option (Option VectorValue)) (row : Option (List ℕ))
      → FitsIfGiven p value i
      → (blob : List ℕ) × (row ≡ some blob) × (length blob ≡ p.chunk_size * column_size p i)
      → ((blob : List ℕ) × (replaced (column_size p i) o value row ≡ some blob)
          × (length blob ≡ p.chunk_size * column_size p i))
        × (slice (column_size p i) o (replaced (column_size p i) o value row)
            ≡ updated value (slice (column_size p i) o row))
        × ((o' : ℕ)
            → o ≢ o'
            → slice (column_size p i) o' (replaced (column_size p i) o value row)
              ≡ slice (column_size p i) o' row)
  replaced_row i none row f blob = (blob, refl, λ o' d. refl)
  replaced_row i (some none) row f blob = (blob, refl, λ o' d. refl)
  replaced_row i (some (some v)) none f (blob, g, n) = absurd (none-ne-some blob g)
  replaced_row i (some (some v)) (some old) f (blob, g, n) =
      let bytes : length v.data_bytes ≡ column_size p i =
        ap (λ x. length x.data_bytes) (some-injective v f.vector f.given) ∙ f.whole in
      let size : length old ≡ p.chunk_size * column_size p i =
        ap length (some-injective old blob g) ∙ n in
      (
        (
          copy_in (o * column_size p i) v.data_bytes old,
          refl,
          length-copy_in (o * column_size p i) v.data_bytes old ∙ size,
        ),
        ap some (
            copy_out-slot_self p.chunk_size (column_size p i) o v.data_bytes old size bytes
              held.within),
        λ o' d. ap some (copy_out-slot_other (column_size p i) o o' v.data_bytes old bytes d),
      )

  row_at :
      (i : ℕ)
      → i < p.num_vector_columns
      → ((blob : List ℕ) × (rows i ≡ some blob) × (length blob ≡ p.chunk_size * column_size p i))
        × (slice (column_size p i) o (rows i)
            ≡ updated (values i) (slice (column_size p i) o (t.vectors i c)))
        × ((o' : ℕ)
            → o ≢ o'
            → slice (column_size p i) o' (rows i) ≡ slice (column_size p i) o' (t.vectors i c))
  row_at i l =
      replaced_row i (values i) (t.vectors i c) (fits i l)
        (st.shape.stored c held.chunk held.at i l)

  same_chunks : put_chunk c (some held.chunk) t ≡ t
  same_chunks = ap (λ f. record t { chunks = f }) (update_same t.chunks c (some held.chunk) held.at)

  after-IsShaped : IsShaped p after
  after-IsShaped =
      subst (λ u. IsShaped p (with_vectors p.num_vector_columns c rows u)) same_chunks
        (changed-IsShaped p c t st.shape held.chunk rows (st.shape.numbered c held.chunk held.at)
          (st.shape.sized c held.chunk held.at) (λ i l. (row_at i l).0))

  after-IsStore : IsStore p after
  after-IsStore = record {
    shape = after-IsShaped;
    slot_of = λ r c' o' g.
        let h = st.slot_of r c' o' g in
        record { chunk = h.chunk; at = h.at; within = h.within; valid = h.valid; named = h.named };
    row_of = st.row_of;
    counted = st.counted;
  }

  here : (i : ℕ) → i < p.num_vector_columns → after.vectors i c ≡ rows i
  here i l = changed-here p c (some held.chunk) rows t i l

  there : (i d : ℕ) → d ≢ c → after.vectors i d ≡ t.vectors i d
  there i d h = changed-there p c (some held.chunk) rows t i d h

  find-other :
      (r i : ℕ) (row : Option (Option (ℕ × ℕ)))
      → r ≢ rowid
      → i < p.num_vector_columns
      → t.rowids r ≡ row
      → stored_at p after i row ≡ stored_at p t i row
  find-other r i none d l g = refl
  find-other r i (some none) d l g = refl
  find-other r i (some (some (c', o'))) d l g = elim (same_or_apart c' c) [
    | inl same ↦
        subst
          (λ x.
            slice (column_size p i) o' (after.vectors i x)
            ≡ slice (column_size p i) o' (t.vectors i x))
          (sym same)
          (ap (slice (column_size p i) o') (here i l) ∙ (row_at i l).2 o' (apart_slot same))
    | inr away ↦ ap (slice (column_size p i) o') (there i c' away)
  ]
    where
      apart_slot : c' ≡ c → o ≢ o'
      apart_slot same q =
          let h = st.slot_of r c' o' g in
          let m : h.chunk ≡ held.chunk =
            some-injective h.chunk held.chunk
              (sym h.at ∙ subst (λ x. t.chunks x ≡ some held.chunk) (sym same) held.at) in
          d (
            sym h.named
            ∙ ap (λ x. get_or x.rowids o' 0) m
            ∙ subst (λ x. get_or held.chunk.rowids x 0 ≡ rowid) q held.named)

  find-after :
      (i r : ℕ)
      → i < p.num_vector_columns
      → find p after i r ≡ (if r == rowid then updated (values i) (find p t i r) else find p t i r)
  unfolding find
  find-after i r l = elim (same_or_apart r rowid) [
    | inl same ↦
        subst
          (λ x. stored_at p after i (t.rowids x) ≡ (
            if x == rowid
            then updated (values i) (stored_at p t i (t.rowids x))
            else stored_at p t i (t.rowids x)))
          (sym same)
          (ap (stored_at p after i) e
            ∙ ap (slice (column_size p i) o) (here i l)
            ∙ (row_at i l).1
            ∙ ap (λ x. updated (values i) (stored_at p t i x)) (sym e)
            ∙ own rowid (updated (values i) (stored_at p t i (t.rowids rowid)))
                (stored_at p t i (t.rowids rowid)))
    | inr d ↦ find-other r i (t.rowids r) d l refl ∙ rw (apart_test r rowid d) refl
  ]
    where
      own : (x : ℕ) (y z : Option (List ℕ)) → y ≡ (if x == x then y else z)
      own x y z = ground arith

-- The tables keep their invariant and their rows, and the row has the vectors that are given for it.
pub record SetsVectors (p : Config) (values : ℕ → Option (Option VectorValue)) (rowid : ℕ)
    (t u : Tables) : Type 0 where
  pub store : IsStore p u
  pub rowids : u.rowids ≡ t.rowids
  pub finds :
      (i r : ℕ)
      → i < p.num_vector_columns
      → find p u i r ≡ (if r == rowid then updated (values i) (find p t i r) else find p t i r)

module _ (p : Config) (w : IsConfig p) (values : ℕ → Option (Option VectorValue))
    (fits : (i : ℕ) → i < p.num_vector_columns → FitsIfGiven p (values i) i) where
  -- In tables that keep the invariant, an UPDATE of a row with a place, whose values that are not NULL are
  -- vectors of their column's type and dimensions, keeps the invariant and every row; the row is found with the
  -- new vectors, and with its old ones in the other columns, and the other rows as before. It ends otherwise
  -- only when a call made before the end has failed.
  pub vec0_update_update-SetsVectors :
      (faults : Faults) (t : Tables) (st : IsStore p t) (rowid c o k : ℕ)
      → t.rowids rowid ≡ some (some (c, o))
      → Ends faults
          (λ _ u. SetsVectors p values rowid t u)
          (vec0_update_update p faults rowid values t k)
  unfolding vec0_update_update
  vec0_update_update-SetsVectors faults t st rowid c o k e =
      let h = st.slot_of rowid c o e in
      Ends-gives faults (c, o) t _ _ _
        (vec0_get_chunk_position-Ends p faults rowid (some (c, o)) t k e)
        (λ k1.
          Ends-imp faults _ (λ _ u. SetsVectors p values rowid t u) _
            (λ _ u g. subst (SetsVectors p values rowid t) (sym g) (record {
              store = after-IsStore p w values fits t st rowid c o e;
              rowids = refl;
              finds = find-after p w values fits t st rowid c o e;
            }))
            (update_columns-Ends p faults w values fits c o t k1 h.within
              (st.shape.stored c h.chunk h.at)))
