-- ===== src/Store/RemoveLaws.antt =====
-- The tables after a row has gone: the invariant, and the rows that are found.
use agos_memory.Base.{
  ℕ, ◌*◌, ◌<◌, ◌≡◌, ◌≢◌, refl, sym, ◌∙◌, ap, subst, arith, true, false, Option, none, some,
  if◌then◌else◌, ◌==◌, List, length, get_or, replicate, length-replicate, get_or-set_ne, inl, inr,
}
use mathlib.Core.Option.{some-injective, none-ne-some}
use agos_memory.Bitmap.{has}
use agos_memory.Bitmap.Access.{has-bitmap_set}
use agos_memory.Nodes.{copy_in}
use agos_memory.Nodes.Bytes.{copy_out-slot_other, length-copy_in}
use agos_memory.Store.{Config, Chunk, Tables}
use agos_memory.Store.Steps.{column_size}
use agos_memory.Store.Maps.{
  update_self, update_other, update-some, update-none, same_or_apart, apart_test,
}
use agos_memory.Store.Invariant.{
  IsConfig, IsSized, IsShaped, IsStore, Holds, find, stored_at, slice,
}
use agos_memory.Store.Shape.{changed-here, changed-there, changed-IsShaped, Blobs}
use agos_memory.Store.Erase.{zeroed}
use agos_memory.Store.Remove.{freed, freed-IsSized, erased}

-- A slot in use that is not the freed one was in use.
has-freed :
    (p : Config) (o q : ℕ) (chunk : Chunk)
    → IsConfig p
    → IsSized p chunk
    → o < p.chunk_size
    → has (freed o chunk).validity q ≡ (if o == q then false else has chunk.validity q)
has-freed p o q chunk w s l =
    has-bitmap_set chunk.validity o q 0 s.bytes (omega (arith, s.validity_size, w.whole_bytes))

module _ (p : Config) (t : Tables) (w : IsConfig p) (st : IsStore p t) (c o rowid : ℕ)
    (e : t.rowids rowid ≡ some (some (c, o))) (h : Holds p t c o rowid) where
  abbrev after : Tables
  after = erased p c o rowid h.chunk t

  size : IsSized p h.chunk
  size = st.shape.sized c h.chunk h.at

  zeroed-Blobs : Blobs p (λ i. zeroed (column_size p i) o (t.vectors i c))
  zeroed-Blobs i l = whole (t.vectors i c) (st.shape.stored c h.chunk h.at i l)
    where
      whole :
          (row : Option (List ℕ))
          → (blob : List ℕ) × (row ≡ some blob) × (length blob ≡ p.chunk_size * column_size p i)
          → (blob : List ℕ) × (zeroed (column_size p i) o row ≡ some blob)
            × (length blob ≡ p.chunk_size * column_size p i)
      whole none (blob, g, n) = absurd (none-ne-some blob g)
      whole (some old) (blob, g, n) = (
        copy_in (o * column_size p i) (replicate (column_size p i) 0) old,
        refl,
        length-copy_in (o * column_size p i) (replicate (column_size p i) 0) old
            ∙ ap length (some-injective old blob g)
            ∙ n,
      )

  after-IsShaped : IsShaped p after
  after-IsShaped =
      let s =
        changed-IsShaped p c t st.shape (freed o h.chunk)
          (λ i. zeroed (column_size p i) o (t.vectors i c)) (st.shape.numbered c h.chunk h.at)
          (freed-IsSized p o h.chunk size) zeroed-Blobs in
      record { sized = s.sized; stored = s.stored; numbered = s.numbered; stray = s.stray }

  -- What a row other than the erased one holds, it still holds.
  kept : (r c' o' : ℕ) → r ≢ rowid → Holds p t c' o' r → Holds p after c' o' r
  kept r c' o' d g = elim (same_or_apart c' c) [
    | inl same ↦
        subst (λ x. Holds p after x o' r) (sym same)
          (in_chunk (
            some-injective g.chunk h.chunk
              (sym g.at ∙ subst (λ x. t.chunks x ≡ some h.chunk) (sym same) h.at)))
    | inr other ↦ record {
      chunk = g.chunk;
      at = update_other t.chunks c (some (freed o h.chunk)) c' other ∙ g.at;
      within = g.within;
      valid = g.valid;
      named = g.named;
    }
  ]
    where
      in_chunk : g.chunk ≡ h.chunk → Holds p after c o' r
      in_chunk m =
          let named : get_or h.chunk.rowids o' 0 ≡ r =
            subst (λ x. get_or x.rowids o' 0 ≡ r) m g.named in
          let valid : has h.chunk.validity o' ≡ true =
            subst (λ x. has x.validity o' ≡ true) m g.valid in
          let far : o ≢ o' =
            (λ q. d (sym named ∙ subst (λ x. get_or h.chunk.rowids x 0 ≡ rowid) q h.named)) in
          record {
            chunk = freed o h.chunk;
            at = update_self t.chunks c (some (freed o h.chunk));
            within = g.within;
            valid = has-freed p o o' h.chunk w size h.within ∙ rw (apart_test o o' far) valid;
            named = get_or-set_ne h.chunk.rowids o o' 0 0 far ∙ named;
          }

  -- A slot that is in use after is not the erased one, and was in use by the same row.
  owner :
      (c' o' : ℕ) (chunk : Chunk)
      → after.chunks c' ≡ some chunk
      → o' < p.chunk_size
      → has chunk.validity o' ≡ true
      → after.rowids (get_or chunk.rowids o' 0) ≡ some (some (c', o'))
  owner c' o' chunk g l v = elim (update-some t.chunks c (freed o h.chunk) chunk c' g) [
    | inl (same, m) ↦
        subst (λ x. after.rowids (get_or x.rowids o' 0) ≡ some (some (c', o'))) m
          (subst (λ x. after.rowids (get_or (freed o h.chunk).rowids o' 0) ≡ some (some (x, o')))
            (sym same) (in_chunk (subst (λ x. has x.validity o' ≡ true) (sym m) v)))
    | inr (other, m) ↦
        still (get_or chunk.rowids o' 0) c' o' (st.row_of c' o' chunk m l v) (λ q. other q.0)
  ]
    where
      still :
          (r c' o' : ℕ)
          → t.rowids r ≡ some (some (c', o'))
          → (((c' ≡ c) × (o' ≡ o)) → ⊥)
          → after.rowids r ≡ some (some (c', o'))
      still r c' o' g d =
          update_other t.rowids rowid none r (λ q. d (
            let pair : (c', o') ≡ (c, o) =
              some-injective (c', o') (c, o)
                (some-injective _ _
                  (sym g ∙ subst (λ x. t.rowids x ≡ some (some (c, o))) (sym q) e)) in
            (ap (λ x. x.0) pair, ap (λ x. x.1) pair)))
          ∙ g

      in_chunk :
          has (freed o h.chunk).validity o' ≡ true
          → after.rowids (get_or (freed o h.chunk).rowids o' 0) ≡ some (some (c, o'))
      in_chunk v =
          let both = sym (has-freed p o o' h.chunk w size h.within) ∙ v in
          let far : o ≢ o' = ground (arith, both) in
          let valid : has h.chunk.validity o' ≡ true = ground (arith, both) in
          subst (λ x. after.rowids x ≡ some (some (c, o')))
            (sym (get_or-set_ne h.chunk.rowids o o' 0 0 far))
            (still (get_or h.chunk.rowids o' 0) c o' (st.row_of c o' h.chunk h.at l valid)
              (λ q. far (sym q.1)))

  pub after-IsStore : IsStore p after
  after-IsStore = record {
    shape = after-IsShaped;
    slot_of = λ r c' o' g.
        let m = update-none t.rowids rowid (some (c', o')) r g in
        kept r c' o' m.0 (st.slot_of r c' o' m.1);
    row_of = owner;
    counted = λ r place g. st.counted r place (update-none t.rowids rowid place r g).1;
  }

  find-after_at :
      (r i : ℕ) (row : Option (Option (ℕ × ℕ)))
      → r ≢ rowid
      → i < p.num_vector_columns
      → t.rowids r ≡ row
      → stored_at p after i row ≡ stored_at p t i row
  find-after_at r i none d l g = refl
  find-after_at r i (some none) d l g = refl
  find-after_at r i (some (some (c', o'))) d l g = elim (same_or_apart c' c) [
    | inl same ↦
        subst
          (λ x.
            slice (column_size p i) o' (after.vectors i x)
            ≡ slice (column_size p i) o' (t.vectors i x))
          (sym same)
          (ap (slice (column_size p i) o') (
              changed-here p c (some (freed o h.chunk))
                (λ i. zeroed (column_size p i) o (t.vectors i c)) t i l)
            ∙ other_slot (t.vectors i c) (λ q. d (row_at_c same q)))
    | inr other ↦ ap (slice (column_size p i) o') (
        changed-there p c (some (freed o h.chunk)) (λ i. zeroed (column_size p i) o (t.vectors i c))
          t i c' other)
  ]
    where
      row_at_c : c' ≡ c → o ≡ o' → r ≡ rowid
      row_at_c same q =
          let g' = st.slot_of r c' o' g in
          let m : g'.chunk ≡ h.chunk =
            some-injective g'.chunk h.chunk
              (sym g'.at ∙ subst (λ x. t.chunks x ≡ some h.chunk) (sym same) h.at) in
          sym g'.named
          ∙ ap (λ x. get_or x.rowids o' 0) m
          ∙ subst (λ x. get_or h.chunk.rowids x 0 ≡ rowid) q h.named

      other_slot :
          (row : Option (List ℕ))
          → o ≢ o'
          → slice (column_size p i) o' (zeroed (column_size p i) o row)
            ≡ slice (column_size p i) o' row
      other_slot none d' = refl
      other_slot (some blob) d' = ap some (
          copy_out-slot_other (column_size p i) o o' (replicate (column_size p i) 0) blob
            (length-replicate {A = ℕ} (column_size p i) 0) d')

  pub find-after :
      (i r : ℕ)
      → i < p.num_vector_columns
      → find p after i r ≡ (if r == rowid then none else find p t i r)
  unfolding find
  find-after i r l = elim (same_or_apart r rowid) [
    | inl same ↦
        subst
          (λ x.
            stored_at p after i (after.rowids x)
            ≡ (if x == rowid then none else stored_at p t i (t.rowids x)))
          (sym same) (ap (stored_at p after i) (update_self t.rowids rowid none) ∙ gone rowid)
    | inr d ↦
        ap (stored_at p after i) (update_other t.rowids rowid none r d)
        ∙ find-after_at r i (t.rowids r) d l refl
        ∙ rw (apart_test r rowid d) refl
  ]
    where
      gone : (x : ℕ) → none ≡ (if x == x then none else stored_at p t i (t.rowids x))
      gone x = ground arith
