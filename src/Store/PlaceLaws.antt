-- ===== src/Store/PlaceLaws.antt =====
-- The tables after a row has been written to a free slot: the invariant, and the rows that are found.
use agos_memory.Base.{
  ℕ, ◌*◌, ◌≤◌, ◌<◌, ◌≡◌, ◌≢◌, refl, sym, ◌∙◌, ap, subst, arith, true, false, Option, none, some,
  if◌then◌else◌, ◌==◌, List, length, get_or, get_or-set_self, get_or-set_ne, inl, inr,
}
use mathlib.Core.Option.{some-injective, none-ne-some}
use agos_memory.Bitmap.{has}
use agos_memory.Bitmap.Access.{has-bitmap_set}
use agos_memory.Nodes.{copy_in}
use agos_memory.Nodes.Bytes.{copy_out-slot_self, copy_out-slot_other, length-copy_in}
use agos_memory.Store.{Config, Chunk, Tables}
use agos_memory.Store.Steps.{column_size}
use agos_memory.Store.Maps.{update_self, update_other, update-some, same_or_apart, apart_test}
use agos_memory.Store.Invariant.{
  IsConfig, IsSized, IsShaped, IsStore, Holds, find, stored_at, slice,
}
use agos_memory.Store.Shape.{changed-here, changed-there, changed-IsShaped, Blobs}
use agos_memory.Store.Fill.{taken, overwritten, overwrites}
use agos_memory.Store.Place.{taken-IsSized, filled}

module _ (p : Config) (w : IsConfig p) (vector_datas : ℕ → List ℕ)
    (whole : (i : ℕ) → i < p.num_vector_columns → length (vector_datas i) ≡ column_size p i)
    (t : Tables) (st : IsStore p t) (c o rowid : ℕ) (chunk : Chunk) (here : t.chunks c ≡ some chunk)
    (l : o < p.chunk_size) (free : has chunk.validity o ≡ false)
    (e : t.rowids rowid ≡ some none) where
  abbrev after : Tables
  after = filled p vector_datas c o rowid chunk t

  size : IsSized p chunk
  size = st.shape.sized c chunk here

  has-taken :
      (q : ℕ)
      → has (taken o rowid chunk).validity q ≡ (if o == q then true else has chunk.validity q)
  has-taken q =
      has-bitmap_set chunk.validity o q 1 size.bytes
        (omega (arith, size.validity_size, w.whole_bytes, l))

  overwrites-Blobs : Blobs p (overwrites p vector_datas c o t)
  overwrites-Blobs i li = sized_row (t.vectors i c) (st.shape.stored c chunk here i li)
    where
      sized_row :
          (row : Option (List ℕ))
          → (blob : List ℕ) × (row ≡ some blob) × (length blob ≡ p.chunk_size * column_size p i)
          → (blob : List ℕ) × (overwritten (column_size p i) o (vector_datas i) row ≡ some blob)
            × (length blob ≡ p.chunk_size * column_size p i)
      sized_row none (blob, g, n) = absurd (none-ne-some blob g)
      sized_row (some old) (blob, g, n) = (
        copy_in (o * column_size p i) (vector_datas i) old,
        refl,
        length-copy_in (o * column_size p i) (vector_datas i) old
            ∙ ap length (some-injective old blob g)
            ∙ n,
      )

  after-IsShaped : IsShaped p after
  after-IsShaped =
      let s =
        changed-IsShaped p c t st.shape (taken o rowid chunk) (overwrites p vector_datas c o t)
          (st.shape.numbered c chunk here) (taken-IsSized p o rowid chunk size) overwrites-Blobs in
      record { sized = s.sized; stored = s.stored; numbered = s.numbered; stray = s.stray }

  same_chunk : (r c' o' : ℕ) (g : Holds p t c' o' r) → c' ≡ c → g.chunk ≡ chunk
  same_chunk r c' o' g same =
      some-injective g.chunk chunk (sym g.at ∙ subst (λ x. t.chunks x ≡ some chunk) (sym same) here)

  -- Another row is not in the slot.
  apart_slot : (r c' o' : ℕ) → Holds p t c' o' r → c' ≡ c → o ≢ o'
  apart_slot r c' o' g same q =
      let on : has chunk.validity o' ≡ true =
        subst (λ x. has x.validity o' ≡ true) (same_chunk r c' o' g same) g.valid in
      let off : has chunk.validity o' ≡ false = subst (λ x. has chunk.validity x ≡ false) q free in
      ground (arith, on, off)

  placed_row : Holds p after c o rowid
  placed_row = record {
    chunk = taken o rowid chunk;
    at = update_self t.chunks c (some (taken o rowid chunk));
    within = l;
    valid = has-taken o ∙ itself o;
    named = get_or-set_self chunk.rowids o rowid 0 (omega (arith, size.rowids_size, l));
  }
    where
      itself : (x : ℕ) → (if x == x then true else has chunk.validity x) ≡ true
      itself x = ground arith

  kept : (r c' o' : ℕ) → Holds p t c' o' r → Holds p after c' o' r
  kept r c' o' g = elim (same_or_apart c' c) [
    | inl same ↦
        subst (λ x. Holds p after x o' r) (sym same)
          (in_chunk (same_chunk r c' o' g same) (apart_slot r c' o' g same))
    | inr other ↦ record {
      chunk = g.chunk;
      at = update_other t.chunks c (some (taken o rowid chunk)) c' other ∙ g.at;
      within = g.within;
      valid = g.valid;
      named = g.named;
    }
  ]
    where
      in_chunk : g.chunk ≡ chunk → o ≢ o' → Holds p after c o' r
      in_chunk m far = record {
        chunk = taken o rowid chunk;
        at = update_self t.chunks c (some (taken o rowid chunk));
        within = g.within;
        valid =
            has-taken o'
            ∙ rw (apart_test o o' far) (subst (λ x. has x.validity o' ≡ true) m g.valid);
        named =
            get_or-set_ne chunk.rowids o o' rowid 0 far
            ∙ subst (λ x. get_or x.rowids o' 0 ≡ r) m g.named;
      }

  -- The row that a slot belonged to still has it.
  still :
      (r : ℕ) (place : ℕ × ℕ) → t.rowids r ≡ some (some place) → after.rowids r ≡ some (some place)
  still r place g =
      update_other t.rowids rowid (some (some (c, o))) r (λ q. none-ne-some place (
        some-injective none (some place) (sym e ∙ subst (λ x. t.rowids x ≡ some (some place)) q g)))
      ∙ g

  owner :
      (c' o' : ℕ) (chunk' : Chunk)
      → after.chunks c' ≡ some chunk'
      → o' < p.chunk_size
      → has chunk'.validity o' ≡ true
      → after.rowids (get_or chunk'.rowids o' 0) ≡ some (some (c', o'))
  owner c' o' chunk' g l' v = elim (update-some t.chunks c (taken o rowid chunk) chunk' c' g) [
    | inl (same, m) ↦
        subst (λ x. after.rowids (get_or x.rowids o' 0) ≡ some (some (c', o'))) m
          (subst
            (λ x. after.rowids (get_or (taken o rowid chunk).rowids o' 0) ≡ some (some (x, o')))
            (sym same) (in_chunk (subst (λ x. has x.validity o' ≡ true) (sym m) v)))
    | inr (other, m) ↦ still (get_or chunk'.rowids o' 0) (c', o') (st.row_of c' o' chunk' m l' v)
  ]
    where
      in_chunk :
          has (taken o rowid chunk).validity o' ≡ true
          → after.rowids (get_or (taken o rowid chunk).rowids o' 0) ≡ some (some (c, o'))
      in_chunk v' = elim (same_or_apart o' o) [
        | inl q ↦
            subst (λ x. after.rowids (get_or (taken o rowid chunk).rowids x 0) ≡ some (some (c, x)))
              (sym q)
              (subst (λ x. after.rowids x ≡ some (some (c, o)))
                (sym (get_or-set_self chunk.rowids o rowid 0 (omega (arith, size.rowids_size, l))))
                (update_self t.rowids rowid (some (some (c, o)))))
        | inr far ↦
            subst (λ x. after.rowids x ≡ some (some (c, o')))
              (sym (get_or-set_ne chunk.rowids o o' rowid 0 (λ q. far (sym q))))
              (still (get_or chunk.rowids o' 0) (c, o') (st.row_of c o' chunk here l' (was far)))
      ]
        where
          was : o' ≢ o → has chunk.validity o' ≡ true
          was far = ground (arith, sym (has-taken o') ∙ v', far)

  pub after-IsStore : IsStore p after
  after-IsStore = record {
    shape = after-IsShaped;
    slot_of = λ r c' o' g. elim (update-some t.rowids rowid (some (c, o)) (some (c', o')) r g) [
      | inl (same, m) ↦
          let pair : (c, o) ≡ (c', o') = some-injective (c, o) (c', o') m in
          subst (λ x. Holds p after c' o' x) (sym same)
            (subst (λ x. Holds p after x.0 x.1 rowid) pair placed_row)
      | inr (other, m) ↦ kept r c' o' (st.slot_of r c' o' m)
    ];
    row_of = owner;
    counted = λ r place g. elim (update-some t.rowids rowid (some (c, o)) place r g) [
      | inl (same, m) ↦ subst (λ x. x ≤ t.rowid_sequence) (sym same) (st.counted rowid none e)
      | inr (other, m) ↦ st.counted r place m
    ];
  }

  find-kept :
      (r i : ℕ) (row : Option (Option (ℕ × ℕ)))
      → i < p.num_vector_columns
      → t.rowids r ≡ row
      → stored_at p after i row ≡ stored_at p t i row
  find-kept r i none li g = refl
  find-kept r i (some none) li g = refl
  find-kept r i (some (some (c', o'))) li g = elim (same_or_apart c' c) [
    | inl same ↦
        subst
          (λ x.
            slice (column_size p i) o' (after.vectors i x)
            ≡ slice (column_size p i) o' (t.vectors i x))
          (sym same)
          (ap (slice (column_size p i) o') (
              changed-here p c (some (taken o rowid chunk)) (overwrites p vector_datas c o t) t i
                li)
            ∙ other_slot (t.vectors i c) (apart_slot r c' o' (st.slot_of r c' o' g) same))
    | inr other ↦ ap (slice (column_size p i) o') (
        changed-there p c (some (taken o rowid chunk)) (overwrites p vector_datas c o t) t i c'
          other)
  ]
    where
      other_slot :
          (row : Option (List ℕ))
          → o ≢ o'
          → slice (column_size p i) o' (overwritten (column_size p i) o (vector_datas i) row)
            ≡ slice (column_size p i) o' row
      other_slot none far = refl
      other_slot (some blob) far =
          ap some
            (copy_out-slot_other (column_size p i) o o' (vector_datas i) blob (whole i li) far)

  find-placed :
      (i : ℕ)
      → i < p.num_vector_columns
      → stored_at p after i (some (some (c, o))) ≡ some (vector_datas i)
  find-placed i li =
      ap (slice (column_size p i) o)
        (changed-here p c (some (taken o rowid chunk)) (overwrites p vector_datas c o t) t i li)
      ∙ own_slot (t.vectors i c) (st.shape.stored c chunk here i li)
    where
      own_slot :
          (row : Option (List ℕ))
          → (blob : List ℕ) × (row ≡ some blob) × (length blob ≡ p.chunk_size * column_size p i)
          → slice (column_size p i) o (overwritten (column_size p i) o (vector_datas i) row)
            ≡ some (vector_datas i)
      own_slot none (blob, g, n) = absurd (none-ne-some blob g)
      own_slot (some old) (blob, g, n) = ap some (
          copy_out-slot_self p.chunk_size (column_size p i) o (vector_datas i) old
            (ap length (some-injective old blob g) ∙ n) (whole i li) l)

  pub find-after :
      (i r : ℕ)
      → i < p.num_vector_columns
      → find p after i r ≡ (if r == rowid then some (vector_datas i) else find p t i r)
  unfolding find
  find-after i r li = elim (same_or_apart r rowid) [
    | inl same ↦
        subst
          (λ x.
            stored_at p after i (after.rowids x)
            ≡ (if x == rowid then some (vector_datas i) else stored_at p t i (t.rowids x)))
          (sym same)
          (ap (stored_at p after i) (update_self t.rowids rowid (some (some (c, o))))
            ∙ find-placed i li
            ∙ own rowid)
    | inr d ↦
        ap (stored_at p after i) (update_other t.rowids rowid (some (some (c, o))) r d)
        ∙ find-kept r i (t.rowids r) li refl
        ∙ rw (apart_test r rowid d) refl
  ]
    where
      own :
          (x : ℕ)
          → some (vector_datas i)
            ≡ (if x == x then some (vector_datas i) else stored_at p t i (t.rowids x))
      own x = ground arith
