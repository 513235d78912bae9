-- ===== src/Store/Grow.antt =====
-- A new chunk: what `vec0_new_chunk` does, and that it changes no row.
use agos_memory.Base.{
  ℕ, zero, suc, ◌+◌, ◌*◌, ◌/◌, ◌%◌, ◌<◌, ◌≡◌, ◌≢◌, refl, sym, ◌∙◌, ap, subst, arith, true, false,
  Option, none, some, List, get_or, replicate, length-replicate, inl, inr,
}
use mathlib.Core.Option.{none-ne-some}
use agos_memory.Bitmap.{has}
use agos_memory.Bitmap.Access.{bitmap_get-digit, empty_byte, IsBytes}
use agos_memory.Store.{Config, Chunk, Tables, Faults, sqlite_code, sqlite_error}
use agos_memory.Store.Steps.{
  column_size, blank_chunk, add_chunk, new_vectors, vec0_new_chunk, is_row,
}
use agos_memory.Store.Maps.{update_other, update-some}
use agos_memory.Store.Outcome.{Ends, Ends-attempt, Ends-for_columns, Ends-then}
use agos_memory.Store.Rules.{after_if}
use agos_memory.Store.Vectors.{with_vectors, with_vectors-zero, with_vectors-at, with_vectors-next}
use agos_memory.Store.Invariant.{IsSized, IsShaped, IsStore, Holds, find, stored_at, slice}
use agos_memory.Store.Shape.{changed-there, changed-IsShaped}

module _ (p : Config) where
  abbrev pub zeros : ℕ → Option (List ℕ)
  zeros i = some (replicate (p.chunk_size * column_size p i) 0)

  abbrev pub grown : ℕ → Tables → Tables
  grown c t = with_vectors p.num_vector_columns c zeros (add_chunk p c t)

  blank-IsSized : IsSized p (blank_chunk p)
  blank-IsSized = record {
    bytes = all_bytes (p.chunk_size / 8);
    validity_size = length-replicate {A = ℕ} (p.chunk_size / 8) 0;
    rowids_size = length-replicate {A = ℕ} p.chunk_size 0;
  }
    where
      all_bytes : (n : ℕ) → IsBytes (replicate n 0)
      all_bytes zero = tt
      all_bytes (suc n) = (omega arith, all_bytes n)

  pub has-blank : (q : ℕ) → has (blank_chunk p).validity q ≡ false
  has-blank q = ground (
    arith,
    bitmap_get-digit (replicate (p.chunk_size / 8) 0) q,
    byte (p.chunk_size / 8) (q / 8),
    empty_byte (q % 8) (omega arith),
  )
    where
      byte : (n j : ℕ) → get_or {A = ℕ} (replicate n 0) j 0 ≡ 0
      byte zero j = refl
      byte (suc n) zero = refl
      byte (suc n) (suc j) = byte n j

  module _ (t : Tables) (st : IsStore p t) where
    abbrev next_chunk : ℕ
    next_chunk = t.chunk_sequence + 1

    no_chunk : t.chunks next_chunk ≡ none
    no_chunk = at (t.chunks next_chunk) refl
      where
        at : (row : Option Chunk) → t.chunks next_chunk ≡ row → row ≡ none
        at none e = refl
        at (some chunk) e = absurd (omega (arith, (st.shape.numbered next_chunk chunk e).1))

    pub vec0_new_chunk-Ends :
        (faults : Faults) (k : ℕ)
        → Ends faults
            (λ c u. (c ≡ t.chunk_sequence + 1) × (u ≡ grown (t.chunk_sequence + 1) t))
            (vec0_new_chunk p faults t k)
    unfolding vec0_new_chunk new_vectors
    vec0_new_chunk-Ends faults k = Ends-attempt faults _ _ sqlite_code t k (
        Ends-attempt faults _ _ sqlite_error t (k + 1) (
          Ends-then faults (grown next_chunk t) _ _ _
            (Ends-for_columns faults (λ i u. u ≡ with_vectors i next_chunk zeros base)
              (new_vectors p faults next_chunk) p.num_vector_columns
              (λ i u k' l h.
                subst
                  (λ v.
                    Ends faults (λ _ u'. u' ≡ with_vectors (i + 1) next_chunk zeros base)
                      (new_vectors p faults next_chunk i v k'))
                  (sym h) (round i k' l))
              p.num_vector_columns 0 base _ (omega arith) (with_vectors-zero next_chunk zeros base))
            (λ _ k'. (refl, refl))))
      where
        base : Tables
        base = add_chunk p next_chunk t

        round :
            (i k' : ℕ)
            → i < p.num_vector_columns
            → Ends faults
                (λ _ u. u ≡ with_vectors (i + 1) next_chunk zeros base)
                (new_vectors p faults next_chunk i (with_vectors i next_chunk zeros base) k')
        round i k' l = Ends-attempt faults _ _ sqlite_code _ k' (
            after_if p faults _ _
              (is_row ((with_vectors i next_chunk zeros base).vectors i next_chunk)) sqlite_code _ _
              (ap is_row
                (with_vectors-at next_chunk zeros base i ∙ st.shape.stray next_chunk i no_chunk l))
              (Ends-attempt faults _ _ sqlite_code _ _ (with_vectors-next next_chunk zeros base i)))

    -- No row is in the new chunk.
    elsewhere : (r c o : ℕ) → Holds p t c o r → c ≢ next_chunk
    elsewhere r c o g same =
        none-ne-some g.chunk (sym no_chunk ∙ subst (λ x. t.chunks x ≡ some g.chunk) same g.at)

    pub grown-IsStore : IsStore p (grown (t.chunk_sequence + 1) t)
    grown-IsStore = record {
      shape = shape;
      slot_of = λ r c o g.
          let held = st.slot_of r c o g in
          record {
            chunk = held.chunk;
            at =
                update_other t.chunks next_chunk (some (blank_chunk p)) c (elsewhere r c o held)
                ∙ held.at;
            within = held.within;
            valid = held.valid;
            named = held.named;
          };
      row_of = λ c o chunk g l v. elim (update-some t.chunks next_chunk (blank_chunk p) chunk c g) [
        | inl h ↦ absurd (off o (subst (λ x. has x.validity o ≡ true) (sym h.1) v))
        | inr h ↦ st.row_of c o chunk h.1 l v
      ];
      counted = st.counted;
    }
      where
        off : (o : ℕ) → has (blank_chunk p).validity o ≡ true → ⊥
        off o v = ground (arith, v, has-blank o)

        raised : IsShaped p (record t { chunk_sequence = next_chunk })
        raised = record {
          sized = st.shape.sized;
          stored = st.shape.stored;
          numbered = λ c chunk e. let n = st.shape.numbered c chunk e in (n.0, omega (arith, n.1));
          stray = st.shape.stray;
        }

        shape : IsShaped p (grown next_chunk t)
        shape =
            let s =
              changed-IsShaped p next_chunk (record t { chunk_sequence = next_chunk }) raised
                (blank_chunk p) zeros (omega arith, omega arith) blank-IsSized
                (λ i l. (
                  replicate (p.chunk_size * column_size p i) 0,
                  refl,
                  length-replicate {A = ℕ} (p.chunk_size * column_size p i) 0,
                )) in
            record { sized = s.sized; stored = s.stored; numbered = s.numbered; stray = s.stray }

    pub find-grown : (i r : ℕ) → find p (grown (t.chunk_sequence + 1) t) i r ≡ find p t i r
    unfolding find
    find-grown i r = at (t.rowids r) refl
      where
        at :
            (row : Option (Option (ℕ × ℕ)))
            → t.rowids r ≡ row
            → stored_at p (grown next_chunk t) i row ≡ stored_at p t i row
        at none g = refl
        at (some none) g = refl
        at (some (some (c, o))) g = ap (slice (column_size p i) o) (
            changed-there p next_chunk (some (blank_chunk p)) zeros t i c
              (elsewhere r c o (st.slot_of r c o g)))
