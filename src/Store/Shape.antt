-- ===== src/Store/Shape.antt =====
-- The chunk tables keep their shape when one chunk changes, and when one goes.
use agos_memory.Base.{
  ℕ, ◌*◌, ◌≤◌, ◌<◌, ◌≡◌, ◌≢◌, sym, ◌∙◌, subst, arith, Option, none, some, List, length, inl, inr,
  lt→ltb,
}
use mathlib.Core.Option.{none-ne-some}
use agos_memory.Store.{Config, Chunk, Tables, update}
use agos_memory.Store.Steps.{column_size, put_chunk}
use agos_memory.Store.Maps.{
  update_self, update_other, update-some, update-none, same_or_apart, apart_test,
}
use agos_memory.Store.Vectors.{with_vectors}
use agos_memory.Store.Invariant.{IsSized, IsShaped, Stored}

-- A chunk and its vectors replaced, or taken out.
abbrev pub changed : Config → ℕ → Option Chunk → (ℕ → Option (List ℕ)) → Tables → Tables
changed p c chunk rows t = with_vectors p.num_vector_columns c rows (put_chunk c chunk t)

module _ (p : Config) (c : ℕ) (chunk : Option Chunk) (rows : ℕ → Option (List ℕ)) (t : Tables) where
  pub changed-here :
      (i : ℕ) → i < p.num_vector_columns → (changed p c chunk rows t).vectors i c ≡ rows i
  changed-here i l = ground (arith, lt→ltb i p.num_vector_columns l)

  pub changed-there : (i j : ℕ) → j ≢ c → (changed p c chunk rows t).vectors i j ≡ t.vectors i j
  changed-there i j h = rw (apart_test j c h) (ground arith)

-- The blobs that are written have their sizes.
abbrev pub Blobs : Config → (ℕ → Option (List ℕ)) → Type 0
Blobs p rows =
    (i : ℕ)
    → i < p.num_vector_columns
    → (blob : List ℕ) × (rows i ≡ some blob) × (length blob ≡ p.chunk_size * column_size p i)

module _ (p : Config) (c : ℕ) (t : Tables) (s : IsShaped p t) where
  pub changed-IsShaped :
      (new : Chunk) (rows : ℕ → Option (List ℕ))
      → (0 < c) × (c ≤ t.chunk_sequence)
      → IsSized p new
      → Blobs p rows
      → IsShaped p (changed p c (some new) rows t)
  changed-IsShaped new rows range size blobs = record {
    sized = λ j chunk e. elim (update-some t.chunks c new chunk j e) [
      | inl h ↦ subst (IsSized p) h.1 size
      | inr h ↦ s.sized j chunk h.1
    ];
    stored = λ j chunk e. elim (update-some t.chunks c new chunk j e) [
      | inl h ↦ subst (λ x. Stored p x u) (sym h.0) stored_here
      | inr h ↦ stored_there j chunk h.0 h.1
    ];
    numbered = λ j chunk e. elim (update-some t.chunks c new chunk j e) [
      | inl h ↦ subst (λ x. (0 < x) × (x ≤ t.chunk_sequence)) (sym h.0) range
      | inr h ↦ s.numbered j chunk h.1
    ];
    stray = λ j i e l. elim (same_or_apart j c) [
      | inl h ↦ absurd (
          none-ne-some new (
            sym e
            ∙ subst (λ x. update t.chunks c (some new) x ≡ some new) (sym h)
                (update_self t.chunks c (some new))))
      | inr h ↦
          changed-there p c (some new) rows t i j h
          ∙ s.stray j i (sym (update_other t.chunks c (some new) j h) ∙ e) l
    ];
  }
    where
      u : Tables
      u = changed p c (some new) rows t

      stored_here : Stored p c u
      stored_here i l =
          let blob = blobs i l in (blob.0, changed-here p c (some new) rows t i l ∙ blob.1, blob.2)

      stored_there : (j : ℕ) (chunk : Chunk) → j ≢ c → t.chunks j ≡ some chunk → Stored p j u
      stored_there j chunk h e i l =
          let blob = s.stored j chunk e i l in
          (blob.0, changed-there p c (some new) rows t i j h ∙ blob.1, blob.2)

  pub dropped-IsShaped : IsShaped p (changed p c none (λ _. none) t)
  dropped-IsShaped = record {
    sized = λ j chunk e. s.sized j chunk (update-none t.chunks c chunk j e).1;
    stored = λ j chunk e i l.
        let h = update-none t.chunks c chunk j e in
        let blob = s.stored j chunk h.1 i l in
        (blob.0, changed-there p c none (λ _. none) t i j h.0 ∙ blob.1, blob.2);
    numbered = λ j chunk e. s.numbered j chunk (update-none t.chunks c chunk j e).1;
    stray = λ j i e l. elim (same_or_apart j c) [
      | inl h ↦
          subst (λ x. (changed p c none (λ _. none) t).vectors i x ≡ none) (sym h)
            (changed-here p c none (λ _. none) t i l)
      | inr h ↦
          changed-there p c none (λ _. none) t i j h
          ∙ s.stray j i (sym (update_other t.chunks c none j h) ∙ e) l
    ];
  }
