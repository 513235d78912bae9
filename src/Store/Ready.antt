-- ===== src/Store/Ready.antt =====
-- `vec0Update_InsertNextAvailableStep` finds a free slot of a chunk, or makes a new chunk.
use agos_memory.Base.{
  ℕ, zero, suc, ◌+◌, ◌/◌, ◌<◌, ◌≡◌, refl, sym, ◌∙◌, subst, arith, Bool, true, false, not, Option,
  none, some, ◌==◌, length,
}
use mathlib.Core.Option.{none-ne-some, some-injective}
use agos_memory.Bitmap.{Bitmap, bitmap_get, has}
use agos_memory.Store.{
  Config, Chunk, Tables, Result, ok, err, Faults, sqlite_code, sqlite_error, sqlite_nomem,
  undefined,
}
use agos_memory.Store.Steps.{max_rowid, vec0_get_latest_chunk_rowid, vec0_new_chunk, blank_chunk}
use agos_memory.Store.Insert.{
  next_free, open_validity, open_new_validity, close_stale, as_error, use_new_chunk, use_free,
  use_latest, vec0_update_insert_next_available_step,
}
use agos_memory.Store.Maps.{update_self}
use agos_memory.Store.Outcome.{Ends, Ends-attempt, Ends-attempt_last, Ends-gives, Ends-then}
use agos_memory.Store.Rules.{after_if, after_chunk_row, after_malloc}
use agos_memory.Store.Invariant.{IsConfig, IsSized, IsStore, find}
use agos_memory.Store.Free.{next_free-FirstFree, FirstFree}
use agos_memory.Store.Grow.{grown, has-blank, vec0_new_chunk-Ends, grown-IsStore, find-grown}

-- The place is a free slot, the buffer is its chunk's bitmap, and no row has changed.
pub record Ready (p : Config) (t : Tables) (place : ℕ × ℕ × Bitmap) (u : Tables) : Type 0 where
  pub store : IsStore p u
  pub chunk : Chunk
  pub at : u.chunks place.0 ≡ some chunk
  pub buffer : place.2 ≡ chunk.validity
  pub within : place.1 < p.chunk_size
  pub free : has chunk.validity place.1 ≡ false
  pub rowids : u.rowids ≡ t.rowids
  pub sequence : u.rowid_sequence ≡ t.rowid_sequence
  pub finds : (i r : ℕ) → find p u i r ≡ find p t i r

max_rowid-row :
    (chunks : ℕ → Option Chunk) (n c : ℕ)
    → max_rowid chunks n ≡ some c
    → (chunk : Chunk) × (chunks c ≡ some chunk)
unfolding max_rowid
max_rowid-row chunks zero c e = absurd (none-ne-some c e)
max_rowid-row chunks (suc n) c e = choose (chunks (suc n)) (max_rowid-row chunks n c) refl
  where
    choose :
        (row : Option Chunk)
        → (max_rowid chunks n ≡ some c → (chunk : Chunk) × (chunks c ≡ some chunk))
        → chunks (suc n) ≡ row
        → (chunk : Chunk) × (chunks c ≡ some chunk)
    choose none lower g = lower (sym (rw g refl) ∙ e)
    choose (some chunk) lower g = (
      chunk,
      subst (λ x. chunks x ≡ some chunk) (some-injective (suc n) c (sym (rw g refl) ∙ e)) g,
    )

module _ (p : Config) (faults : Faults) (w : IsConfig p) where
  open_validity-Ends :
      (c : ℕ) (chunk : Chunk) (t : Tables) (k : ℕ)
      → t.chunks c ≡ some chunk
      → IsSized p chunk
      → Ends faults (λ v u. (v ≡ chunk.validity) × (u ≡ t)) (open_validity p faults c t k)
  unfolding open_validity
  open_validity-Ends c chunk t k here s =
      after_chunk_row p faults _ _ c sqlite_code t k chunk here (
        after_if p faults _ _ (not (length chunk.validity == p.chunk_size / 8)) sqlite_error t _
          (ground (arith, s.validity_size))
          (after_malloc p faults _ _ (length chunk.validity) sqlite_nomem t _
            (omega (arith, s.validity_size, w.whole_bytes, w.some_slots))
            (Ends-attempt faults _ _ sqlite_code t _ (refl, refl))))

  open_new_validity-Ends :
      (c : ℕ) (chunk : Chunk) (t : Tables) (k : ℕ)
      → t.chunks c ≡ some chunk
      → IsSized p chunk
      → Ends faults (λ v u. (v ≡ chunk.validity) × (u ≡ t)) (open_new_validity p faults c t k)
  unfolding open_new_validity
  open_new_validity-Ends c chunk t k here s =
      after_chunk_row p faults _ _ c sqlite_code t k chunk here (
        after_if p faults _ _ (not (length chunk.validity == p.chunk_size / 8)) undefined t _
          (ground (arith, s.validity_size))
          (after_malloc p faults _ _ (length chunk.validity) undefined t _
            (omega (arith, s.validity_size, w.whole_bytes, w.some_slots))
            (Ends-attempt faults _ _ sqlite_code t _ (refl, refl))))

  pub as_error-Ends :
      {A : Type 0} (Q : A → Tables → Type 0) (r : Result A × Tables × ℕ)
      → Ends faults Q r
      → Ends faults Q (as_error r)
  as_error-Ends Q (ok a, t, k) h = h
  as_error-Ends Q (err c, t, k) h = h

  close_stale-Ends :
      (stale : Bool) (t : Tables) (k : ℕ)
      → Ends faults (λ _ u. u ≡ t) (close_stale p faults stale t k)
  close_stale-Ends true t k = Ends-attempt_last faults _ sqlite_error t k refl
  close_stale-Ends false t k = refl

  module _ (t : Tables) (st : IsStore p t) where
    new_Ready :
        Ready p t
          (t.chunk_sequence + 1, 0, (blank_chunk p).validity)
          (grown p (t.chunk_sequence + 1) t)
    new_Ready = record {
      store = grown-IsStore p t st;
      chunk = blank_chunk p;
      at = update_self t.chunks (t.chunk_sequence + 1) (some (blank_chunk p));
      buffer = refl;
      within = w.some_slots;
      free = has-blank p 0;
      rowids = refl;
      sequence = refl;
      finds = find-grown p t st;
    }

    use_new_chunk-Ready :
        (stale : Bool) (k : ℕ) → Ends faults (Ready p t) (use_new_chunk p faults stale t k)
    unfolding use_new_chunk
    use_new_chunk-Ready stale k =
        Ends-gives faults (t.chunk_sequence + 1) u (Ready p t) _
          (as_error (vec0_new_chunk p faults t k))
          (as_error-Ends (λ c v. (c ≡ t.chunk_sequence + 1) × (v ≡ u)) (vec0_new_chunk p faults t k)
            (vec0_new_chunk-Ends p t st faults k))
          (λ k1. Ends-then faults u _ _ _ (close_stale-Ends stale u k1) (λ _ k2.
            Ends-gives faults (blank_chunk p).validity u _ _ _
              (open_new_validity-Ends (t.chunk_sequence + 1) (blank_chunk p) u k2 here
                ((grown-IsStore p t st).shape.sized (t.chunk_sequence + 1) (blank_chunk p) here))
              (λ k3. new_Ready)))
      where
        u : Tables
        u = grown p (t.chunk_sequence + 1) t

        here : u.chunks (t.chunk_sequence + 1) ≡ some (blank_chunk p)
        here = update_self t.chunks (t.chunk_sequence + 1) (some (blank_chunk p))

    use_free-Ready :
        (c : ℕ) (chunk : Chunk) (o : Option ℕ) (k : ℕ)
        → t.chunks c ≡ some chunk
        → FirstFree chunk.validity 0 o
        → Ends faults (Ready p t) (use_free p faults c chunk.validity o t k)
    use_free-Ready c chunk none k here f = use_new_chunk-Ready true k
    use_free-Ready c chunk (some o) k here f = record {
      store = st;
      chunk = chunk;
      at = here;
      buffer = refl;
      within = omega (arith, f.1, f.2, (st.shape.sized c chunk here).validity_size);
      free = off (omega (arith, f.1)) f.3;
      rowids = refl;
      sequence = refl;
      finds = λ i r. refl;
    }
      where
        off : {q : ℕ} → q ≡ o → bitmap_get chunk.validity q ≡ 0 → has chunk.validity o ≡ false
        off same e = ground (arith, subst (λ x. bitmap_get chunk.validity x ≡ 0) same e)

    open_latest-Ready :
        (c k : ℕ)
        → (chunk : Chunk) × (t.chunks c ≡ some chunk)
        → Ends faults (Ready p t) (use_latest p faults (ok c, t, k))
    unfolding use_latest
    open_latest-Ready c k (chunk, here) =
        Ends-gives faults chunk.validity t _ _ _
          (open_validity-Ends c chunk t k here (st.shape.sized c chunk here))
          (λ k'.
            use_free-Ready c chunk (next_free chunk.validity 0) k' here
              (next_free-FirstFree chunk.validity 0 (st.shape.sized c chunk here).bytes))

    -- In tables that keep the invariant the step gives a free slot of a chunk with the chunk's bitmap, and
    -- no row loses or gets a vector; it ends otherwise only when something it calls has failed.
    pub vec0_update_insert_next_available_step-Ready :
        (k : ℕ) → Ends faults (Ready p t) (vec0_update_insert_next_available_step p faults t k)
    unfolding vec0_update_insert_next_available_step vec0_get_latest_chunk_rowid use_latest
    vec0_update_insert_next_available_step-Ready k = first (faults k) refl
      where
        found :
            (latest : Option ℕ) (b : Bool)
            → max_rowid t.chunks t.chunk_sequence ≡ latest
            → faults (k + 1 + 1) ≡ b
            → faults k ≡ false
            → faults (k + 1) ≡ false
            → Ends faults
                (Ready p t)
                (use_latest p faults (vec0_get_latest_chunk_rowid p faults t k))
        found none b e g g1 g2 = rw (g1, g2, e) (use_new_chunk-Ready false (k + 1 + 1))
        found (some c) true e g g1 g2 = rw (g1, g2, e, g) (k + 1 + 1, g, omega arith)
        found (some c) false e g g1 g2 =
            rw (g1, g2, e, g)
              (open_latest-Ready c (k + 1 + 1 + 1) (max_rowid-row t.chunks t.chunk_sequence c e))

        second :
            (b : Bool)
            → faults (k + 1) ≡ b
            → faults k ≡ false
            → Ends faults
                (Ready p t)
                (use_latest p faults (vec0_get_latest_chunk_rowid p faults t k))
        second true g g1 = rw (g1, g) (k + 1, g, omega arith)
        second false g g1 =
            found (max_rowid t.chunks t.chunk_sequence) (faults (k + 1 + 1)) refl refl g1 g

        first :
            (b : Bool)
            → faults k ≡ b
            → Ends faults
                (Ready p t)
                (use_latest p faults (vec0_get_latest_chunk_rowid p faults t k))
        first true g = rw g (k, g, omega arith)
        first false g = second (faults (k + 1)) refl g
