-- ===== src/Store/Place.antt =====
-- `vec0Update_InsertWriteFinalStep` as a whole.
use agos_memory.Base.{
  ℕ, ◌*◌, ◌/◌, ◌%◌, ◌<◌, ◌≡◌, refl, ◌∙◌, ap, subst, arith, not, Option, none, some, ◌==◌, List,
  length, get_or, set, length-set,
}
use agos_memory.Bitmap.{bitmap_set, byte_on}
use agos_memory.Bitmap.Access.{bitmap_set-IsBytes, length-bitmap_set}
use agos_memory.Store.{Config, Chunk, Tables, Faults, sqlite_code, sqlite_error}
use agos_memory.Store.Steps.{
  column_size, put_chunk, put_rowid, placed, vec0_rowids_update_position, write_validity, set_rowid,
}
use agos_memory.Store.Insert.{
  vec0_update_insert_write_final_step, mark_validity_bit, write_chunk_rowid,
}
use agos_memory.Store.Maps.{update_self}
use agos_memory.Store.Outcome.{Ends, Ends-attempt, Ends-attempt_last, Ends-then}
use agos_memory.Store.Rules.{after_if, after_chunk_row, after_reach}
use agos_memory.Store.Vectors.{with_vectors}
use agos_memory.Store.Invariant.{IsConfig, IsSized, Stored}
use agos_memory.Store.Shape.{changed}
use agos_memory.Store.Remove.{put_chunk_twice}
use agos_memory.Store.Fill.{taken, overwrites, write_vectors-Ends}

pub taken-IsSized :
    (p : Config) (o rowid : ℕ) (chunk : Chunk) → IsSized p chunk → IsSized p (taken o rowid chunk)
taken-IsSized p o rowid chunk s = record {
  bytes = bitmap_set-IsBytes chunk.validity o 1 s.bytes;
  validity_size = length-bitmap_set chunk.validity o 1 ∙ s.validity_size;
  rowids_size = length-set chunk.rowids o rowid ∙ s.rowids_size;
}

vec0_rowids_update_position-Ends :
    (p : Config) (faults : Faults) (rowid c o : ℕ) (row : Option (ℕ × ℕ)) (t : Tables) (k : ℕ)
    → t.rowids rowid ≡ some row
    → Ends faults
        (λ _ u. u ≡ put_rowid rowid (some (some (c, o))) t)
        (vec0_rowids_update_position p faults rowid c o t k)
unfolding vec0_rowids_update_position
vec0_rowids_update_position-Ends p faults rowid c o row t k e =
    Ends-attempt faults _ _ sqlite_code t k
      (Ends-attempt faults _ _ sqlite_error t _ (ap (λ x. put_rowid rowid (placed x (c, o)) t) e))

mark_validity_bit-Ends :
    (p : Config) (faults : Faults) (w : IsConfig p) (c o : ℕ) (chunk : Chunk) (t : Tables) (k : ℕ)
    → t.chunks c ≡ some chunk
    → IsSized p chunk
    → o < p.chunk_size
    → Ends faults
        (λ _ u.
          u ≡ put_chunk c (some (record chunk { validity = bitmap_set chunk.validity o 1 })) t)
        (mark_validity_bit p faults c o chunk.validity t k)
unfolding mark_validity_bit bitmap_set
mark_validity_bit-Ends p faults w c o chunk t k here s l =
    after_reach p faults _ _ (length chunk.validity) 1 (o / 8) sqlite_code t k
      (omega (arith, s.validity_size, w.whole_bytes))
      (ap
        (λ x.
          put_chunk c (write_validity (o / 8) (byte_on (get_or chunk.validity (o / 8) 0) (o % 8)) x)
            t)
        here)

write_chunk_rowid-Ends :
    (p : Config) (faults : Faults) (c o rowid : ℕ) (chunk : Chunk) (t : Tables) (k : ℕ)
    → t.chunks c ≡ some chunk
    → length chunk.rowids ≡ p.chunk_size
    → o < p.chunk_size
    → Ends faults
        (λ _ u. u ≡ put_chunk c (some (record chunk { rowids = set chunk.rowids o rowid })) t)
        (write_chunk_rowid p faults c o rowid t k)
unfolding write_chunk_rowid
write_chunk_rowid-Ends p faults c o rowid chunk t k here s l =
    after_chunk_row p faults _ _ c sqlite_code t k chunk here (
      after_if p faults _ _ (not (length chunk.rowids * 8 == p.chunk_size * 8)) sqlite_error t _
        (ground (arith, s))
        (after_reach p faults _ _ (length chunk.rowids * 8) 8 (o * 8) sqlite_error t _
          (omega (arith, s)) (ap (λ x. put_chunk c (set_rowid o rowid x) t) here)))

-- The tables with the row in the slot.
abbrev pub filled : Config → (ℕ → List ℕ) → ℕ → ℕ → ℕ → Chunk → Tables → Tables
filled p vector_datas c o rowid chunk t =
    put_rowid rowid (some (some (c, o)))
      (changed p c (some (taken o rowid chunk)) (overwrites p vector_datas c o t) t)

module _ (p : Config) (w : IsConfig p) (vector_datas : ℕ → List ℕ)
    (whole : (i : ℕ) → i < p.num_vector_columns → length (vector_datas i) ≡ column_size p i) where
  pub vec0_update_insert_write_final_step-Ends :
      (faults : Faults) (c o rowid : ℕ) (chunk : Chunk) (t : Tables) (k : ℕ)
      → t.chunks c ≡ some chunk
      → IsSized p chunk
      → Stored p c t
      → o < p.chunk_size
      → t.rowids rowid ≡ some none
      → Ends faults
          (λ _ u. u ≡ filled p vector_datas c o rowid chunk t)
          (vec0_update_insert_write_final_step p faults c o rowid vector_datas chunk.validity t k)
  unfolding vec0_update_insert_write_final_step bitmap_set
  vec0_update_insert_write_final_step-Ends faults c o rowid chunk t k here s stored l e =
      Ends-then faults t1 _ _ _ (mark_validity_bit-Ends p faults w c o chunk t k here s l) (λ _ k1.
        Ends-then faults t2 _ _ _
          (write_vectors-Ends p faults w vector_datas whole c o t1 k1 l stored)
          (λ _ k2. Ends-then faults t3 _ _ _ (written k2) (λ _ k3.
            Ends-then faults (filled p vector_datas c o rowid chunk t) _ _ _
              (vec0_rowids_update_position-Ends p faults rowid c o none t3 k3 e)
              (λ _ k4. Ends-attempt_last faults _ sqlite_code _ k4 refl))))
    where
      chunk1 : Chunk
      chunk1 = record chunk { validity = bitmap_set chunk.validity o 1 }

      t1 : Tables
      t1 = put_chunk c (some chunk1) t

      t2 : Tables
      t2 = with_vectors p.num_vector_columns c (overwrites p vector_datas c o t) t1

      t3 : Tables
      t3 = changed p c (some (taken o rowid chunk)) (overwrites p vector_datas c o t) t

      written : (k : ℕ) → Ends faults (λ _ u. u ≡ t3) (write_chunk_rowid p faults c o rowid t2 k)
      written k =
          subst (λ v. Ends faults (λ _ u. u ≡ v) (write_chunk_rowid p faults c o rowid t2 k))
            (ap (with_vectors p.num_vector_columns c (overwrites p vector_datas c o t))
              (put_chunk_twice c (some chunk1) (some (taken o rowid chunk)) t))
            (write_chunk_rowid-Ends p faults c o rowid chunk1 t2 k
              (update_self t.chunks c (some chunk1)) s.rowids_size l)
