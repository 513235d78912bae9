-- ===== src/Store/Remove.antt =====
-- What `vec0Update_Delete` does as a whole.
use agos_memory.Base.{
  ℕ, ◌≡◌, refl, ◌∙◌, subst, arith, Option, none, some, if◌then◌else◌, set, length-set,
}
use agos_memory.Bitmap.{bitmap_set}
use agos_memory.Bitmap.Access.{bitmap_set-IsBytes, length-bitmap_set}
use agos_memory.Store.{Config, Chunk, Tables, update, Faults}
use agos_memory.Store.Steps.{column_size, put_chunk, put_rowid}
use agos_memory.Store.Delete.{all_zero, vec0_update_delete, vec0_update_delete_clear_rowid}
use agos_memory.Store.Maps.{update_self}
use agos_memory.Store.Outcome.{Ends, Ends-then, Ends-gives}
use agos_memory.Store.Vectors.{with_vectors}
use agos_memory.Store.Invariant.{IsConfig, IsSized, IsStore, Holds}
use agos_memory.Store.Erase.{
  zeroed, dropped, vec0_get_chunk_position-Ends, clear_validity-Ends, clear_rowid-Ends,
  clear_vectors-Ends, delete_rowids-Ends, delete_chunk_if_empty-Ends,
}

-- A chunk whose slot is free.
abbrev pub freed : ℕ → Chunk → Chunk
freed o chunk = record { validity = bitmap_set chunk.validity o 0; rowids = set chunk.rowids o 0 }

pub freed-IsSized :
    (p : Config) (o : ℕ) (chunk : Chunk) → IsSized p chunk → IsSized p (freed o chunk)
freed-IsSized p o chunk s = record {
  bytes = bitmap_set-IsBytes chunk.validity o 0 s.bytes;
  validity_size = length-bitmap_set chunk.validity o 0 ∙ s.validity_size;
  rowids_size = length-set chunk.rowids o 0 ∙ s.rowids_size;
}

pub put_chunk_twice :
    (c : ℕ) (x y : Option Chunk) (t : Tables) → put_chunk c y (put_chunk c x t) ≡ put_chunk c y t
put_chunk_twice c x y t = λ s. record t { chunks = λ j. cell j s }
  where
    cell : (j : ℕ) → update (update t.chunks c x) c y j ≡ update t.chunks c y j
    cell j = ground arith

module _ (p : Config) where
  -- The tables without the row, before an empty chunk goes.
  abbrev pub erased : ℕ → ℕ → ℕ → Chunk → Tables → Tables
  erased c o rowid chunk t = put_rowid rowid none (
      with_vectors p.num_vector_columns c (λ i. zeroed (column_size p i) o (t.vectors i c))
        (put_chunk c (some (freed o chunk)) t))

  abbrev pub removed : ℕ → ℕ → ℕ → Chunk → Tables → Tables
  removed c o rowid chunk t =
      if all_zero (bitmap_set chunk.validity o 0)
      then dropped p c (erased c o rowid chunk t)
      else erased c o rowid chunk t

  module _ (faults : Faults) (w : IsConfig p) (t : Tables) (st : IsStore p t) where
    pub vec0_update_delete-Ends :
        (c o rowid k : ℕ)
        → t.rowids rowid ≡ some (some (c, o))
        → (h : Holds p t c o rowid)
        → Ends faults
            (λ _ u. u ≡ removed c o rowid h.chunk t)
            (vec0_update_delete p faults rowid t k)
    unfolding vec0_update_delete
    vec0_update_delete-Ends c o rowid k e h =
        Ends-gives faults (c, o) t _ _ _
          (vec0_get_chunk_position-Ends p faults rowid (some (c, o)) t k e)
          (λ k1.
            Ends-then faults t1 _ _ _
              (clear_validity-Ends p faults c o h.chunk t k1 h.at size w h.within h.valid)
              (λ _ k2. Ends-then faults t2 _ _ _ (clear_rowid k2) (λ _ k3.
                Ends-then faults _ _ _ _
                  (clear_vectors-Ends p faults c o t2 k3 w h.within
                    (st.shape.stored c h.chunk h.at))
                  (λ _ k4.
                    Ends-then faults (erased c o rowid h.chunk t) _ _ _
                      (delete_rowids-Ends p faults rowid _ k4)
                      (λ _ k5.
                        Ends-then faults (removed c o rowid h.chunk t) _ _ _
                          (delete_chunk_if_empty-Ends p faults c (freed o h.chunk)
                            (erased c o rowid h.chunk t) k5
                            (update_self t.chunks c (some (freed o h.chunk)))
                            (omega (arith, size1.validity_size, w.whole_bytes, w.some_slots)))
                          (λ _ k6. refl))))))
      where
        size : IsSized p h.chunk
        size = st.shape.sized c h.chunk h.at

        chunk1 : Chunk
        chunk1 = record h.chunk { validity = bitmap_set h.chunk.validity o 0 }

        t1 : Tables
        t1 = put_chunk c (some chunk1) t

        t2 : Tables
        t2 = put_chunk c (some (freed o h.chunk)) t

        size1 : IsSized p chunk1
        size1 = record {
          bytes = bitmap_set-IsBytes h.chunk.validity o 0 size.bytes;
          validity_size = length-bitmap_set h.chunk.validity o 0 ∙ size.validity_size;
          rowids_size = size.rowids_size;
        }

        clear_rowid :
            (k : ℕ) → Ends faults (λ _ u. u ≡ t2) (vec0_update_delete_clear_rowid p faults c o t1 k)
        clear_rowid k =
            subst
              (λ v. Ends faults (λ _ u. u ≡ v) (vec0_update_delete_clear_rowid p faults c o t1 k))
              (put_chunk_twice c (some chunk1) (some (freed o h.chunk)) t)
              (clear_rowid-Ends p faults c o chunk1 t1 k (update_self t.chunks c (some chunk1))
                size1 w h.within)
