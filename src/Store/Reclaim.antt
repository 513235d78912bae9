-- ===== src/Store/Reclaim.antt =====
-- Deletion as a whole: an empty chunk goes, and with it no row.
use agos_memory.Base.{
  ℕ, zero, suc, ◌/◌, ◌%◌, ◌<◌, ◌≡◌, ◌≢◌, refl, sym, ◌∙◌, ap, subst, arith, Bool, true, false,
  Option, none, some, if◌then◌else◌, ◌==◌, [], ◌∷◌, get_or, &&_parts, ==_iff,
}
use mathlib.Core.Option.{some-injective}
use agos_memory.Bitmap.{Bitmap, bitmap_set, has}
use agos_memory.Bitmap.Access.{bitmap_get-digit, empty_byte}
use agos_memory.Store.{Config, Chunk, Tables, Faults}
use agos_memory.Store.Steps.{column_size}
use agos_memory.Store.Delete.{all_zero, vec0_update_delete}
use agos_memory.Store.Maps.{update_self, update_other, update-none}
use agos_memory.Store.Outcome.{Ends, Ends-imp}
use agos_memory.Store.Invariant.{IsConfig, IsStore, Holds, find, stored_at, slice}
use agos_memory.Store.Shape.{changed-there, dropped-IsShaped}
use agos_memory.Store.Erase.{dropped}
use agos_memory.Store.Remove.{freed, erased, removed, vec0_update_delete-Ends}
use agos_memory.Store.RemoveLaws.{after-IsStore, find-after}

-- An empty chunk holds no row.
has-all_zero : (bm : Bitmap) (q : ℕ) → all_zero bm ≡ true → has bm q ≡ false
unfolding all_zero
has-all_zero bm q z =
    ground (arith, bitmap_get-digit bm q, byte bm (q / 8) z, empty_byte (q % 8) (omega arith))
  where
    byte : (bm : Bitmap) (j : ℕ) → all_zero bm ≡ true → get_or bm j 0 ≡ 0
    byte [] j z = refl
    byte (x ∷ bm) zero z = (==_iff x 0).0 (&&_parts (x == 0) (all_zero bm) z).0
    byte (x ∷ bm) (suc j) z = byte bm j (&&_parts (x == 0) (all_zero bm) z).1

module _ (p : Config) (u : Tables) (st : IsStore p u) (c : ℕ) (chunk : Chunk)
    (here : u.chunks c ≡ some chunk) (z : all_zero chunk.validity ≡ true) where
  -- No row is in the chunk.
  elsewhere : (r c' o' : ℕ) → Holds p u c' o' r → c' ≢ c
  elsewhere r c' o' g same =
      let m : g.chunk ≡ chunk =
        some-injective g.chunk chunk
          (sym g.at ∙ subst (λ x. u.chunks x ≡ some chunk) (sym same) here) in
      let on : has chunk.validity o' ≡ true = subst (λ x. has x.validity o' ≡ true) m g.valid in
      ground (arith, on, has-all_zero chunk.validity o' z)

  dropped-IsStore : IsStore p (dropped p c u)
  dropped-IsStore =
      let s = dropped-IsShaped p c u st.shape in
      record {
        shape = s;
        slot_of = λ r c' o' g.
            let held = st.slot_of r c' o' g in
            record {
              chunk = held.chunk;
              at = update_other u.chunks c none c' (elsewhere r c' o' held) ∙ held.at;
              within = held.within;
              valid = held.valid;
              named = held.named;
            };
        row_of =
            λ c' o' chunk' g l v. st.row_of c' o' chunk' (update-none u.chunks c chunk' c' g).1 l v;
        counted = st.counted;
      }

  find-dropped : (i r : ℕ) → find p (dropped p c u) i r ≡ find p u i r
  unfolding find
  find-dropped i r = at (u.rowids r) refl
    where
      at :
          (row : Option (Option (ℕ × ℕ)))
          → u.rowids r ≡ row
          → stored_at p (dropped p c u) i row ≡ stored_at p u i row
      at none g = refl
      at (some none) g = refl
      at (some (some (c', o'))) g =
          ap (slice (column_size p i) o')
            (changed-there p c none (λ _. none) u i c' (elsewhere r c' o' (st.slot_of r c' o' g)))

-- The tables keep their invariant, and have the row no more and the other rows as they were.
pub record Removes (p : Config) (rowid : ℕ) (t u : Tables) : Type 0 where
  pub store : IsStore p u
  pub gone : u.rowids rowid ≡ none
  pub rows : (r : ℕ) → r ≢ rowid → u.rowids r ≡ t.rowids r
  pub finds :
      (i r : ℕ)
      → i < p.num_vector_columns
      → find p u i r ≡ (if r == rowid then none else find p t i r)

module _ (p : Config) (faults : Faults) (t : Tables) (w : IsConfig p) (st : IsStore p t) where
  removed-Removes :
      (c o rowid : ℕ)
      → t.rowids rowid ≡ some (some (c, o))
      → (h : Holds p t c o rowid) → Removes p rowid t (removed p c o rowid h.chunk t)
  removed-Removes c o rowid e h = choose (all_zero (bitmap_set h.chunk.validity o 0)) refl
    where
      after : Tables
      after = erased p c o rowid h.chunk t

      kept : Removes p rowid t after
      kept = record {
        store = after-IsStore p t w st c o rowid e h;
        gone = update_self t.rowids rowid none;
        rows = λ r d. update_other t.rowids rowid none r d;
        finds = λ i r l. find-after p t w st c o rowid e h i r l;
      }

      here : after.chunks c ≡ some (freed o h.chunk)
      here = update_self t.chunks c (some (freed o h.chunk))

      choose :
          (b : Bool)
          → all_zero (bitmap_set h.chunk.validity o 0) ≡ b
          → Removes p rowid t (if b then dropped p c after else after)
      choose false z = kept
      choose true z = record {
        store = dropped-IsStore p after kept.store c (freed o h.chunk) here z;
        gone = kept.gone;
        rows = kept.rows;
        finds = λ i r l.
            find-dropped p after kept.store c (freed o h.chunk) here z i r ∙ kept.finds i r l;
      }

  -- In tables that keep the invariant, the deletion of a row with a position keeps the invariant, has
  -- the row's number no more and all others, finds no vector for it in any column and finds the vectors of the other rows as
  -- before; it ends otherwise only when something it calls has failed.
  pub vec0_update_delete-Removes :
      (rowid c o k : ℕ)
      → t.rowids rowid ≡ some (some (c, o))
      → Ends faults (λ _ u. Removes p rowid t u) (vec0_update_delete p faults rowid t k)
  vec0_update_delete-Removes rowid c o k e =
      let h = st.slot_of rowid c o e in
      Ends-imp faults _ _ (vec0_update_delete p faults rowid t k)
        (λ _ u g. subst (Removes p rowid t) (sym g) (removed-Removes c o rowid e h))
        (vec0_update_delete-Ends p faults w t st c o rowid k e h)
