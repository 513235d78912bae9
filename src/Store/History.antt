-- ===== src/Store/History.antt =====
-- Tables that statements have made, and the finite map that they stand for.
use agos_memory.Base.{
  ℕ, ◌≡◌, refl, ◌∙◌, ap, subst, arith, Bool, true, false, Option, none, some, if◌then◌else◌, ◌==◌,
  List, length, &&_parts, ==_iff,
}
use agos_memory.Store.{
  ElementType, float32, int8, bit, vector_byte_size, vector_column_byte_size, Config, Tables,
  Result, ok, err, Faults, Code,
}
use agos_memory.Store.Insert.{VectorValue, Insertion, data_of, same_type, vec0_update_insert}
use agos_memory.Store.Update.{vec0_update_update}
use agos_memory.Store.UpdateLaws.{updated}
use agos_memory.Store.Delete.{vec0_update_delete}
use agos_memory.Store.Outcome.{Ends}
use agos_memory.Store.Keys.{Fits}
use agos_memory.Store.Refusals.{Refuses, accepts}

-- A vector has the bytes that its type and dimensions say: what `vector_from_value` sees to.
abbrev pub Whole : Insertion → Type 0
Whole row =
    (i : ℕ) (v : VectorValue)
    → row.vectors i ≡ some v
    → length v.data_bytes ≡ vector_byte_size v.element_type v.dimensions

abbrev pub WholeValues : (ℕ → Option (Option VectorValue)) → Type 0
WholeValues values =
    (i : ℕ) (v : VectorValue)
    → values i ≡ some (some v)
    → length v.data_bytes ≡ vector_byte_size v.element_type v.dimensions

abbrev pub empty_tables : Tables
empty_tables = record {
  chunks = λ _. none;
  chunk_sequence = 0;
  rowids = λ _. none;
  rowid_sequence = 0;
  vectors = λ _ _. none;
}

-- What statements that succeed make of the tables, beside the map from columns and rowids to vectors.
pub data Reaches (p : Config) (faults : Faults) : Tables → (ℕ → ℕ → Option (List ℕ)) → Type 0 where
  start : Reaches p faults empty_tables (λ _ _. none)
  insert :
      {t : Tables} {m : ℕ → ℕ → Option (List ℕ)} (row : Insertion) (rowid k : ℕ)
      → Reaches p faults t m
      → Whole row
      → (vec0_update_insert p faults row t k).0 ≡ ok rowid
      → Reaches p faults
          (vec0_update_insert p faults row t k).1
          (λ i r. if r == rowid then some (data_of (row.vectors i)) else m i r)
  delete :
      {t : Tables} {m : ℕ → ℕ → Option (List ℕ)} (rowid k : ℕ)
      → Reaches p faults t m
      → (vec0_update_delete p faults rowid t k).0 ≡ ok tt
      → Reaches p faults
          (vec0_update_delete p faults rowid t k).1
          (λ i r. if r == rowid then none else m i r)
  change :
      {t : Tables} {m : ℕ → ℕ → Option (List ℕ)} (rowid : ℕ)
      (values : ℕ → Option (Option VectorValue)) (k : ℕ)
      → Reaches p faults t m
      → WholeValues values
      → (vec0_update_update p faults rowid values t k).0 ≡ ok tt
      → Reaches p faults
          (vec0_update_update p faults rowid values t k).1
          (λ i r. if r == rowid then updated (values i) (m i r) else m i r)

abbrev value_or : {A : Type 0} → A → Result A → A
value_or a (ok b) = b
value_or a (err c) = a

abbrev is_ok : {A : Type 0} → Result A → Bool
is_ok (ok a) = true
is_ok (err c) = false

pub err-ne-ok : {A : Type 0} (c : Code) (a : A) → err c ≡ ok a → ⊥
err-ne-ok c a e = false_ne_true (ap is_ok e)
  where
    false_ne_true : false ≡ true → ⊥
    false_ne_true g = ground arith

pub Ends-ok :
    {A : Type 0} (faults : Faults) (Q : A → Tables → Type 0) (a : A) (r : Result A × Tables × ℕ)
    → r.0 ≡ ok a
    → Ends faults Q r
    → Q a r.1
Ends-ok faults Q a (ok b, t, k) e h = subst (λ x. Q x t) (ap (value_or a) e) h
Ends-ok faults Q a (err c, t, k) e h = absurd (err-ne-ok c a e)

pub Refuses-ok :
    {A : Type 0} (faults : Faults) (c : Code) (t : Tables) (a : A) (r : Result A × Tables × ℕ)
    → r.0 ≡ ok a
    → Refuses faults c t r
    → ⊥
Refuses-ok faults c t a (ok b, u, k) e h = h
Refuses-ok faults c t a (err d, u, k) e h = err-ne-ok d a e

same_type-path : (a b : ElementType) → same_type a b ≡ true → a ≡ b
unfolding same_type
same_type-path float32 float32 e = refl
same_type-path int8 int8 e = refl
same_type-path bit bit e = refl
same_type-path float32 int8 e = ground (arith, e)
same_type-path float32 bit e = ground (arith, e)
same_type-path int8 float32 e = ground (arith, e)
same_type-path int8 bit e = ground (arith, e)
same_type-path bit float32 e = ground (arith, e)
same_type-path bit int8 e = ground (arith, e)

pub accepts-Fits :
    (p : Config) (value : Option VectorValue) (i : ℕ)
    → accepts (p.vector_columns i) value ≡ true
    → ((v : VectorValue)
        → value ≡ some v
        → length v.data_bytes ≡ vector_byte_size v.element_type v.dimensions)
    → Fits p value i
unfolding accepts vector_column_byte_size
accepts-Fits p none i e h = ground (arith, e)
accepts-Fits p (some v) i e h =
    let both = &&_parts _ _ e in
    let dims : v.dimensions ≡ (p.vector_columns i).dimensions = (==_iff _ _).0 both.1 in
    record {
      vector = v;
      given = refl;
      typed = both.0;
      dimensioned = dims;
      whole = h v refl ∙ (λ s.
          vector_byte_size
            (same_type-path v.element_type (p.vector_columns i).element_type both.0 s) (dims s));
    }

-- Every row has a place.
abbrev pub Placed : Tables → Type 0
Placed t = (r : ℕ) → t.rowids r ≡ some none → ⊥
