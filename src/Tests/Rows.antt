-- ===== src/Tests/Rows.antt =====
-- The row store at a small table: one column of eight-byte vectors, in chunks of eight rows.
use agos_memory.Base.{
  Option, ℕ, ◌<◌, ◌≡◌, refl, arith, subst, true, false, none, some, List, [], ◌∷◌, ◌++◌, replicate,
  if◌then◌else◌, ◌==◌, length,
}
use mathlib.Core.Option.{some-injective}
use agos_memory.Bitmap.{byte_on}
use agos_memory.Nodes.{copy_in}
use agos_memory.Store.Steps.{
  for_columns, vec0_rowids_insert_rowid, vec0_get_latest_chunk_rowid, max_rowid, vec0_new_chunk,
  new_vectors, vec0_rowids_update_position,
}
use agos_memory.Store.{
  vector_column_byte_size, vector_byte_size, int8, Config, Tables, ok, err, Faults, sqlite_error,
}
use agos_memory.Store.Insert.{
  VectorValue, id_integer, Insertion, next_free, free_in_byte, check_vector, same_type,
  replace_existing, vec0_update_insert_rowid_step, use_latest, use_new_chunk, open_new_validity,
  vec0_update_insert_write_final_step, mark_validity_bit, write_vector,
  vec0_write_vector_to_vector_blob, vector_write_size, vector_write_offset, write_chunk_rowid,
  vec0_update_insert, vec0_update_insert_next_available_step,
}
use agos_memory.Store.Delete.{vec0_update_delete}
use agos_memory.Store.Outcome.{Ends, Ends-quiet}
use agos_memory.Store.Invariant.{IsConfig, find}
use agos_memory.Store.Free.{FirstFree, next_free-FirstFree}
use agos_memory.Store.Ready.{Ready, vec0_update_insert_next_available_step-Ready}
use agos_memory.Store.Reclaim.{Removes, vec0_update_delete-Removes}
use agos_memory.Store.Keys.{IsAccepted}
use agos_memory.Store.Adds.{Adds, vec0_update_insert-Adds}
use agos_memory.Store.Refusals.{
  Refuses, accepts, vec0_update_insert-refused, vec0_update_insert-Refuses,
}
use agos_memory.Store.Deletes.{Deletes, vec0_update_delete-Deletes}
use agos_memory.Store.History.{Whole, Reaches, start, insert, delete, empty_tables}
use agos_memory.Store.Reached.{Stands, Reaches-Stands, empty-Stands}
use agos_memory.Store.Update.{vec0_update_update}
use agos_memory.Store.UpdateLaws.{FitsIfGiven}
use agos_memory.Store.Updates.{SetsVectors, vec0_update_update-SetsVectors}
use agos_memory.Store.Read.{vec0_get_vector_data, vec0_get_vector_data-find}

abbrev quiet : Faults
quiet k = false

abbrev sample : Config
sample = record {
  chunk_size = 8;
  num_vector_columns = 1;
  vector_columns = λ _. record { element_type = int8; dimensions = 8 };
}

abbrev first_vector : List ℕ
first_vector = 1 ∷ 2 ∷ 3 ∷ 4 ∷ 5 ∷ 6 ∷ 7 ∷ 8 ∷ []

abbrev octet : List ℕ → VectorValue
octet bytes = record { element_type = int8; dimensions = 8; data_bytes = bytes }

abbrev first_row : Insertion
first_row = record {
  replace = false;
  id = id_integer 5;
  vectors = λ _. some (octet first_vector);
  has_distance = false;
  has_k = false;
}

abbrev tables_after : Insertion → Tables → Tables
tables_after row t = (vec0_update_insert sample quiet row t 0).1

-- The new chunk, the row's slot and its vector.
first_row_runs :
    ((vec0_update_insert sample quiet first_row empty_tables 0).0 ≡ ok 5)
    × ((tables_after first_row empty_tables).vectors 0 1 ≡ some (first_vector ++ replicate 56 0))
    × ((tables_after first_row empty_tables).rowids 5 ≡ some (some (1, 0)))
unfolding vec0_update_insert for_columns check_vector same_type replace_existing
    vec0_update_insert_rowid_step vec0_rowids_insert_rowid vec0_update_insert_next_available_step
    use_latest vec0_get_latest_chunk_rowid max_rowid use_new_chunk vec0_new_chunk new_vectors
    open_new_validity vec0_update_insert_write_final_step mark_validity_bit write_vector
    vec0_write_vector_to_vector_blob vector_write_size vector_write_offset write_chunk_rowid
    vec0_rowids_update_position vector_column_byte_size vector_byte_size copy_in byte_on
first_row_runs = (refl, refl, refl)

sample-IsConfig : IsConfig sample
unfolding vector_column_byte_size vector_byte_size
sample-IsConfig = record {
  whole_bytes = refl;
  some_slots = omega arith;
  some_bytes = λ i l. omega arith;
  whole_vectors = λ i l e. refl;
}

first_row-IsAccepted : IsAccepted sample first_row
unfolding vector_column_byte_size vector_byte_size same_type
first_row-IsAccepted = record {
  fits = λ i l. record {
    vector = octet first_vector;
    given = refl;
    typed = refl;
    dimensioned = refl;
    whole = refl;
  };
  no_distance = refl;
  no_k = refl;
}

vec0_update_insert-Adds_example :
    Ends quiet
      (λ r u. (r ≡ 5) × Adds sample first_row 5 empty_tables u)
      (vec0_update_insert sample quiet first_row empty_tables 0)
vec0_update_insert-Adds_example =
    vec0_update_insert-Adds sample sample-IsConfig first_row first_row-IsAccepted quiet empty_tables
      (empty-Stands sample).store 5 0 (refl, refl)

one_row-Adds : Adds sample first_row 5 empty_tables (tables_after first_row empty_tables)
one_row-Adds =
    let (r, e, h) =
      Ends-quiet (λ r u. (r ≡ 5) × Adds sample first_row 5 empty_tables u)
        (vec0_update_insert sample quiet first_row empty_tables 0)
        vec0_update_insert-Adds_example in
    h.1

vec0_update_delete-Removes_example :
    Ends quiet
      (λ _ u. Removes sample 5 (tables_after first_row empty_tables) u)
      (vec0_update_delete sample quiet 5 (tables_after first_row empty_tables) 0)
vec0_update_delete-Removes_example =
    vec0_update_delete-Removes sample quiet (tables_after first_row empty_tables) sample-IsConfig
      one_row-Adds.store 5 one_row-Adds.place.0 one_row-Adds.place.1 0 one_row-Adds.placed

vec0_get_vector_data-find_example :
    Ends quiet
      (λ v u.
        (some v ≡ find sample (tables_after first_row empty_tables) 0 5)
        × (u ≡ tables_after first_row empty_tables))
      (vec0_get_vector_data sample quiet 5 0 (tables_after first_row empty_tables) 0)
vec0_get_vector_data-find_example =
    vec0_get_vector_data-find sample quiet sample-IsConfig (tables_after first_row empty_tables)
      one_row-Adds.store 5 one_row-Adds.place.0 one_row-Adds.place.1 0 0 one_row-Adds.placed
      (omega arith)

vec0_update_insert_next_available_step-Ready_example :
    Ends quiet
      (Ready sample (tables_after first_row empty_tables))
      (vec0_update_insert_next_available_step sample quiet (tables_after first_row empty_tables) 0)
vec0_update_insert_next_available_step-Ready_example =
    vec0_update_insert_next_available_step-Ready sample quiet sample-IsConfig
      (tables_after first_row empty_tables) one_row-Adds.store 0

next_free-FirstFree_example : FirstFree (255 ∷ 7 ∷ []) 0 (next_free (255 ∷ 7 ∷ []) 0)
next_free-FirstFree_example = next_free-FirstFree (255 ∷ 7 ∷ []) 0 (omega arith, (omega arith, tt))

next_free_runs : next_free (255 ∷ 7 ∷ []) 0 ≡ some 11
unfolding next_free free_in_byte
next_free_runs = refl

first_row-Whole : Whole first_row
unfolding vector_byte_size
first_row-Whole i v e =
    subst (λ x. length x.data_bytes ≡ vector_byte_size x.element_type x.dimensions)
      (some-injective (octet first_vector) v e) refl

-- The row is inserted and deleted again.
there_and_back :
    Reaches sample quiet
      (vec0_update_delete sample quiet 5 (tables_after first_row empty_tables) 0).1
      (λ i r. if r == 5 then none else if r == 5 then some first_vector else none)
there_and_back =
    delete 5 0 (insert first_row 5 0 start first_row-Whole first_row_runs.0)
      (Ends-quiet (λ _ u. Removes sample 5 (tables_after first_row empty_tables) u)
        (vec0_update_delete sample quiet 5 (tables_after first_row empty_tables) 0)
        vec0_update_delete-Removes_example).1

Reaches-Stands_example :
    Stands sample
      (vec0_update_delete sample quiet 5 (tables_after first_row empty_tables) 0).1
      (λ i r. if r == 5 then none else if r == 5 then some first_vector else none)
Reaches-Stands_example =
    Reaches-Stands sample quiet sample-IsConfig
      (vec0_update_delete sample quiet 5 (tables_after first_row empty_tables) 0).1
      (λ i r. if r == 5 then none else if r == 5 then some first_vector else none) there_and_back

one_row-Stands :
    Stands sample
      (tables_after first_row empty_tables)
      (λ i r. if r == 5 then some first_vector else none)
one_row-Stands =
    Reaches-Stands sample quiet sample-IsConfig (tables_after first_row empty_tables)
      (λ i r. if r == 5 then some first_vector else none)
      (insert first_row 5 0 start first_row-Whole first_row_runs.0)

vec0_update_delete-Deletes_example :
    Deletes sample 5
      (tables_after first_row empty_tables)
      ((tables_after first_row empty_tables).rowids 5)
      (vec0_update_delete sample quiet 5 (tables_after first_row empty_tables) 0)
vec0_update_delete-Deletes_example =
    vec0_update_delete-Deletes quiet (λ n. refl) sample sample-IsConfig
      (tables_after first_row empty_tables) one_row-Stands.store one_row-Stands.placed 5 0

abbrev short_row : Insertion
short_row = record first_row {
  vectors = λ _. some (record { element_type = int8; dimensions = 3; data_bytes = 1 ∷ 2 ∷ 3 ∷ [] });
}

vec0_update_insert-refused_example :
    vec0_update_insert sample quiet short_row empty_tables 0 ≡ (err sqlite_error, empty_tables, 0)
unfolding accepts same_type
vec0_update_insert-refused_example =
    vec0_update_insert-refused sample quiet short_row 0 empty_tables 0 (omega arith) refl

first_row-accepts : (j : ℕ) → j < 1 → accepts (sample.vector_columns j) (first_row.vectors j) ≡ true
unfolding accepts same_type
first_row-accepts j l = refl

vec0_update_insert-Refuses_example :
    Refuses quiet sqlite_error
      (tables_after first_row empty_tables)
      (vec0_update_insert sample quiet first_row (tables_after first_row empty_tables) 0)
vec0_update_insert-Refuses_example =
    vec0_update_insert-Refuses sample quiet first_row 5 (some (1, 0))
      (tables_after first_row empty_tables) 0 first_row-accepts refl refl first_row_runs.2

abbrev new_vector : ℕ → Option (Option VectorValue)
new_vector i = some (some (octet (replicate 8 9)))

new_vector-FitsIfGiven : (i : ℕ) → i < 1 → FitsIfGiven sample (new_vector i) i
unfolding vector_column_byte_size vector_byte_size same_type
new_vector-FitsIfGiven i l = record {
  vector = octet (replicate 8 9);
  given = refl;
  typed = refl;
  dimensioned = refl;
  whole = refl;
}

vec0_update_update-SetsVectors_example :
    Ends quiet
      (λ _ u. SetsVectors sample new_vector 5 (tables_after first_row empty_tables) u)
      (vec0_update_update sample quiet 5 new_vector (tables_after first_row empty_tables) 0)
vec0_update_update-SetsVectors_example =
    vec0_update_update-SetsVectors sample sample-IsConfig new_vector new_vector-FitsIfGiven quiet
      (tables_after first_row empty_tables) one_row-Adds.store 5 one_row-Adds.place.0
      one_row-Adds.place.1 0 one_row-Adds.placed
