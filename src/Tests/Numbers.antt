-- ===== src/Tests/Numbers.antt =====
-- Column numbers of a table with a vector, a partition and a metadata column and a command column.
use agos_memory.Base.{◌≡◌, refl, true, [], ◌∷◌, arith}
use agos_memory.Indices.{
  Vtab, vector, partition, metadata, vec0_num_defined_user_columns, vec0_column_k_idx,
  vec0_column_idx_to_metadata_idx,
}
use agos_memory.Indices.Kinds.{sorts, sorts-one}

abbrev table : Vtab
table = record {
  user_column_kinds = vector ∷ partition ∷ metadata ∷ [];
  user_column_idxs = 0 ∷ 0 ∷ 0 ∷ [];
  num_vector_columns = 1;
  num_partition_columns = 1;
  num_auxiliary_columns = 0;
  num_metadata_columns = 1;
  has_command_column = true;
}

k_runs : vec0_column_k_idx table ≡ 6
unfolding vec0_column_k_idx vec0_num_defined_user_columns
k_runs = refl

place_runs : vec0_column_idx_to_metadata_idx table 3 ≡ 0
unfolding vec0_column_idx_to_metadata_idx
place_runs = refl

sorts-one_example : sorts table 3 ≡ 1
sorts-one_example = sorts-one table 3 (omega arith) (omega (arith, k_runs))
