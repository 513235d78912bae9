-- ===== src/Indices/Kinds.antt =====
-- Each column is of one sort.
use agos_memory.Base.{
  ℕ, ◌+◌, ◌-◌, ◌≤◌, ◌<◌, ◌≡◌, refl, arith, Bool, true, false, ◌&&◌, if◌then◌else◌, leb, ◌==◌,
}
use agos_memory.Indices.{
  UserColumnKind, vector, partition, auxiliary, metadata, Vtab, vec0_num_defined_user_columns,
  vec0_column_command_idx, vec0_column_distance_idx, vec0_column_k_idx, vec0_column_idx_is_vector,
  vec0_column_idx_is_partition, vec0_column_idx_is_auxiliary, vec0_column_idx_is_metadata, in_range,
  kind_at, is_vector, is_partition, is_auxiliary, is_metadata,
}

abbrev one_if : Bool → ℕ
one_if b = if b then 1 else 0

-- How many of the tests a column passes: the four kinds and the hidden columns.
abbrev pub sorts : Vtab → ℕ → ℕ
sorts p i =
    one_if (vec0_column_idx_is_vector p i)
    + one_if (vec0_column_idx_is_partition p i)
    + one_if (vec0_column_idx_is_auxiliary p i)
    + one_if (vec0_column_idx_is_metadata p i)
    + one_if (p.has_command_column && i == vec0_column_command_idx p)
    + one_if (i == vec0_column_distance_idx p)
    + one_if (i == vec0_column_k_idx p)

one_kind :
    (r : Bool) (k : UserColumnKind)
    → one_if (r && is_vector k)
        + one_if (r && is_partition k)
        + one_if (r && is_auxiliary k)
        + one_if (r && is_metadata k)
      ≡ one_if r
one_kind true vector = refl
one_kind true partition = refl
one_kind true auxiliary = refl
one_kind true metadata = refl
one_kind false k = refl

hidden :
    (n i : ℕ) (c : Bool)
    → 0 < i
    → i ≤ 1 + n + (if c then 2 else 1)
    → one_if (leb 1 i && leb i (1 + n - 1))
        + one_if (c && i == 1 + n)
        + one_if (i == 1 + n + (if c then 1 else 0))
        + one_if (i == 1 + n + (if c then 2 else 1))
      ≡ 1
hidden n i true h k = ground arith
hidden n i false h k = ground arith

-- Every column of the table but the rowid, the hidden ones included, is of exactly one sort: a vector,
-- partition, auxiliary or metadata column, or the command, distance or `k` column.
pub sorts-one : (p : Vtab) (i : ℕ) → 0 < i → i ≤ vec0_column_k_idx p → sorts p i ≡ 1
unfolding vec0_column_idx_is_vector vec0_column_idx_is_partition vec0_column_idx_is_auxiliary
    vec0_column_idx_is_metadata vec0_column_command_idx vec0_column_distance_idx vec0_column_k_idx
sorts-one p i h k = omega (
  arith,
  one_kind (in_range p i) (kind_at p i),
  hidden (vec0_num_defined_user_columns p) i p.has_command_column h k,
)
