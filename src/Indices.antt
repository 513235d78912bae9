-- ===== src/Indices.antt =====
-- The columns of a virtual table by number, crates/sqlite-vec-src/src/sqlite-vec.c,
-- `vec0_num_defined_user_columns` to `vec0_column_idx_to_metadata_idx`. Column 0 is the rowid, the
-- user's columns follow in the order of the definition, then the hidden ones.
pub mod Kinds
use agos_memory.Base.{ℕ, ◌+◌, ◌-◌, Bool, true, false, ◌&&◌, List, if◌then◌else◌, leb, get_or}

pub data UserColumnKind : Type 0 where
  vector : UserColumnKind
  partition : UserColumnKind
  auxiliary : UserColumnKind
  metadata : UserColumnKind

-- The fields of `vec0_vtab` that number the columns.
pub record Vtab : Type 0 where
  pub user_column_kinds : List UserColumnKind
  pub user_column_idxs : List ℕ
  pub num_vector_columns : ℕ
  pub num_partition_columns : ℕ
  pub num_auxiliary_columns : ℕ
  pub num_metadata_columns : ℕ
  pub has_command_column : Bool

abbrev pub column_usern_start : ℕ
column_usern_start = 1

abbrev pub is_vector : UserColumnKind → Bool
is_vector k = elim k [ vector ↦ true | _ ↦ false ]

abbrev pub is_partition : UserColumnKind → Bool
is_partition k = elim k [ partition ↦ true | _ ↦ false ]

abbrev pub is_auxiliary : UserColumnKind → Bool
is_auxiliary k = elim k [ auxiliary ↦ true | _ ↦ false ]

abbrev pub is_metadata : UserColumnKind → Bool
is_metadata k = elim k [ metadata ↦ true | _ ↦ false ]

unfoldable pub vec0_num_defined_user_columns : Vtab → ℕ
vec0_num_defined_user_columns p =
    p.num_vector_columns + p.num_partition_columns + p.num_auxiliary_columns
    + p.num_metadata_columns

unfoldable pub vec0_column_command_idx : Vtab → ℕ
vec0_column_command_idx p = column_usern_start + vec0_num_defined_user_columns p

unfoldable pub vec0_column_distance_idx : Vtab → ℕ
vec0_column_distance_idx p =
    let base = column_usern_start + vec0_num_defined_user_columns p in
    base + (if p.has_command_column then 1 else 0)

unfoldable pub vec0_column_k_idx : Vtab → ℕ
vec0_column_k_idx p =
    let base = column_usern_start + vec0_num_defined_user_columns p in
    base + (if p.has_command_column then 2 else 1)

-- The test that the four functions on kinds share.
abbrev pub in_range : Vtab → ℕ → Bool
in_range p column_idx =
    leb column_usern_start column_idx
    && leb column_idx (column_usern_start + vec0_num_defined_user_columns p - 1)

abbrev pub kind_at : Vtab → ℕ → UserColumnKind
kind_at p column_idx = get_or p.user_column_kinds (column_idx - column_usern_start) vector

unfoldable pub vec0_column_idx_is_vector : Vtab → ℕ → Bool
vec0_column_idx_is_vector p column_idx = in_range p column_idx && is_vector (kind_at p column_idx)

unfoldable pub vec0_column_idx_is_partition : Vtab → ℕ → Bool
vec0_column_idx_is_partition p column_idx =
    in_range p column_idx && is_partition (kind_at p column_idx)

unfoldable pub vec0_column_idx_is_auxiliary : Vtab → ℕ → Bool
vec0_column_idx_is_auxiliary p column_idx =
    in_range p column_idx && is_auxiliary (kind_at p column_idx)

unfoldable pub vec0_column_idx_is_metadata : Vtab → ℕ → Bool
vec0_column_idx_is_metadata p column_idx =
    in_range p column_idx && is_metadata (kind_at p column_idx)

-- The place among the columns of the kind; each is called only on a column of its kind.
unfoldable pub vec0_column_idx_to_vector_idx : Vtab → ℕ → ℕ
vec0_column_idx_to_vector_idx p column_idx =
    get_or p.user_column_idxs (column_idx - column_usern_start) 0

unfoldable pub vec0_column_idx_to_partition_idx : Vtab → ℕ → ℕ
vec0_column_idx_to_partition_idx p column_idx =
    get_or p.user_column_idxs (column_idx - column_usern_start) 0

unfoldable pub vec0_column_idx_to_auxiliary_idx : Vtab → ℕ → ℕ
vec0_column_idx_to_auxiliary_idx p column_idx =
    get_or p.user_column_idxs (column_idx - column_usern_start) 0

unfoldable pub vec0_column_idx_to_metadata_idx : Vtab → ℕ → ℕ
vec0_column_idx_to_metadata_idx p column_idx =
    get_or p.user_column_idxs (column_idx - column_usern_start) 0
