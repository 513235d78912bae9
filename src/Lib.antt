-- ===== src/Lib.antt =====
-- Verification of the vector engine of agos-memory: the C sources under crates/sqlite-vec-src/src,
-- which the Rust store compiles in and queries through its `vec_memories` virtual table.
--
-- Parts, and the file that models each:
--   Bitmap    the slot bitmaps of a chunk (`bitmap_new` to `bitmap_fill` of sqlite-vec.c), byte by
--             byte; `bitmap |= 1 << n` is `bit_or` on numbers below 256.
--   Ranking   what "the k nearest" means, for the selection routines. A distance is a value of a
--             type with a total preorder: `f32` without NaN.
--   Merge     `merge_sorted_lists`: two sorted lists of hits into one of at most k.
--   MinIdx    `min_idx` in the variant that is compiled: k linear scans under two bitmaps.
--   Knn       `vec0Filter_knn_chunks_iter`: for each chunk the validity bitmap, the rowid list, the
--             metadata filters and the distance constraints, then `min_idx`, then the merge.
--   Beam      the sorted candidate list of the graph search (`diskann_candidate_list_insert` and
--             `diskann_candidate_list_next_unvisited` of sqlite-vec-diskann.c).
--   Visited   the hash set of the graph search (`diskann_visited_set_init`, `_contains`, `_insert`).
--   Prune     `diskann_prune_select`, the choice of a graph node's neighbours.
--   Nodes     the blobs of a graph node: validity bits, neighbour rowids, quantized vectors.
--   Walk      `diskann_search`, the greedy search over Beam, Visited and Nodes.
--   Scanner   `vec0_token_next` and `vec0_scanner_next`, on the bytes of a module argument.
--   Columns   the parsers of table options, key definitions, auxiliary and metadata columns;
--             `sqlite3_strnicmp` is a parameter.
--   Indices   the numbering of a table's columns (`vec0_column_idx_is_vector` and its kin).
--   Array     the growing array of the query code.
--   Store     the shadow tables of a `vec0` table as state, `vec0Update_Insert`, `vec0Update_Delete`,
--             `vec0Update_Update` and their steps, and `vec0_get_vector_data`. What a step asks of SQLite or of its
--             allocator fails or not by a clock (`Faults`), which is a parameter; Steps, Insert, Delete
--             and Update are the code, Invariant says what holds between statements.
--   Tests     runs of the model, and the theorems at concrete inputs.
--   Base      lists, tests and bits shared by the others.
--
-- How they interact: Knn calls Bitmap for the filters, MinIdx on the slots left, and Merge to join
-- the chunk's hits with those so far; Ranking is the specification that ties the three. The graph
-- search keeps its frontier in Beam, which Ranking specifies too, and skips what Visited contains.
-- The parsers of Columns read tokens from Scanner alone.
--
-- Loops recur on the rounds left, so no fuel is needed, but for three. The binary search of Beam has
-- the length of the list as fuel, and each round at least removes one place. `round_up` of Visited has
-- 27 rounds: 16 can be doubled 26 times in an `int`, and one test more either ends the loop or meets a
-- product that no `int` holds. The loop of Walk has a fuel that is an argument, since its end depends on
-- the rows read; without an end the outcome is `unfinished`.
--
-- Sizes are numbers without a bound but where an allocation truncates them: the capacity of Visited is an
-- `int` whose overflow is an outcome of its own (`overflow`, in Walk `undefined`), and what
-- `sqlite3_malloc` gets there and in `array_init` is the low 32 bits of the product. The product in
-- `diskann_candidate_list_init`, 24 bytes for each place, is not truncated: a list size for which that
-- matters is above 2 ^ 25, and then `diskann_visited_set_init`, which comes next, makes no set.
--
-- An array is a list, or a function of its index where it is only read. A malloc that fails is a flag;
-- an error code is none.
--
-- Not modelled: SQLite itself, `bsearch` of the C library, floating-point arithmetic (the distance
-- functions are parameters), vectors as text (`vector_from_value` is what an insertion is given),
-- text keys, partition keys, auxiliary and metadata columns of the row store, the SIMD variants, the
-- inverted-file index (compiled out), and the Rust program around the engine.
pub mod Base
pub mod Bitmap
pub mod Ranking
pub mod Merge
pub mod MinIdx
pub mod Knn
pub mod Beam
pub mod Tests
pub mod Visited
pub mod Scanner
pub mod Columns
pub mod Prune
pub mod Indices
pub mod Nodes
pub mod Walk
pub mod Array
pub mod Store
