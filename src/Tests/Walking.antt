-- ===== src/Tests/Walking.antt =====
-- A search of a graph of two rows on a line: row 1 at 5, the entry point, and row 2 at 3, its neighbour.
use agos_memory.Base.{
  ℕ, ◌≡◌, refl, true, false, [], ◌∷◌, none, some, ◌==◌, if◌then◌else◌, replicate, take, get_or,
}
use agos_memory.Ranking.{IsSorted}
use agos_memory.Bitmap.{bitmap_get}
use agos_memory.Beam.{
  Candidate, CandidateList, candidate_list_init, candidate_list_insert, update_duplicate,
  insertion_point, insert_at, insert_new, sift_back, put_back, next_unvisited,
}
use agos_memory.Beam.Insert.{far}
use agos_memory.Visited.{
  VisitedSet, visited_set_init, round_up, visited_set_insert, insert_loop, visited_set_contains,
  contains_loop, home_slot,
}
use agos_memory.Nodes.{
  int8, diskann_quantized_vector_byte_size, copy_out, diskann_validity_get, diskann_neighbor_id_get,
  diskann_neighbor_qvec_get,
}
use agos_memory.Walk.{
  Index, results, list_size, neighbors_loop, confirm, confirm_first, rerank, expand, mark_visited,
  search_loop, search_from, collect, diskann_search,
}
use agos_memory.Walk.Round.{expand-IsSorted, confirmed_hits, collect-take}
use agos_memory.Tests.Search.{ℕ_order, hit}

abbrev line : Index ℕ
line = record {
  medoid = some (some 1);
  exact = λ rowid. if rowid == 1 then some 5 else (if rowid == 2 then some 3 else none);
  node = λ rowid.
      if rowid == 1
      then some (record {
        validity = 1 ∷ [];
        neighbor_ids = 2 ∷ replicate 63 0;
        qvecs = 4 ∷ replicate 7 0;
      })
      else none;
  approx = λ qvec. get_or qvec 0 0;
  load_rowid = λ bytes. get_or bytes 0 0;
  n_neighbors = 8;
  quantizer_type = int8;
  dimensions = 1;
  search_list_size = 4;
  search_list_size_search = 0;
}

-- Row 2 has no node, so it is not re-ranked and stays unconfirmed.
search_runs : diskann_search line 5 2 0 true true ≡ results (hit 5 1 ∷ [])
unfolding diskann_search search_from search_loop list_size candidate_list_init visited_set_init
    round_up candidate_list_insert update_duplicate insertion_point insert_at insert_new sift_back
    put_back next_unvisited visited_set_insert insert_loop visited_set_contains contains_loop
    home_slot neighbors_loop confirm confirm_first rerank expand collect diskann_validity_get
    bitmap_get diskann_neighbor_id_get diskann_neighbor_qvec_get diskann_quantized_vector_byte_size
    copy_out
search_runs = refl

abbrev entry : Candidate ℕ
entry = record { rowid = 1; distance = 5; visited = false; confirmed = true }

abbrev entry_list : CandidateList ℕ
entry_list = record { items = entry ∷ []; capacity = 4 }

abbrev no_rows : VisitedSet
no_rows = record { slots = replicate 16 0; capacity = 16; count = 0 }

expand-IsSorted_example :
    IsSorted far (expand line 1 (mark_visited line 0 entry_list entry) no_rows).0.items
expand-IsSorted_example = expand-IsSorted line entry_list 0 entry no_rows (tt, tt)

collect-take_example : collect line 1 (entry ∷ []) ≡ take 1 (confirmed_hits line (entry ∷ []))
collect-take_example = collect-take line 1 (entry ∷ [])
