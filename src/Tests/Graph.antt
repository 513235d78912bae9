-- ===== src/Tests/Graph.antt =====
-- The candidate list and the visited set on small inputs.
use agos_memory.Base.{
  ◌^◌, ◌+◌, ltb, if◌then◌else◌, ◌%◌, some, List, ℕ, ◌*◌, ◌<◌, ◌≤◌, ◌≡◌, ◌⊎◌, refl, Bool, true,
  false, ◌||◌, [], ◌∷◌, some, arith, ◌==◌, replicate, subst, sym, ◌∙◌,
}
use agos_memory.Ranking.{IsTop, IsSorted}
use agos_memory.Tests.Search.{ℕ_order}
use agos_memory.Beam.{
  Candidate, CandidateList, insert_at, put_back, sift_back, update_duplicate, insertion_point,
  fresh, insert_new, candidate_list_insert, next_unvisited,
}
use agos_memory.Beam.Insert.{far}
use agos_memory.Beam.New.{candidate_list_insert-IsTop}
use agos_memory.Beam.Duplicate.{Improves, candidate_list_insert-Improves}
use agos_memory.Beam.Next.{IsNext, next_unvisited-IsNext}
use agos_memory.Prune.{prune_test, diskann_prune_select, prune_rounds, first_active, prune_pass}
use agos_memory.Prune.Select.{IsSelection, diskann_prune_select-IsSelection}
use agos_memory.Visited.{
  made, overflow, no_memory, VisitedSet, visited_set_init, visited_set_insert, visited_set_contains,
  round_up, home_slot, contains_loop, insert_loop,
}
use agos_memory.Visited.Members.{IsProbed, IsProbed-insert, contains-insert}
use agos_memory.Visited.Init.{visited_set_init-IsProbed, visited_set_init-fails}

abbrev at : ℕ → ℕ → Bool → Candidate ℕ
at rowid distance visited = record {
  rowid = rowid;
  distance = distance;
  visited = visited;
  confirmed = false;
}

abbrev full_list : CandidateList ℕ
full_list = record { items = at 7 2 true ∷ at 5 4 false ∷ at 9 8 false ∷ []; capacity = 3 }

full_list-IsSorted : IsSorted far full_list.items
full_list-IsSorted = ((refl, (refl, tt)), ((refl, tt), (tt, tt)))

-- A nearer one pushes the last out, a known one moves up, a further one is discarded.
new_runs :
    candidate_list_insert full_list 4 3
    ≡ (record full_list { items = at 7 2 true ∷ at 4 3 false ∷ at 5 4 false ∷ [] }, 1)
unfolding candidate_list_insert update_duplicate insert_new insertion_point insert_at
new_runs = refl

known_runs :
    candidate_list_insert full_list 9 1
    ≡ (record full_list { items = at 9 1 false ∷ at 7 2 true ∷ at 5 4 false ∷ [] }, 1)
unfolding candidate_list_insert update_duplicate sift_back put_back
known_runs = refl

far_runs : candidate_list_insert full_list 1 8 ≡ (full_list, 0)
unfolding candidate_list_insert update_duplicate
far_runs = refl

candidate_list_insert-IsTop_example :
    IsTop far 3 (fresh 4 3 ∷ full_list.items) (candidate_list_insert full_list 4 3).0.items
candidate_list_insert-IsTop_example =
    candidate_list_insert-IsTop full_list 4 3 full_list-IsSorted (omega arith) (omega arith) (
      (λ e. absurd (omega arith)),
      ((λ e. absurd (omega arith)), ((λ e. absurd (omega arith)), tt)),
    )

candidate_list_insert-Improves_example :
    ((candidate_list_insert full_list 9 1).1 ≡ 1)
    × ((candidate_list_insert full_list 9 1).0.capacity ≡ 3)
    × Improves 9 1 full_list.items (candidate_list_insert full_list 9 1).0.items
candidate_list_insert-Improves_example =
    candidate_list_insert-Improves full_list 9 1 full_list-IsSorted (λ h. h.1.1.0 refl)

next_unvisited-IsNext_example :
    IsNext (at 0 0 false) 0 full_list.items (next_unvisited 0 full_list.items)
next_unvisited-IsNext_example =
    next_unvisited-IsNext (at 0 0 false) full_list.items 0 full_list-IsSorted

abbrev started : VisitedSet
started = record { slots = replicate 16 0; capacity = 16; count = 0 }

started_runs : visited_set_init true 10 ≡ made started
unfolding visited_set_init round_up
started_runs = refl

started-IsProbed : IsProbed started
started-IsProbed =
    let init = visited_set_init-IsProbed 10 (omega arith) in
    subst (λ r. elim r [ made w ↦ IsProbed w | _ ↦ Unit ]) (sym init.1 ∙ started_runs) init.2

abbrev one_row : VisitedSet
one_row = (visited_set_insert started 42).0

one_row-IsProbed : IsProbed one_row
one_row-IsProbed = IsProbed-insert started 42 started-IsProbed

visited_runs : (visited_set_contains one_row 42 ≡ true) × (visited_set_contains one_row 43 ≡ false)
unfolding visited_set_insert insert_loop visited_set_contains contains_loop home_slot
visited_runs = (refl, refl)

IsProbed-insert_example : IsProbed (visited_set_insert one_row 43).0
IsProbed-insert_example = IsProbed-insert one_row 43 one_row-IsProbed

visited_set_init-IsProbed_example :
    (v : VisitedSet) × (visited_set_init true 10 ≡ made v)
    × IsProbed v
    × (v.count ≡ 0)
    × (10 ≤ v.capacity)
    × ((v.capacity ≡ 16) ⊎ (v.capacity < 2 * 10))
visited_set_init-IsProbed_example = visited_set_init-IsProbed 10 (omega arith)

visited_set_init-fails_example :
    visited_set_init true (2 ^ 30 + 4) ≡ (if ltb (2 ^ 30) (2 ^ 30 + 4) then overflow else no_memory)
visited_set_init-fails_example = visited_set_init-fails true (2 ^ 30 + 4) (omega arith)

contains-insert_example :
    visited_set_contains (visited_set_insert started 42).0 43
    ≡ (43 == 42 || visited_set_contains started 43)
contains-insert_example =
    contains-insert started 42 43 started-IsProbed (omega arith) (λ e. absurd (omega arith))

-- Every place is as near to place 0 as to the origin, so place 0 alone is selected.
abbrev apart_by : ℕ → ℕ
apart_by i = 10 * (i % 4)

prune_runs :
    diskann_prune_select true (λ x. x) apart_by (λ i. 10 * i) 4 3
    ≡ some (true ∷ false ∷ false ∷ false ∷ [], 1)
unfolding diskann_prune_select prune_rounds first_active prune_pass
prune_runs = refl

diskann_prune_select-IsSelection_example :
    (selected : List Bool) × (count : ℕ) × (diskann_prune_select true
        (λ x. x)
        apart_by
        (λ i. 10 * i)
        4
        3
      ≡ some (selected, count))
    × IsSelection 4 3 (prune_test (λ x. x) apart_by (λ i. 10 * i) 4) selected count
diskann_prune_select-IsSelection_example =
    diskann_prune_select-IsSelection (λ x. x) apart_by (λ i. 10 * i) 4 3
