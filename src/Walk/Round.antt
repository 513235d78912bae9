-- ===== src/Walk/Round.antt =====
-- One round of the search, and what is returned at the end.
use agos_memory.Base.{
  ℕ, zero, suc, ◌+◌, ◌≡◌, refl, ap, Bool, true, false, List, [], ◌∷◌, Option, none, some, ◌==◌,
  if◌then◌else◌, take, get_or,
}
use agos_memory.Ranking.{FloatOrder, Hit, IsSorted}
use agos_memory.Beam.{Candidate, CandidateList, candidate_list_insert}
use agos_memory.Beam.Insert.{far}
use agos_memory.Visited.{VisitedSet, visited_set_contains, visited_set_insert}
use agos_memory.Nodes.{NodeBlobs, diskann_validity_get, diskann_neighbor_id_get}
use agos_memory.Walk.{Index, neighbors_loop, confirm, rerank, expand, mark_visited, collect}
use agos_memory.Walk.Order.{candidate_list_insert-IsSorted, IsSorted-visit, IsSorted-confirm}

module _ {F : Type 0} ⦃o : FloatOrder F⦄ (x : Index F) where
  neighbors_loop-IsSorted :
      (node : NodeBlobs) (visited : VisitedSet) (left i : ℕ) (list : CandidateList F)
      → IsSorted far list.items
      → IsSorted far (neighbors_loop x node visited left i list).items
  unfolding neighbors_loop
  neighbors_loop-IsSorted node visited zero i list s = s
  neighbors_loop-IsSorted node visited (suc left) i list s =
      neighbors_loop-IsSorted node visited left (i + 1) _ (
        step (diskann_validity_get node.validity i == 0)
          (visited_set_contains visited
            (x.load_rowid (diskann_neighbor_id_get node.neighbor_ids i)))
          _ (candidate_list_insert-IsSorted list _ _ s))
    where
      step :
          (p q : Bool) (other : CandidateList F)
          → IsSorted far other.items
          → IsSorted far (if p then list else (if q then list else other)).items
      step true q other h = s
      step false true other h = s
      step false false other h = h

  rerank-IsSorted :
      (rowid : ℕ) (list : CandidateList F)
      → IsSorted far list.items
      → IsSorted far (rerank x rowid list).items
  unfolding rerank
  rerank-IsSorted rowid list s = step (x.exact rowid)
    where
      step :
          (d : Option F)
          → IsSorted far
              (elim d as (λ z. CandidateList F) [
                | none ↦ list
                | some d ↦ record (candidate_list_insert list rowid d).0 {
                  items = confirm x rowid (candidate_list_insert list rowid d).0.items;
                }
              ]).items
      step none = s
      step (some d) = IsSorted-confirm x rowid _ (candidate_list_insert-IsSorted list rowid d s)

  -- Whatever the rows of the index are, marking a candidate visited and expanding it keeps the
  -- candidate list sorted by distance.
  pub expand-IsSorted :
      (list : CandidateList F) (i : ℕ) (blank : Candidate F) (visited : VisitedSet)
      → IsSorted far list.items
      → IsSorted far
          (expand x
            (get_or list.items i blank).rowid
            (mark_visited x i list (get_or list.items i blank))
            visited).0.items
  unfolding expand
  expand-IsSorted list i blank visited s = step (x.node (get_or list.items i blank).rowid)
    where
      marked : IsSorted far (mark_visited x i list (get_or list.items i blank)).items
      marked = IsSorted-visit list.items i blank s

      step :
          (n : Option NodeBlobs)
          → IsSorted far
              (elim n as (λ z. CandidateList F × VisitedSet) [
                | none ↦ (mark_visited x i list (get_or list.items i blank), visited)
                | some node ↦ (
                  rerank x (get_or list.items i blank).rowid (
                      neighbors_loop x node visited x.n_neighbors 0
                        (mark_visited x i list (get_or list.items i blank))),
                  (visited_set_insert visited (get_or list.items i blank).rowid).0,
                )
              ]).0.items
      step none = marked
      step (some node) =
          rerank-IsSorted _ _ (neighbors_loop-IsSorted node visited x.n_neighbors 0 _ marked)

  -- The candidates whose distance is confirmed, as hits.
  abbrev pub confirmed_hits : List (Candidate F) → List (Hit F ℕ)
  confirmed_hits [] = []
  confirmed_hits (c ∷ items) =
      let later = confirmed_hits items in
      if c.confirmed then record { distance = c.distance; rowid = c.rowid } ∷ later else later

  -- The output is the first `k` confirmed candidates of the list.
  pub collect-take :
      (k : ℕ) (items : List (Candidate F)) → collect x k items ≡ take k (confirmed_hits items)
  unfolding collect
  collect-take zero [] = refl
  collect-take (suc k) [] = refl
  collect-take zero (c ∷ items) = refl
  collect-take (suc k) (c ∷ items) =
      step c.confirmed (collect-take k items) (collect-take (suc k) items)
    where
      step :
          (b : Bool)
          → collect x k items ≡ take k (confirmed_hits items)
          → collect x (suc k) items ≡ take (suc k) (confirmed_hits items)
          → (if b
              then record { distance = c.distance; rowid = c.rowid } ∷ collect x k items
              else collect x (suc k) items)
            ≡ take (suc k) (
                if b
                then record { distance = c.distance; rowid = c.rowid } ∷ confirmed_hits items
                else confirmed_hits items)
      step true h g = ap (◌∷◌ (record { distance = c.distance; rowid = c.rowid })) h
      step false h g = g
