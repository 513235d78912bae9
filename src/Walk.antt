-- ===== src/Walk.antt =====
-- The greedy search of the graph, crates/sqlite-vec-src/src/sqlite-vec-diskann.c, `diskann_search`.
-- The rows of the shadow tables are functions of the rowid, and so are the distances to the query.
pub mod Order
pub mod Round
use agos_memory.Base.{
  ℕ, zero, suc, ◌+◌, ◌*◌, Bool, true, false, not, List, [], ◌∷◌, Option, none, some, if◌then◌else◌,
  ◌==◌, ltb, leb, get_or, set,
}
use agos_memory.Ranking.{FloatOrder, Hit}
use agos_memory.Beam.{
  Candidate, CandidateList, candidate_list_init, candidate_list_insert, fresh, next_unvisited,
}
use agos_memory.Visited.{
  made, no_memory, overflow, endless, VisitedSet, visited_set_init, visited_set_insert,
  visited_set_contains,
}
use agos_memory.Nodes.{
  NodeBlobs, QuantizerType, diskann_validity_get, diskann_neighbor_id_get,
  diskann_neighbor_qvec_get,
}

-- What the search reads: the entry point (none outside is an error, none inside an empty index), the
-- exact distance of a row (none when its vector is not there), the node of a row, the approximate
-- distance of a quantized vector, and the number that the eight bytes of a rowid are.
pub record Index (F : Type 0) : Type 0 where
  pub medoid : Option (Option ℕ)
  pub exact : ℕ → Option F
  pub node : ℕ → Option NodeBlobs
  pub approx : List ℕ → F
  pub load_rowid : List ℕ → ℕ
  pub n_neighbors : ℕ
  pub quantizer_type : QuantizerType
  pub dimensions : ℕ
  pub search_list_size : ℕ
  pub search_list_size_search : ℕ

-- The sizes of the list: `given` is 0 for a size that is not positive.
unfoldable pub list_size : {F : Type 0} → Index F → ℕ → ℕ → ℕ
list_size x k given =
    let configured =
      if ltb 0 x.search_list_size_search then x.search_list_size_search else x.search_list_size in
    let size = if given == 0 then configured else given in if ltb size k then k else size

module _ {F : Type 0} ⦃o : FloatOrder F⦄ (x : Index F) where
  -- The loop over the neighbours of a node, with the rounds left.
  unfoldable pub neighbors_loop : NodeBlobs → VisitedSet → ℕ → ℕ → CandidateList F → CandidateList F
  neighbors_loop node visited zero i list = list
  neighbors_loop node visited (suc left) i list =
      let rowid = x.load_rowid (diskann_neighbor_id_get node.neighbor_ids i) in
      let d = x.approx (diskann_neighbor_qvec_get node.qvecs i x.quantizer_type x.dimensions) in
      neighbors_loop node visited left (i + 1) (
        if diskann_validity_get node.validity i == 0
        then list
        else (if visited_set_contains visited rowid
            then list
            else (candidate_list_insert list rowid d).0))

  -- The loop that confirms the first candidate of a rowid.
  unfoldable pub confirm : ℕ → List (Candidate F) → List (Candidate F)
  confirm rowid [] = []
  confirm rowid (c ∷ items) =
      let later = confirm rowid items in
      if c.rowid == rowid then record c { confirmed = true } ∷ items else c ∷ later

  -- The exact distance of the row that has been expanded, if its vector is there.
  unfoldable pub rerank : ℕ → CandidateList F → CandidateList F
  rerank rowid list = elim (x.exact rowid) [
    | none ↦ list
    | some d ↦
        let updated = (candidate_list_insert list rowid d).0 in
        record updated { items = confirm rowid updated.items }
  ]

  -- What follows the choice of a candidate: a node that cannot be read is skipped.
  unfoldable pub expand : ℕ → CandidateList F → VisitedSet → CandidateList F × VisitedSet
  expand rowid list visited = elim (x.node rowid) [
    | none ↦ (list, visited)
    | some node ↦ (
      rerank rowid (neighbors_loop node visited x.n_neighbors 0 list),
      (visited_set_insert visited rowid).0,
    )
  ]

  abbrev pub mark_visited : ℕ → CandidateList F → Candidate F → CandidateList F
  mark_visited i list c = record list { items = set list.items i (record c { visited = true }) }

  -- The loop `while (1)`; none means that the fuel does not last.
  unfoldable pub search_loop :
      ℕ → Candidate F → CandidateList F → VisitedSet → Option (CandidateList F)
  search_loop zero blank list visited = none
  search_loop (suc fuel) blank list visited = elim (next_unvisited 0 list.items) [
    | none ↦ some list
    | some i ↦
        let current = get_or list.items i blank in
        let next = expand current.rowid (mark_visited i list current) visited in
        search_loop fuel blank next.0 next.1
  ]

  -- The output loop: the confirmed candidates, at most `k`.
  unfoldable pub collect : ℕ → List (Candidate F) → List (Hit F ℕ)
  collect k [] = []
  collect zero (c ∷ items) = []
  collect (suc k) (c ∷ items) =
      let kept = collect k items in
      let passed = collect (suc k) items in
      if c.confirmed then record { distance = c.distance; rowid = c.rowid } ∷ kept else passed

  -- SQLITE_OK with the results, an error, no end within the fuel, or an `int` that overflows. The
  -- Booleans tell whether the allocations of the list and of the set succeed.
  pub data Outcome : Type 0 where
    results : List (Hit F ℕ) → Outcome
    failed : Outcome
    unfinished : Outcome
    undefined : Outcome

  -- `items[0].confirmed = 1`
  unfoldable pub confirm_first : List (Candidate F) → List (Candidate F)
  confirm_first [] = []
  confirm_first (c ∷ items) = record c { confirmed = true } ∷ items

  abbrev seed : ℕ → F → CandidateList F → CandidateList F
  seed medoid d list =
      let seeded = (candidate_list_insert list medoid d).0 in
      record seeded { items = confirm_first seeded.items }

  abbrev finish : ℕ → Option (CandidateList F) → Outcome
  finish k none = unfinished
  finish k (some list) = results (collect k list.items)

  unfoldable pub search_from : ℕ → ℕ → ℕ → Bool → Bool → ℕ → F → Outcome
  search_from fuel k size list_allocated set_allocated medoid d =
      elim (candidate_list_init list_allocated size) [
        | none ↦ failed
        | some list ↦ elim (visited_set_init set_allocated (size * 4)) [
          | no_memory ↦ failed
          | overflow ↦ undefined
          | endless ↦ unfinished
          | made visited ↦ finish k (search_loop fuel (fresh medoid d) (seed medoid d list) visited)
        ]
      ]

  unfoldable pub diskann_search : ℕ → ℕ → ℕ → Bool → Bool → Outcome
  diskann_search fuel k given list_allocated set_allocated = elim x.medoid [
    | none ↦ failed
    | some none ↦ results []
    | some (some medoid) ↦ elim (x.exact medoid) [
      | none ↦ failed
      | some d ↦ search_from fuel k (list_size x k given) list_allocated set_allocated medoid d
    ]
  ]
