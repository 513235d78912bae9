-- ===== src/Beam.antt =====
-- The data structures of the graph search: crates/sqlite-vec-src/src/sqlite-vec-diskann.c, the
-- sorted candidate list. A rowid is its 64-bit pattern, which keeps equality.
pub mod Slots
pub mod Insert
pub mod New
pub mod Duplicate
pub mod Next
use agos_memory.Base.{
  ℕ, zero, suc, ◌+◌, ◌-◌, ◌/◌, Bool, true, false, not, List, [], ◌∷◌, Option, none, some, ◌&&◌,
  if◌then◌else◌, ◌==◌, ltb, leb, length, get_or, take,
}
use agos_memory.Ranking.{FloatOrder, float_lt, float_gt, float_ge}

pub record Candidate (F : Type 0) : Type 0 where
  pub rowid : ℕ
  pub distance : F
  pub visited : Bool
  pub confirmed : Bool

-- `count` is the length of `items`.
pub record CandidateList (F : Type 0) : Type 0 where
  pub items : List (Candidate F)
  pub capacity : ℕ

unfoldable pub candidate_list_init : {F : Type 0} → Bool → ℕ → Option (CandidateList F)
candidate_list_init allocated capacity =
    if allocated then some (record { items = []; capacity = capacity }) else none

-- What `memmove` and the write do: `x` comes to place `i`.
unfoldable pub insert_at : {A : Type 0} → ℕ → A → List A → List A
insert_at zero x ys = x ∷ ys
insert_at (suc i) x [] = x ∷ []
insert_at (suc i) x (y ∷ ys) = y ∷ insert_at i x ys

-- The places before one that has been reached are held nearest first.
unfoldable pub put_back : {A : Type 0} → List A → List A → List A
put_back [] after = after
put_back (x ∷ before) after = put_back before (x ∷ after)

module _ {F : Type 0} ⦃o : FloatOrder F⦄ where
  -- The loop `while (j >= 0 && items[j].distance > tmp.distance)`, from place `j` down.
  unfoldable pub sift_back :
      List (Candidate F) → Candidate F → List (Candidate F) → List (Candidate F)
  sift_back [] tmp after = tmp ∷ after
  sift_back (x ∷ before) tmp after =
      let moved = sift_back before tmp (x ∷ after) in
      let stays = put_back before (x ∷ tmp ∷ after) in
      if float_gt x.distance tmp.distance then moved else stays

  -- The loop that looks for a duplicate; none means that there is none.
  unfoldable pub update_duplicate :
      ℕ → F → List (Candidate F) → List (Candidate F) → Option (List (Candidate F))
  update_duplicate rowid d before [] = none
  update_duplicate rowid d before (x ∷ after) =
      let next = update_duplicate rowid d (x ∷ before) after in
      let better = sift_back before (record x { distance = d }) after in
      if x.rowid == rowid
      then some (if float_lt d x.distance then better else put_back before (x ∷ after))
      else next

  -- The binary search for the insertion point.
  unfoldable pub insertion_point : ℕ → F → List (Candidate F) → Candidate F → ℕ → ℕ → ℕ
  insertion_point zero d items blank lo hi = lo
  insertion_point (suc fuel) d items blank lo hi =
      let mid = (lo + hi) / 2 in
      let right = insertion_point fuel d items blank (mid + 1) hi in
      let left = insertion_point fuel d items blank lo mid in
      if ltb lo hi
      then (if float_lt (get_or items mid blank).distance d then right else left)
      else lo

  abbrev pub fresh : ℕ → F → Candidate F
  fresh rowid d = record { rowid = rowid; distance = d; visited = false; confirmed = false }

  -- The insertion of a rowid that is not in the list: into the items that are kept.
  unfoldable pub insert_new : ℕ → F → List (Candidate F) → List (Candidate F)
  insert_new rowid d items =
      let new = fresh rowid d in
      insert_at (insertion_point (length items) d items new 0 (length items)) new items

  -- The result is the list and what is returned: 1 if inserted, 0 if discarded.
  unfoldable pub candidate_list_insert : CandidateList F → ℕ → F → CandidateList F × ℕ
  candidate_list_insert list rowid d =
      let last = length list.items - 1 in
      let kept =
        if leb list.capacity (length list.items) then take last list.items else list.items in
      elim (update_duplicate rowid d [] list.items) [
        | some items ↦ (record list { items = items }, 1)
        | none ↦
            if leb list.capacity (length list.items)
              && float_ge d (get_or list.items last (fresh rowid d)).distance
            then (list, 0)
            else (record list { items = insert_new rowid d kept }, 1)
      ]

-- The place of the first unvisited candidate, for -1 none.
unfoldable pub next_unvisited : {F : Type 0} → ℕ → List (Candidate F) → Option ℕ
next_unvisited i [] = none
next_unvisited i (x ∷ xs) =
    let next = next_unvisited (i + 1) xs in if not x.visited then some i else next
