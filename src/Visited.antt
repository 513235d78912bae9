-- ===== src/Visited.antt =====
-- The set of rowids a graph search has met, crates/sqlite-vec-src/src/sqlite-vec-diskann.c, `struct
-- DiskannVisitedSet`: open addressing with linear probing. A rowid is its 64-bit pattern, and 0
-- marks a free slot.
pub mod Probes
pub mod Mask
pub mod Members
pub mod Init
use agos_memory.Base.{
  ℕ, zero, suc, ◌+◌, ◌-◌, ◌*◌, ◌/◌, ◌%◌, ◌^◌, bit_and, Bool, true, false, List, not, ◌&&◌,
  if◌then◌else◌, is_positive_int, ◌==◌, ltb, get_or, set, replicate,
}

pub record VisitedSet : Type 0 where
  pub slots : List ℕ
  pub capacity : ℕ
  pub count : ℕ

-- What a computation in `int` comes to: a value, SQLITE_NOMEM, a product that no `int` holds, which C
-- leaves undefined, or no end within the fuel.
pub data Computed (A : Type 0) : Type 0 where
  made : A → Computed A
  no_memory : Computed A
  overflow : Computed A
  endless : Computed A

-- The loop `while (cap < capacity) cap *= 2`.
unfoldable pub round_up : ℕ → ℕ → ℕ → Computed ℕ
round_up zero cap capacity = endless
round_up (suc fuel) cap capacity =
    let doubled = round_up fuel (cap * 2) capacity in
    if ltb cap capacity then (if ltb (cap * 2) (2 ^ 31) then doubled else overflow) else made cap

-- The tests of the loop: 2 ^ 4 can be doubled 26 times in an `int`.
abbrev pub doublings : ℕ
doublings = 27

-- `allocated` says whether the memory is there.
unfoldable pub visited_set_init : Bool → ℕ → Computed VisitedSet
visited_set_init allocated capacity = elim (round_up doublings 16 capacity) [
  | made cap ↦
      if allocated && is_positive_int (cap * 8)
      then made (record { slots = replicate cap 0; capacity = cap; count = 0 })
      else no_memory
  | no_memory ↦ no_memory
  | overflow ↦ overflow
  | endless ↦ endless
]

-- `(int)(((u64)rowid * 0x9E3779B97F4A7C15ULL) >> 32) & mask`: the conversion to int keeps the bits.
unfoldable pub home_slot : ℕ → ℕ → ℕ
home_slot rowid mask = bit_and (rowid * 0x9e3779b97f4a7c15 % 2 ^ 64 / 2 ^ 32) mask

-- The loops over `i`, with the rounds left; `(idx + i) & mask` is the slot probed.
unfoldable pub contains_loop : List ℕ → ℕ → ℕ → ℕ → ℕ → ℕ → Bool
contains_loop slots mask idx rowid zero i = false
contains_loop slots mask idx rowid (suc left) i =
    let next = contains_loop slots mask idx rowid left (i + 1) in
    let slot = bit_and (idx + i) mask in
    if get_or slots slot 0 == 0
    then false
    else (if get_or slots slot 0 == rowid then true else next)

unfoldable pub visited_set_contains : VisitedSet → ℕ → Bool
visited_set_contains visited rowid =
    let mask = visited.capacity - 1 in
    let found = contains_loop visited.slots mask (home_slot rowid mask) rowid visited.capacity 0 in
    if rowid == 0 then false else found

unfoldable pub insert_loop : VisitedSet → ℕ → ℕ → ℕ → ℕ → ℕ → VisitedSet × ℕ
insert_loop visited mask idx rowid zero i = (visited, 0)
insert_loop visited mask idx rowid (suc left) i =
    let next = insert_loop visited mask idx rowid left (i + 1) in
    let slot = bit_and (idx + i) mask in
    let written = record visited {
      slots = set visited.slots slot rowid;
      count = visited.count + 1;
    } in
    if get_or visited.slots slot 0 == 0
    then (written, 1)
    else (if get_or visited.slots slot 0 == rowid then (visited, 0) else next)

-- The result is the set and what is returned: 1 if the rowid was put into a free slot.
unfoldable pub visited_set_insert : VisitedSet → ℕ → VisitedSet × ℕ
visited_set_insert visited rowid =
    let mask = visited.capacity - 1 in
    let done = insert_loop visited mask (home_slot rowid mask) rowid visited.capacity 0 in
    if rowid == 0 then (visited, 0) else done
