-- ===== src/Array.antt =====
-- The growing array, crates/sqlite-vec-src/src/sqlite-vec.c, `struct Array`. Its memory is the list of
-- its bytes. What an allocation gives is an argument, none when it fails.
pub mod Append
use agos_memory.Base.{
  ℕ, ◌+◌, ◌*◌, ◌%◌, ◌^◌, ◌&&◌, is_positive_int, Bool, List, [], ◌++◌, Option, none, some,
  if◌then◌else◌, ◌==◌, replicate,
}
use agos_memory.Nodes.{copy_in}

pub record Array : Type 0 where
  pub element_size : ℕ
  pub length : ℕ
  pub capacity : ℕ
  pub z : List ℕ

-- `int sz = element_size * init_capacity`: the low 32 bits of the product are asked for.
unfoldable pub array_init : Bool → ℕ → ℕ → Option Array
array_init allocated element_size init_capacity =
    if allocated && is_positive_int (element_size * init_capacity)
    then some (record {
      element_size = element_size;
      length = 0;
      capacity = init_capacity;
      z = replicate (element_size * init_capacity % 2 ^ 32) 0;
    })
    else none

-- The write behind the last element.
unfoldable pub push : Array → List ℕ → Array
push array element = record array {
  length = array.length + 1;
  z = copy_in (array.length * array.element_size) element array.z;
}

-- `extra` is what `sqlite3_realloc64` adds behind the bytes that it keeps.
unfoldable pub array_append : Array → Option (List ℕ) → List ℕ → Option Array
array_append array extra element =
    let grown : Option Array = elim extra [
      | none ↦ none
      | some more ↦
          some (
            push (record array { capacity = array.capacity * 2 + 100; z = array.z ++ more })
              element)
    ] in
    if array.length == array.capacity then grown else some (push array element)

unfoldable pub array_cleanup : Array → Array
array_cleanup array = record { element_size = 0; length = 0; capacity = 0; z = [] }
