-- ===== src/Bitmap.antt =====
-- Bitmaps of chunk slots: crates/sqlite-vec-src/src/sqlite-vec.c, `bitmap_new` to `bitmap_fill`.
-- A bitmap is the list of its bytes. The asserts `n % 8 == 0` hold at every call: chunk sizes are
-- multiples of 8. A failed `sqlite3_malloc` is the argument `allocated`.
pub mod Byte
pub mod Access
pub mod Meet
pub mod Loop
use agos_memory.Base.{
  ℕ, zero, suc, ◌+◌, ◌-◌, ◌/◌, ◌%◌, ◌^◌, bit_and, bit_or, Bool, not, Option, none, some, List, [],
  ◌∷◌, ◌==◌, if◌then◌else◌, get_or, set, replicate,
}

abbrev pub Bitmap : Type 0
Bitmap = List ℕ

abbrev pub char_bit : ℕ
char_bit = 8

-- What C's `memset` does to the first `n` bytes.
unfoldable pub memset : Bitmap → ℕ → ℕ → Bitmap
memset [] v n = []
memset (x ∷ xs) v zero = x ∷ xs
memset (x ∷ xs) v (suc n) = v ∷ memset xs v n

-- What C's `memcpy` does to the first `n` bytes.
unfoldable pub memcpy : Bitmap → Bitmap → ℕ → Bitmap
memcpy [] from n = []
memcpy (x ∷ xs) from zero = x ∷ xs
memcpy (x ∷ xs) [] (suc n) = x ∷ xs
memcpy (x ∷ xs) (y ∷ ys) (suc n) = y ∷ memcpy xs ys n

unfoldable pub bitmap_new : Bool → ℕ → Option Bitmap
bitmap_new allocated n = if allocated then some (replicate (n / char_bit) 0) else none

unfoldable pub bitmap_new_from : Bool → ℕ → Bitmap → Option Bitmap
unfolding memcpy
bitmap_new_from allocated n from =
    if allocated then some (memcpy (replicate (n / char_bit) 0) from (n / char_bit)) else none

unfoldable pub bitmap_copy : Bitmap → Bitmap → ℕ → Bitmap
unfolding memcpy
bitmap_copy base from n = memcpy base from (n / char_bit)

-- The loop `for (i; i < n / CHAR_BIT; i++)` with the rounds left.
unfoldable pub and_loop : ℕ → ℕ → Bitmap → Bitmap → Bitmap
and_loop zero i base other = base
and_loop (suc left) i base other =
    and_loop left (i + 1) (set base i (bit_and (get_or base i 0) (get_or other i 0))) other

unfoldable pub bitmap_and_inplace : Bitmap → Bitmap → ℕ → Bitmap
bitmap_and_inplace base other n = and_loop (n / char_bit) 0 base other

-- The byte with the bit at place `j` on, and off: `~(1 << j)` cut to eight bits is `255 - 2 ^ j`.
unfoldable pub byte_on : ℕ → ℕ → ℕ
byte_on byte j = bit_or byte (2 ^ j)

unfoldable pub byte_off : ℕ → ℕ → ℕ
byte_off byte j = bit_and byte (255 - 2 ^ j)

unfoldable pub bitmap_set : Bitmap → ℕ → ℕ → Bitmap
bitmap_set bitmap position value =
    let old = get_or bitmap (position / char_bit) 0 in
    set bitmap (position / char_bit)
      (if value == 0 then byte_off old (position % char_bit) else byte_on old (position % char_bit))

unfoldable pub bitmap_get : Bitmap → ℕ → ℕ
bitmap_get bitmap position =
    bit_and (get_or bitmap (position / char_bit) 0 / 2 ^ (position % char_bit)) 1

unfoldable pub bitmap_clear : Bitmap → ℕ → Bitmap
bitmap_clear bitmap n = memset bitmap 0 (n / char_bit)

unfoldable pub bitmap_fill : Bitmap → ℕ → Bitmap
bitmap_fill bitmap n = memset bitmap 0xff (n / char_bit)

-- The condition `bitmap_get(bitmap, position)`.
abbrev pub has : Bitmap → ℕ → Bool
has bitmap position = not (bitmap_get bitmap position == 0)

-- `for (int i = 0; i < n; i++)` over the slots of a bitmap, with the rounds left.
unfoldable pub for_slots : (ℕ → Bitmap → Bitmap) → ℕ → ℕ → Bitmap → Bitmap
for_slots body zero i bitmap = bitmap
for_slots body (suc left) i bitmap = for_slots body left (i + 1) (body i bitmap)
