-- ===== src/Tests/Slots.antt =====
-- Bitmaps of sixteen slots.
use agos_memory.Base.{◌≡◌, refl, false, true, ◌&&◌, ◌==◌, [], ◌∷◌, arith, if◌then◌else◌}
use agos_memory.Bitmap.{
  bitmap_set, bitmap_get, bitmap_clear, bitmap_fill, bitmap_and_inplace, has, and_loop, byte_on,
  byte_off,
}
use agos_memory.Bitmap.Access.{bitmap_get-bitmap_set, has-bitmap_clear}
use agos_memory.Bitmap.Meet.{has-bitmap_and_inplace}

bitmap_runs :
    (bitmap_set (0 ∷ 0x81 ∷ []) 9 1 ≡ 0 ∷ 0x83 ∷ [])
    × (bitmap_set (0 ∷ 0x81 ∷ []) 15 0 ≡ 0 ∷ 1 ∷ [])
    × (bitmap_and_inplace (0x0f ∷ 0xf0 ∷ []) (0x3c ∷ 0x3c ∷ []) 16 ≡ 0x0c ∷ 0x30 ∷ [])
unfolding bitmap_set byte_on byte_off bitmap_and_inplace and_loop
bitmap_runs = (refl, refl, refl)

bitmap_get-bitmap_set_example :
    bitmap_get (bitmap_set (0 ∷ 0x81 ∷ []) 9 1) 9
    ≡ (if 9 == 9 then (if 1 == 0 then 0 else 1) else bitmap_get (0 ∷ 0x81 ∷ []) 9)
bitmap_get-bitmap_set_example =
    bitmap_get-bitmap_set (0 ∷ 0x81 ∷ []) 9 9 1 (omega arith, (omega arith, tt)) (omega arith)

has-bitmap_and_inplace_example :
    has (bitmap_and_inplace (0x0f ∷ 0xf0 ∷ []) (0x3c ∷ 0x3c ∷ []) 16) 12
    ≡ (has (0x0f ∷ 0xf0 ∷ []) 12 && has (0x3c ∷ 0x3c ∷ []) 12)
has-bitmap_and_inplace_example =
    has-bitmap_and_inplace (0x0f ∷ 0xf0 ∷ []) (0x3c ∷ 0x3c ∷ []) 16 12 (omega arith) (omega arith)

has-bitmap_clear_example :
    (has (bitmap_clear (3 ∷ 7 ∷ []) 16) 8 ≡ false) × (has (bitmap_fill (3 ∷ 7 ∷ []) 16) 8 ≡ true)
has-bitmap_clear_example = has-bitmap_clear (3 ∷ 7 ∷ []) 16 8 (omega arith) (omega arith)
