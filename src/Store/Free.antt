-- ===== src/Store/Free.antt =====
-- The search for a free slot.
use agos_memory.Base.{
  ℕ, zero, suc, ◌+◌, ◌-◌, ◌*◌, ◌/◌, ◌%◌, ◌^◌, ◌≤◌, ◌<◌, ◌≡◌, refl, sym, ◌∙◌, subst, arith, Bool,
  true, false, Option, none, some, if◌then◌else◌, ◌==◌, [], ◌∷◌, length, bit_and, bit_and-one, inl,
  inr, Bool-cases, ==_iff, ltb,
}
use agos_memory.Bitmap.{Bitmap, bitmap_get}
use agos_memory.Bitmap.Byte.{digit}
use agos_memory.Bitmap.Access.{bitmap_get-digit, full_byte, IsBytes}
use agos_memory.Store.Insert.{free_in_byte, next_free}

-- The first bit off from place `j` on, among `left` places.
abbrev FirstOff : ℕ → ℕ → ℕ → Option ℕ → Type 0
FirstOff left byte j none = (q : ℕ) → j ≤ q → q < j + left → digit byte q ≡ 1
FirstOff left byte j (some o) =
    (j ≤ o) × (o < j + left) × (digit byte o ≡ 0) × ((q : ℕ) → j ≤ q → q < o → digit byte q ≡ 1)

free_in_byte-FirstOff : (left byte j : ℕ) → FirstOff left byte j (free_in_byte left byte j)
unfolding free_in_byte
free_in_byte-FirstOff zero byte j = λ q h l. absurd (omega arith)
free_in_byte-FirstOff (suc left) byte j =
    choose (free_in_byte left byte (j + 1)) (free_in_byte-FirstOff left byte (j + 1))
      (bit_and (byte / 2 ^ j) 1 == 0) refl
  where
    ahead :
        (o : ℕ)
        → (bit_and (byte / 2 ^ j) 1 == 0) ≡ false
        → ((q : ℕ) → j + 1 ≤ q → q < o → digit byte q ≡ 1)
        → (q : ℕ) → j ≤ q
        → q < o
        → digit byte q ≡ 1
    ahead o e h q a l = elim (Bool-cases (j == q)) [
      | inl same ↦
          subst (λ x. digit byte x ≡ 1) ((==_iff j q).0 same)
            (ground (arith, e, bit_and-one (byte / 2 ^ j)))
      | inr other ↦ h q (ground (arith, other)) l
    ]

    choose :
        (rest : Option ℕ)
        → FirstOff left byte (j + 1) rest
        → (b : Bool) → (bit_and (byte / 2 ^ j) 1 == 0) ≡ b
        → FirstOff (suc left) byte j (if b then some j else rest)
    choose rest h true e = (
      omega arith,
      omega arith,
      ground (arith, e, bit_and-one (byte / 2 ^ j)),
      λ q a l. absurd (omega arith),
    )
    choose none h false e = λ q a l. ahead (j + suc left) e (λ q a l. h q a (omega arith)) q a l
    choose (some o) h false e = (omega (arith, h.0), omega (arith, h.1), h.2, ahead o e h.3)

-- The first free slot of a bitmap before which `i` bytes stand, and all before it in use.
abbrev pub FirstFree : Bitmap → ℕ → Option ℕ → Type 0
FirstFree bm i none = (q : ℕ) → q < length bm * 8 → bitmap_get bm q ≡ 1
FirstFree bm i (some o) =
    (q : ℕ) × (o ≡ i * 8 + q)
    × (q < length bm * 8)
    × (bitmap_get bm q ≡ 0)
    × ((r : ℕ) → r < q → bitmap_get bm r ≡ 1)

bitmap_get-low :
    (byte : ℕ) (bytes : Bitmap) (q : ℕ) → q < 8 → bitmap_get (byte ∷ bytes) q ≡ digit byte q
bitmap_get-low byte bytes q l =
    let first : q / 8 ≡ 0 = omega arith in
    let place : q % 8 ≡ q = omega arith in
    bitmap_get-digit (byte ∷ bytes) q ∙ rw (first, place) refl

bitmap_get-high :
    (byte : ℕ) (bytes : Bitmap) (q r : ℕ)
    → q ≡ 8 + r
    → bitmap_get (byte ∷ bytes) q ≡ bitmap_get bytes r
bitmap_get-high byte bytes q r e =
    let next : q / 8 ≡ suc (r / 8) = omega arith in
    let place : q % 8 ≡ r % 8 = omega arith in
    bitmap_get-digit (byte ∷ bytes) q ∙ rw (next, place) (sym (bitmap_get-digit bytes r))

-- In a bitmap of bytes `next_free` finds the first slot that is free, and every slot before it is in
-- use; where it finds none, every slot of the bitmap is in use.
pub next_free-FirstFree : (bm : Bitmap) (i : ℕ) → IsBytes bm → FirstFree bm i (next_free bm i)
unfolding next_free
next_free-FirstFree [] i h = λ q l. absurd (omega arith)
next_free-FirstFree (byte ∷ bytes) i h =
    choose (next_free bytes (i + 1)) (next_free-FirstFree bytes (i + 1) h.1) (byte == 255) refl
  where
    -- Every slot of the first byte is in use.
    later :
        (rest : Option ℕ)
        → FirstFree bytes (i + 1) rest
        → ((q : ℕ) → q < 8 → digit byte q ≡ 1)
        → FirstFree (byte ∷ bytes) i rest
    later none f full = λ q l. elim (Bool-cases (ltb q 8)) [
      | inl low ↦ bitmap_get-low byte bytes q (ground arith) ∙ full q (ground arith)
      | inr high ↦ bitmap_get-high byte bytes q (q - 8) (ground arith) ∙ f (q - 8) (ground arith)
    ]
    later (some o) f full = (
      8 + f.0,
      omega (arith, f.1),
      omega (arith, f.2),
      bitmap_get-high byte bytes (8 + f.0) f.0 refl ∙ f.3,
      λ q l. elim (Bool-cases (ltb q 8)) [
        | inl low ↦ bitmap_get-low byte bytes q (ground arith) ∙ full q (ground arith)
        | inr high ↦
            bitmap_get-high byte bytes q (q - 8) (ground arith) ∙ f.4 (q - 8) (ground arith)
      ],
    )

    inside :
        (o rest : Option ℕ)
        → FirstOff 8 byte 0 o
        → FirstFree bytes (i + 1) rest
        → FirstFree (byte ∷ bytes) i (elim o [ none ↦ rest | some j ↦ some (i * 8 + j) ])
    inside none rest g f = later rest f (λ q l. g q (omega arith) (omega arith))
    inside (some j) rest g f = (
      j,
      refl,
      omega (arith, g.1),
      bitmap_get-low byte bytes j (omega (arith, g.1)) ∙ g.2,
      λ q l. bitmap_get-low byte bytes q (omega (arith, g.1)) ∙ g.3 q (omega arith) l,
    )

    choose :
        (rest : Option ℕ)
        → FirstFree bytes (i + 1) rest
        → (b : Bool) → (byte == 255) ≡ b
        → FirstFree (byte ∷ bytes) i (
            if b
            then rest
            else elim (free_in_byte 8 byte 0) [ none ↦ rest | some j ↦ some (i * 8 + j) ])
    choose rest f true e =
        let full : byte ≡ 255 = (==_iff byte 255).0 e in
        later rest f (λ q l. subst (λ x. digit x q ≡ 1) (sym full) (full_byte q l))
    choose rest f false e = inside (free_in_byte 8 byte 0) rest (free_in_byte-FirstOff 8 byte 0) f
