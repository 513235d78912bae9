-- ===== src/Columns/Words.antt =====
-- Column definitions that are written as words.
use agos_memory.Base.{
  ℕ, ◌≡◌, refl, ap, ◌∙◌, Bool, true, false, not, ◌&&◌, List, [], ◌∷◌, ◌++◌, Option, none, some,
  if◌then◌else◌, length,
}
use agos_memory.Scanner.{
  Token, identifier, equals, plus, eof, Scanned, mark, is_word, vec0_scanner_next,
}
use agos_memory.Scanner.Span.{Stops}
use agos_memory.Scanner.Lexeme.{
  IsBlank, IsIdentifier, word_at, vec0_scanner_next-word, vec0_scanner_next-at_end,
  vec0_scanner_next-mark,
}
use agos_memory.Columns.{
  Parsed, absent, parsed, ColumnType, vec0_parse_table_option, spells, key_type, key_tests,
  option_tests, following, scan_two, scan_three, scan_four, vec0_parse_partition_key_definition,
  vec0_parse_primary_key_definition, auxiliary_tests, vec0_parse_auxiliary_column_definition,
}
use agos_memory.Columns.Keywords.{
  key_types, auxiliary_types, begins, entry, key_type-entry, auxiliary_type-entry,
}
use agos_memory.Columns.Spelling.{word_partition, word_primary, word_key}

-- Words, each after its blanks, and what follows the last.
abbrev pub lay : List (List ℕ × List ℕ) → List ℕ → List ℕ
lay [] tail = tail
lay (w ∷ words) tail = w.0 ++ (w.1 ++ lay words tail)

-- The words are identifiers, and each ends where it should.
abbrev pub IsLaid : List (List ℕ × List ℕ) → List ℕ → Type 0
IsLaid [] tail = Unit
IsLaid (w ∷ words) tail =
    IsBlank w.0 × IsIdentifier w.1 × Stops is_word (lay words tail) × IsLaid words tail

abbrev pub word : List ℕ → Token
word w = record { token_type = identifier; text = w }

pub read_word :
    (w : List ℕ × List ℕ) (words : List (List ℕ × List ℕ)) (tail : List ℕ) (token : Token)
    → IsLaid (w ∷ words) tail
    → vec0_scanner_next (lay (w ∷ words) tail) token ≡ word_at w.1 (lay words tail)
read_word w words tail token h = vec0_scanner_next-word w.0 w.1 (lay words tail) token h.0 h.1 h.2

-- The scans of a parser, one after the other.
pub scan_two-eq :
    {B : Type 0} (f : Scanned → Scanned → B) (s a b : Scanned)
    → s ≡ a
    → following a ≡ b
    → scan_two f s ≡ f a b
scan_two-eq f s a b e g = ap (scan_two f) e ∙ ap (f a) g

scan_three-eq :
    {B : Type 0} (f : Scanned → Scanned → Scanned → B) (s a b c : Scanned)
    → s ≡ a
    → following a ≡ b
    → following b ≡ c
    → scan_three f s ≡ f a b c
scan_three-eq f s a b c e g h = ap (scan_three f) e ∙ scan_two-eq (f a) (following a) b c g h

scan_four-eq :
    {B : Type 0} (f : Scanned → Scanned → Scanned → Scanned → B) (s a b c d : Scanned)
    → s ≡ a
    → following a ≡ b
    → following b ≡ c
    → following c ≡ d
    → scan_four f s ≡ f a b c d
scan_four-eq f s a b c d e g h k =
    ap (scan_four f) e ∙ scan_three-eq (f a) (following a) b c d g h k

-- Two words with no `=` between them, and only blanks after them, are taken for an option with the
-- first as key and the second as value.
pub vec0_parse_table_option-lay :
    (a b : List ℕ × List ℕ) (tail : List ℕ) (token : Token)
    → IsLaid (a ∷ b ∷ []) tail
    → IsBlank tail
    → vec0_parse_table_option (lay (a ∷ b ∷ []) tail) token ≡ parsed (a.1, b.1)
unfolding vec0_parse_table_option option_tests
vec0_parse_table_option-lay a b tail token h k =
    scan_four-eq option_tests _ (word_at a.1 (lay (b ∷ []) tail)) (word_at b.1 tail)
      (record { rc = eof; token = word b.1; rest = tail })
      (record { rc = eof; token = word b.1; rest = tail }) (read_word a (b ∷ []) tail token h)
      (read_word b [] tail (word a.1) h.3) (vec0_scanner_next-at_end tail (word b.1) k)
      (vec0_scanner_next-at_end tail (word b.1) k)

-- A text of an identifier, `=` and an identifier, with blanks before each and at the end, is an option
-- with the first as key and the second as value.
pub vec0_parse_table_option-equals :
    (a b : List ℕ × List ℕ) (gap tail : List ℕ) (token : Token)
    → IsBlank a.0
    → IsIdentifier a.1
    → Stops is_word (gap ++ 0x3d ∷ lay (b ∷ []) tail)
    → IsBlank gap
    → IsLaid (b ∷ []) tail
    → IsBlank tail
    → vec0_parse_table_option (a.0 ++ (a.1 ++ (gap ++ 0x3d ∷ lay (b ∷ []) tail))) token
      ≡ parsed (a.1, b.1)
unfolding vec0_parse_table_option option_tests
vec0_parse_table_option-equals a b gap tail token p i s g h k =
    scan_four-eq option_tests _ (word_at a.1 (gap ++ 0x3d ∷ lay (b ∷ []) tail))
      (mark equals (lay (b ∷ []) tail)) (word_at b.1 tail)
      (record { rc = eof; token = word b.1; rest = tail })
      (vec0_scanner_next-word a.0 a.1 _ token p i s)
      ((vec0_scanner_next-mark gap (lay (b ∷ []) tail) (word a.1) g).0) (read_word b [] tail _ h)
      (vec0_scanner_next-at_end tail (word b.1) k)

module _ (strnicmp : List ℕ → List ℕ → ℕ → Bool) where
  -- What four words define, by the table of types and the two keywords.
  abbrev key_of : List ℕ → List ℕ → List ℕ → List ℕ → List ℕ → Parsed (List ℕ × ColumnType)
  key_of keyword name type third fourth = elim (entry strnicmp key_types type) [
    | none ↦ absent
    | some t ↦
        if strnicmp third keyword (length third) && strnicmp fourth word_key (length fourth)
        then parsed (name, t)
        else absent
  ]

  -- What two words after a `+` define, by the table of types.
  abbrev auxiliary_of : List ℕ → List ℕ → Parsed (List ℕ × ColumnType)
  auxiliary_of name type = elim (entry strnicmp auxiliary_types type) [
    | none ↦ absent
    | some t ↦ parsed (name, t)
  ]

  module _ (a b c d : List ℕ × List ℕ) (tail : List ℕ) (token : Token)
      (h : IsLaid (a ∷ b ∷ c ∷ d ∷ []) tail) where
    read_key :
        (keyword : List ℕ)
        → scan_four
            (key_tests strnicmp keyword)
            (vec0_scanner_next (lay (a ∷ b ∷ c ∷ d ∷ []) tail) token)
          ≡ key_of keyword a.1 b.1 c.1 d.1
    unfolding key_tests
    read_key keyword =
        scan_four-eq (key_tests strnicmp keyword) _ (word_at a.1 (lay (b ∷ c ∷ d ∷ []) tail))
          (word_at b.1 (lay (c ∷ d ∷ []) tail)) (word_at c.1 (lay (d ∷ []) tail)) (word_at d.1 tail)
          (read_word a (b ∷ c ∷ d ∷ []) tail token h) (read_word b (c ∷ d ∷ []) tail (word a.1) h.3)
          (read_word c (d ∷ []) tail (word b.1) h.3.3) (read_word d [] tail (word c.1) h.3.3.3)
        ∙ decide (key_type strnicmp (word b.1)) (spells strnicmp (word c.1) keyword)
            (spells strnicmp (word d.1) word_key)
        ∙ ap
            (λ t. elim t as (λ z. Parsed (List ℕ × ColumnType)) [
              | none ↦ absent
              | some type ↦
                  if begins strnicmp c.1 keyword && begins strnicmp d.1 word_key
                  then parsed (a.1, type)
                  else absent
            ])
            (key_type-entry strnicmp (word b.1))
      where
        decide :
            (t : Option ColumnType) (x y : Bool)
            → (elim t as (λ z. Parsed (List ℕ × ColumnType)) [
              | none ↦ absent
              | some type ↦ if not x then absent else (if not y then absent else parsed (a.1, type))
            ])
              ≡ (elim t as (λ z. Parsed (List ℕ × ColumnType)) [
                | none ↦ absent
                | some type ↦ if x && y then parsed (a.1, type) else absent
              ])
        decide none x y = refl
        decide (some t) true true = refl
        decide (some t) true false = refl
        decide (some t) false y = refl

    -- A text of four words is a partition key exactly when the second word agrees with `text`, `int`
    -- or `integer`, the third with `partition` and the fourth with `key`, each compared in as many
    -- bytes as the word has; it gives the first word, and the type text if the second agrees with
    -- `text` and else integer. It is a primary key in the same way, with `primary` for `partition`.
    pub parse_key-lay :
        (vec0_parse_partition_key_definition strnicmp (lay (a ∷ b ∷ c ∷ d ∷ []) tail) token
          ≡ key_of word_partition a.1 b.1 c.1 d.1)
        × (vec0_parse_primary_key_definition strnicmp (lay (a ∷ b ∷ c ∷ d ∷ []) tail) token
            ≡ key_of word_primary a.1 b.1 c.1 d.1)
    unfolding vec0_parse_partition_key_definition vec0_parse_primary_key_definition
    parse_key-lay = (read_key word_partition, read_key word_primary)

  -- A `+` and two words are an auxiliary column exactly when the second word, compared in as many
  -- bytes as it has, agrees with one of `text`, `int`, `integer`, `float`, `double` and `blob`; it
  -- gives the first word and the type of the first keyword that agrees, which is integer for the
  -- second and third, float for the fourth and fifth.
  pub vec0_parse_auxiliary_column_definition-lay :
      (gap : List ℕ) (b c : List ℕ × List ℕ) (tail : List ℕ) (token : Token)
      → IsBlank gap
      → IsLaid (b ∷ c ∷ []) tail
      → vec0_parse_auxiliary_column_definition strnicmp (gap ++ 0x2b ∷ lay (b ∷ c ∷ []) tail) token
        ≡ auxiliary_of b.1 c.1
  unfolding vec0_parse_auxiliary_column_definition auxiliary_tests
  vec0_parse_auxiliary_column_definition-lay gap b c tail token g h =
      scan_three-eq (auxiliary_tests strnicmp) _ (mark plus (lay (b ∷ c ∷ []) tail))
        (word_at b.1 (lay (c ∷ []) tail)) (word_at c.1 tail)
        ((vec0_scanner_next-mark gap (lay (b ∷ c ∷ []) tail) token g).1)
        (read_word b (c ∷ []) tail _ h) (read_word c [] tail (word b.1) h.3)
      ∙ ap
          (λ t. elim t as (λ z. Parsed (List ℕ × ColumnType)) [
            | none ↦ absent
            | some type ↦ parsed (b.1, type)
          ])
          (auxiliary_type-entry strnicmp (word c.1))
