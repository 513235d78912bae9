-- ===== src/Columns.antt =====
-- The parsers of column definitions, crates/sqlite-vec-src/src/sqlite-vec.c, `vec0_parse_table_option`
-- to `vec0_parse_primary_key_definition`. `token` is what the uninitialised token of the caller's
-- frame holds: two of the tests read it when the first scan finds none.
pub mod Spelling
pub mod Keywords
pub mod Words
pub mod Metadata
use agos_memory.Base.{
  ℕ, Bool, true, false, not, ◌&&◌, ◌||◌, List, [], ◌∷◌, Option, none, some, if◌then◌else◌, length,
}
use agos_memory.Scanner.{
  Token, TokenType, identifier, digit, lbracket, rbracket, plus, equals, lparen, rparen, comma,
  TokenResult, eof, found, error, Scanned, vec0_scanner_next,
}
use agos_memory.Columns.Spelling.{
  word_text, word_int, word_integer, word_partition, word_key, word_primary, word_float,
  word_double, word_blob, word_boolean, word_bool, word_int64, word_integer64, word_float64,
  word_f64,
}

-- SQLITE_EMPTY, SQLITE_ERROR, and SQLITE_OK with the outputs.
pub data Parsed (A : Type 0) : Type 0 where
  absent : Parsed A
  failed : Parsed A
  parsed : A → Parsed A

pub data ColumnType : Type 0 where
  text : ColumnType
  integer : ColumnType
  float : ColumnType
  blob : ColumnType

pub data MetadataKind : Type 0 where
  boolean_kind : MetadataKind
  integer_kind : MetadataKind
  float_kind : MetadataKind
  text_kind : MetadataKind

abbrev pub is_found : TokenResult → Bool
is_found found = true
is_found eof = false
is_found error = false

abbrev is_eof : TokenResult → Bool
is_eof eof = true
is_eof found = false
is_eof error = false

abbrev pub is_identifier : Token → Bool
is_identifier t = elim t.token_type [ identifier ↦ true | _ ↦ false ]

abbrev is_number : Token → Bool
is_number t = elim t.token_type [ digit ↦ true | _ ↦ false ]

abbrev is_equals : Token → Bool
is_equals t = elim t.token_type [ equals ↦ true | _ ↦ false ]

abbrev is_plus : Token → Bool
is_plus t = elim t.token_type [ plus ↦ true | _ ↦ false ]

-- `rc != VEC0_TOKEN_RESULT_SOME && ...`, as three of the parsers write it.
abbrev pub lacks : TokenResult → Bool → Bool
lacks rc fits = not (is_found rc) && not fits

-- `rc != VEC0_TOKEN_RESULT_SOME || ...`, as the others write it.
abbrev pub refuses : TokenResult → Bool → Bool
refuses rc fits = not (is_found rc) || not fits

-- The next scan, with the token as it was left.
abbrev pub following : Scanned → Scanned
following s = vec0_scanner_next s.rest s.token

-- Each parser scans and tests by turns; a scan changes nothing but the token and the scanner, so the
-- tests are those of a function of all the scans.
abbrev pub scan_two : {B : Type 0} → (Scanned → Scanned → B) → Scanned → B
scan_two f a = f a (following a)

abbrev pub scan_three : {B : Type 0} → (Scanned → Scanned → Scanned → B) → Scanned → B
scan_three f a = scan_two (f a) (following a)

abbrev pub scan_four : {B : Type 0} → (Scanned → Scanned → Scanned → Scanned → B) → Scanned → B
scan_four f a = scan_three (f a) (following a)

unfoldable pub option_tests : Scanned → Scanned → Scanned → Scanned → Parsed (List ℕ × List ℕ)
option_tests a b c d =
    if lacks a.rc (is_identifier a.token)
    then absent
    else (if lacks b.rc (is_equals b.token)
        then absent
        else (if lacks c.rc (is_identifier c.token || is_number c.token)
            then failed
            else (if is_eof d.rc then parsed (a.token.text, c.token.text) else failed)))

unfoldable pub vec0_parse_table_option : List ℕ → Token → Parsed (List ℕ × List ℕ)
vec0_parse_table_option source token = scan_four option_tests (vec0_scanner_next source token)

-- `strnicmp a b n` stands for `sqlite3_strnicmp(a, b, n) == 0`.
module _ (strnicmp : List ℕ → List ℕ → ℕ → Bool) where
  -- The comparison of a token with a word: as far as the token goes.
  abbrev pub spells : Token → List ℕ → Bool
  spells t word = strnicmp t.text word (length t.text)

  unfoldable pub key_type : Token → Option ColumnType
  key_type t =
      if spells t word_text
      then some text
      else (if spells t word_int || spells t word_integer then some integer else none)

  -- A column name, a type, and two keywords: the tests that both key definitions share.
  unfoldable pub key_tests :
      List ℕ → Scanned → Scanned → Scanned → Scanned → Parsed (List ℕ × ColumnType)
  key_tests keyword a b c d =
      if lacks a.rc (is_identifier a.token)
      then absent
      else (if lacks b.rc (is_identifier b.token) then absent else elim (key_type b.token) [
        | none ↦ absent
        | some type ↦
            if lacks c.rc (is_identifier c.token)
            then absent
            else (if not (spells c.token keyword)
                then absent
                else (if lacks d.rc (is_identifier d.token)
                    then absent
                    else (if not (spells d.token word_key)
                        then absent
                        else parsed (a.token.text, type))))
      ])

  unfoldable pub vec0_parse_partition_key_definition : List ℕ → Token → Parsed (List ℕ × ColumnType)
  vec0_parse_partition_key_definition source token =
      scan_four (key_tests word_partition) (vec0_scanner_next source token)

  unfoldable pub vec0_parse_primary_key_definition : List ℕ → Token → Parsed (List ℕ × ColumnType)
  vec0_parse_primary_key_definition source token =
      scan_four (key_tests word_primary) (vec0_scanner_next source token)

  unfoldable pub auxiliary_type : Token → Option ColumnType
  auxiliary_type t =
      if spells t word_text
      then some text
      else (if spells t word_int || spells t word_integer
          then some integer
          else (if spells t word_float || spells t word_double
              then some float
              else (if spells t word_blob then some blob else none)))

  unfoldable pub auxiliary_tests : Scanned → Scanned → Scanned → Parsed (List ℕ × ColumnType)
  auxiliary_tests a b c =
      if refuses a.rc (is_plus a.token)
      then absent
      else (if lacks b.rc (is_identifier b.token)
          then absent
          else (if lacks c.rc (is_identifier c.token)
              then absent
              else elim (auxiliary_type c.token) [
                | none ↦ absent
                | some type ↦ parsed (b.token.text, type)
              ]))

  unfoldable pub vec0_parse_auxiliary_column_definition :
      List ℕ → Token → Parsed (List ℕ × ColumnType)
  vec0_parse_auxiliary_column_definition source token =
      scan_three auxiliary_tests (vec0_scanner_next source token)

  unfoldable pub metadata_kind : Token → Option MetadataKind
  metadata_kind t =
      if spells t word_boolean || spells t word_bool
      then some boolean_kind
      else (if spells t word_int64
            || spells t word_integer64
            || spells t word_integer
            || spells t word_int
          then some integer_kind
          else (if spells t word_float
                || spells t word_double
                || spells t word_float64
                || spells t word_f64
              then some float_kind
              else (if spells t word_text then some text_kind else none)))

  unfoldable pub metadata_tests : Scanned → Scanned → Parsed (List ℕ × MetadataKind)
  metadata_tests a b =
      if refuses a.rc (is_identifier a.token)
      then absent
      else (if refuses b.rc (is_identifier b.token) then absent else elim (metadata_kind b.token) [
        | none ↦ absent
        | some kind ↦ parsed (a.token.text, kind)
      ])

  unfoldable pub vec0_parse_metadata_column_definition :
      List ℕ → Token → Parsed (List ℕ × MetadataKind)
  vec0_parse_metadata_column_definition source token =
      scan_two metadata_tests (vec0_scanner_next source token)
