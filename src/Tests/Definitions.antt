-- ===== src/Tests/Definitions.antt =====
-- Column definitions as bytes, with a comparison that folds no case.
use agos_memory.Base.{
  ℕ, zero, suc, ◌≡◌, ◌↔◌, refl, Bool, true, false, ◌&&◌, List, [], ◌∷◌, ◌++◌, ◌==◌,
}
use agos_memory.Scanner.{Token, TokenType, run, past, token_at, vec0_token_next, vec0_scanner_next}
use agos_memory.Scanner.Read.{Reads, vec0_token_next-Reads}
use agos_memory.Columns.{
  absent, parsed, ColumnType, integer_kind, key_type, key_tests, metadata_kind, metadata_tests,
  vec0_parse_table_option, vec0_parse_partition_key_definition, vec0_parse_primary_key_definition,
  vec0_parse_auxiliary_column_definition, vec0_parse_metadata_column_definition,
}
use agos_memory.Columns.Spelling.{word_int, word_key, word_partition}
use agos_memory.Columns.Words.{
  lay, IsLaid, parse_key-lay, vec0_parse_table_option-lay, vec0_parse_table_option-equals,
  vec0_parse_auxiliary_column_definition-lay,
}
use agos_memory.Columns.Metadata.{Defines, vec0_parse_metadata_column_definition-Defines}

-- Whether the first `n` bytes agree.
abbrev compare_bytes : List ℕ → List ℕ → ℕ → Bool
compare_bytes a b zero = true
compare_bytes [] [] (suc n) = true
compare_bytes [] (y ∷ b) (suc n) = false
compare_bytes (x ∷ a) [] (suc n) = false
compare_bytes (x ∷ a) (y ∷ b) (suc n) = x == y && compare_bytes a b n

-- What the caller's frame holds.
abbrev junk : Token
junk = record { token_type = TokenType.comma; text = 0xff ∷ [] }

abbrev user : List ℕ
user = 0x75 ∷ 0x69 ∷ 0x64 ∷ []

abbrev space : List ℕ
space = 0x20 ∷ []

abbrev key_words : List (List ℕ × List ℕ)
key_words = ([], user) ∷ (space, word_int) ∷ (space, word_partition) ∷ (0x9 ∷ space, word_key) ∷ []

-- `uid int partition <tab> key`
partition_runs :
    vec0_parse_partition_key_definition compare_bytes (lay key_words []) junk
    ≡ parsed (user, ColumnType.integer)
unfolding vec0_parse_partition_key_definition key_tests key_type vec0_scanner_next vec0_token_next
    token_at run past
partition_runs = refl

-- `u t p k` is one too, and `1 + + +`: the comparison goes as far as the token.
prefix_runs :
    vec0_parse_partition_key_definition compare_bytes
      (0x75 ∷ 0x20 ∷ 0x74 ∷ 0x20 ∷ 0x70 ∷ 0x20 ∷ 0x6b ∷ [])
      junk
    ≡ parsed (0x75 ∷ [], ColumnType.text)
unfolding vec0_parse_partition_key_definition key_tests key_type vec0_scanner_next vec0_token_next
    token_at run past
prefix_runs = refl

mark_runs :
    vec0_parse_partition_key_definition compare_bytes (0x31 ∷ 0x2b ∷ 0x2b ∷ 0x2b ∷ []) junk
    ≡ parsed (0x31 ∷ [], ColumnType.text)
unfolding vec0_parse_partition_key_definition key_tests key_type vec0_scanner_next vec0_token_next
    token_at run past
mark_runs = refl

key_words-IsLaid : IsLaid key_words []
key_words-IsLaid = (
  tt,
  (refl, (refl, (refl, tt))),
  refl,
  (
    (refl, tt),
    (refl, (refl, (refl, tt))),
    refl,
    (
      (refl, tt),
      (refl, (refl, (refl, (refl, (refl, (refl, (refl, (refl, (refl, tt))))))))),
      refl,
      ((refl, (refl, tt)), (refl, (refl, (refl, tt))), tt, tt),
    ),
  ),
)

parse_key-lay_example :
    (vec0_parse_partition_key_definition compare_bytes (lay key_words []) junk
      ≡ parsed (user, ColumnType.integer))
    × (vec0_parse_primary_key_definition compare_bytes (lay key_words []) junk ≡ absent)
parse_key-lay_example =
    parse_key-lay compare_bytes ([], user) (space, word_int) (space, word_partition)
      (0x9 ∷ space, word_key) [] junk key_words-IsLaid

abbrev pair_words : List (List ℕ × List ℕ)
pair_words = ([], user) ∷ (space, word_int) ∷ []

pair_words-IsLaid : IsLaid pair_words []
pair_words-IsLaid =
    (tt, (refl, (refl, (refl, tt))), refl, ((refl, tt), (refl, (refl, (refl, tt))), tt, tt))

vec0_parse_table_option-lay_example :
    vec0_parse_table_option (lay pair_words []) junk ≡ parsed (user, word_int)
vec0_parse_table_option-lay_example =
    vec0_parse_table_option-lay ([], user) (space, word_int) [] junk pair_words-IsLaid tt

vec0_parse_table_option-equals_example :
    vec0_parse_table_option (user ++ 0x3d ∷ (space ++ word_int ++ [])) junk
    ≡ parsed (user, word_int)
vec0_parse_table_option-equals_example =
    vec0_parse_table_option-equals ([], user) (space, word_int) [] [] junk tt
      (refl, (refl, (refl, tt))) refl tt pair_words-IsLaid.3 tt

vec0_parse_auxiliary_column_definition-lay_example :
    vec0_parse_auxiliary_column_definition compare_bytes (space ++ 0x2b ∷ lay pair_words []) junk
    ≡ parsed (user, ColumnType.integer)
vec0_parse_auxiliary_column_definition-lay_example =
    vec0_parse_auxiliary_column_definition-lay compare_bytes space ([], user) (space, word_int) []
      junk (refl, tt) pair_words-IsLaid

vec0_parse_metadata_column_definition-Defines_example :
    (vec0_parse_metadata_column_definition compare_bytes (lay pair_words []) junk
      ≡ parsed (user, integer_kind))
    ↔ Defines compare_bytes (lay pair_words []) user integer_kind
vec0_parse_metadata_column_definition-Defines_example =
    vec0_parse_metadata_column_definition-Defines compare_bytes (lay pair_words []) junk user
      integer_kind

metadata_runs :
    vec0_parse_metadata_column_definition compare_bytes (lay pair_words []) junk
    ≡ parsed (user, integer_kind)
unfolding vec0_parse_metadata_column_definition metadata_tests metadata_kind vec0_scanner_next
    vec0_token_next token_at run past
metadata_runs = refl

vec0_token_next-Reads_example :
    Reads junk (lay pair_words []) (vec0_token_next (lay pair_words []) junk)
vec0_token_next-Reads_example = vec0_token_next-Reads (lay pair_words []) junk
