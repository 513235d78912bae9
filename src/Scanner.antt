-- ===== src/Scanner.antt =====
-- The scanner of column definitions, crates/sqlite-vec-src/src/sqlite-vec.c, `is_alpha` to
-- `vec0_scanner_next`. Source text is the list of its bytes, and a pointer into it is the list from
-- there on. A token keeps the bytes from its `start` to its `end`.
pub mod Span
pub mod Lexeme
pub mod Read
use agos_memory.Base.{ℕ, Bool, true, false, ◌&&◌, ◌||◌, List, [], ◌∷◌, if◌then◌else◌, ◌==◌, leb}

pub data TokenType : Type 0 where
  identifier : TokenType
  digit : TokenType
  lbracket : TokenType
  rbracket : TokenType
  plus : TokenType
  equals : TokenType
  lparen : TokenType
  rparen : TokenType
  comma : TokenType

pub record Token : Type 0 where
  pub token_type : TokenType
  pub text : List ℕ

-- VEC0_TOKEN_RESULT_EOF, _SOME and _ERROR.
pub data TokenResult : Type 0 where
  eof : TokenResult
  found : TokenResult
  error : TokenResult

abbrev pub is_alpha : ℕ → Bool
is_alpha x = (leb 0x61 x && leb x 0x7a) || (leb 0x41 x && leb x 0x5a)

abbrev pub is_digit : ℕ → Bool
is_digit x = leb 0x30 x && leb x 0x39

abbrev pub is_whitespace : ℕ → Bool
is_whitespace x = x == 0x20 || x == 0x9 || x == 0xa || x == 0xd

-- The test of the loop that reads an identifier.
abbrev pub is_word : ℕ → Bool
is_word x = is_alpha x || is_digit x || x == 0x5f

-- The loop `while (ptr < end && test(*ptr)) ptr++`: what it passes over, and what it stops at.
unfoldable pub run : (ℕ → Bool) → List ℕ → List ℕ
run test [] = []
run test (c ∷ cs) = let more = run test cs in if test c then c ∷ more else []

unfoldable pub past : (ℕ → Bool) → List ℕ → List ℕ
past test [] = []
past test (c ∷ cs) = let more = past test cs in if test c then more else c ∷ cs

-- What a call returns: the result code, the token as it is left, and the text from its `end` on.
pub record Scanned : Type 0 where
  pub rc : TokenResult
  pub token : Token
  pub rest : List ℕ

-- The tokens of one byte leave `start` and `end` behind it: their text is empty.
abbrev pub mark : TokenType → List ℕ → Scanned
mark t rest = record { rc = found; token = record { token_type = t; text = [] }; rest = rest }

-- The branches for a byte that is not blank.
unfoldable pub token_at : Token → ℕ → List ℕ → Scanned
token_at token c cs =
    if c == 0x2b
    then mark plus cs
    else (if c == 0x5b
        then mark lbracket cs
        else (if c == 0x5d
            then mark rbracket cs
            else (if c == 0x3d
                then mark equals cs
                else (if c == 0x28
                    then mark lparen cs
                    else (if c == 0x29
                        then mark rparen cs
                        else (if c == 0x2c
                            then mark comma cs
                            else (if is_alpha c
                                then record {
                                  rc = found;
                                  token = record {
                                    token_type = identifier;
                                    text = run is_word (c ∷ cs);
                                  };
                                  rest = past is_word (c ∷ cs);
                                }
                                else (if is_digit c
                                    then record {
                                      rc = found;
                                      token = record {
                                        token_type = digit;
                                        text = run is_digit (c ∷ cs);
                                      };
                                      rest = past is_digit (c ∷ cs);
                                    }
                                    else record { rc = error; token = token; rest = c ∷ cs }))))))))

-- The second argument is the token that the caller passes in.
unfoldable pub vec0_token_next : List ℕ → Token → Scanned
vec0_token_next [] token = record { rc = eof; token = token; rest = [] }
vec0_token_next (c ∷ cs) token =
    let later = vec0_token_next cs token in
    let here = token_at token c cs in if is_whitespace c then later else here

-- The scanner moves on only past a token.
abbrev pub moved : TokenResult → List ℕ → List ℕ → List ℕ
moved found from rest = rest
moved eof from rest = from
moved error from rest = from

unfoldable pub vec0_scanner_next : List ℕ → Token → Scanned
vec0_scanner_next from token =
    let s = vec0_token_next from token in record s { rest = moved s.rc from s.rest }
