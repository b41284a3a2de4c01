-- ===== src/HttpBinding/Format.antt =====
-- The `$format` texts of templates: the matches of the pattern \{([A-Za-z_][A-Za-z0-9_-]*)\} in a
-- text, which internal/httpbinding/template.go and internal/config/http.go both search, and the
-- pattern of argument names in internal/config/http.go.
use mcpshim.Prelude.{
  ℕ, zero, suc, Bool, false, ◌&&◌, ◌||◌, Option, none, some, List, [], ◌∷◌, leb, ◌==◌,
  if◌then◌else◌, length, all, Text,
}

unfoldable pub is_name_start : ℕ → Bool
is_name_start c = (leb b'A' c && leb c b'Z') || (leb b'a' c && leb c b'z') || c == b'_'

unfoldable pub is_name_byte : ℕ → Bool
unfolding is_name_start
is_name_byte c = is_name_start c || (leb b'0' c && leb c b'9') || c == b'-'

-- httpTemplateArgumentPattern
unfoldable pub is_argument_name : Text → Bool
unfolding is_name_byte
is_argument_name [] = false
is_argument_name (c ∷ s) = is_name_start c && all s is_name_byte

-- A byte outside every match, or the name of a match.
pub data Piece : Type 0 where
  byte : ℕ → Piece
  argument : Text → Piece

-- The name up to the closing brace, and the text behind it.
unfoldable pub match_name : Text → Option (Text × Text)
unfolding is_name_byte
match_name [] = none
match_name (c ∷ s) =
    let rest = match_name s in
    if c == b'}'
    then some ([], s)
    else if is_name_byte c
    then elim rest [ none ↦ none | some (name, after) ↦ some (c ∷ name, after) ]
    else none

-- A match at a `{`, on the text behind it.
unfoldable pub match_argument : Text → Option (Text × Text)
unfolding match_name is_name_start
match_argument [] = none
match_argument (c ∷ s) = if is_name_start c then match_name (c ∷ s) else none

-- The pieces of a text, leftmost match first; a match consumes several bytes, so the recursion is
-- on fuel, and each round consumes at least one byte.
unfoldable pub pieces_within : ℕ → Text → List Piece
unfolding match_argument
pieces_within zero s = []
pieces_within (suc fuel) [] = []
pieces_within (suc fuel) (c ∷ s) =
    let plain = byte c ∷ pieces_within fuel s in
    elim (match_argument s) [
      | none ↦ plain
      | some (name, after) ↦
          let matched = argument name ∷ pieces_within fuel after in
          if c == b'{' then matched else plain
    ]

unfoldable pub pieces : Text → List Piece
unfolding pieces_within
pieces s = pieces_within (length s) s
