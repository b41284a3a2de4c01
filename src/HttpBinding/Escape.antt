-- ===== src/HttpBinding/Escape.antt =====
-- The escaping of a path segment: PathEscape and PathUnescape of net/url, on which
-- internal/httpbinding builds its paths.
pub mod Laws
use mcpshim.Prelude.{
  ℕ, ◌+◌, ◌-◌, ◌*◌, ◌/◌, ◌%◌, Bool, true, false, not, ◌&&◌, ◌||◌, Option, none, some, List, [], ◌∷◌,
  ◌++◌, leb, ltb, ◌==◌, if◌then◌else◌, Text, codes, has_byte,
}

-- shouldEscape for a path segment, negated
unfoldable pub is_literal : ℕ → Bool
unfolding has_byte
is_literal c =
    (leb b'a' c && leb c b'z')
    || (leb b'A' c && leb c b'Z')
    || (leb b'0' c && leb c b'9')
    || has_byte c (codes "-_.~$&+:=@")

unfoldable pub hex_digit : ℕ → ℕ
hex_digit n = if ltb n 10 then b'0' + n else b'A' + (n - 10)

unfoldable pub is_hex : ℕ → Bool
is_hex c = (leb b'0' c && leb c b'9') || (leb b'a' c && leb c b'f') || (leb b'A' c && leb c b'F')

unfoldable pub unhex : ℕ → ℕ
unhex c =
    if leb b'0' c && leb c b'9'
    then c - b'0'
    else if leb b'a' c && leb c b'f'
    then c - b'a' + 10
    else c - b'A' + 10

unfoldable pub escape_byte : ℕ → Text
escape_byte c = if is_literal c then c ∷ [] else b'%' ∷ hex_digit (c / 16) ∷ hex_digit (c % 16) ∷ []

-- url.PathEscape
unfoldable pub path_escape : Text → Text
path_escape [] = []
path_escape (c ∷ s) = escape_byte c ++ path_escape s

abbrev pub prepend : ℕ → Option Text → Option Text
prepend c none = none
prepend c (some s) = some (c ∷ s)

-- url.PathUnescape; `none` is its error.
unfoldable pub path_unescape : Text → Option Text
path_unescape [] = some []
path_unescape (c ∷ []) = if c == b'%' then none else some (c ∷ [])
path_unescape (c ∷ a ∷ []) =
    let rest = path_unescape (a ∷ []) in if c == b'%' then none else prepend c rest
path_unescape (c ∷ a ∷ b ∷ s) =
    let plain = path_unescape (a ∷ b ∷ s) in
    let rest = path_unescape s in
    if c == b'%'
    then (if is_hex a && is_hex b then prepend (unhex a * 16 + unhex b) rest else none)
    else prepend c plain
