-- ===== src/HttpBinding/Segments.antt =====
-- matchPathSegments, splitPathSegments and matchesAnyPath of internal/httpbinding/httpbinding.go:
-- the path patterns that a raw tool allows. `*` stands for one segment, `**` for any number.
pub mod Matching
use mcpshim.Prelude.{
  Bool, true, false, not, ◌&&◌, ◌||◌, ◌==◌, List, [], ◌∷◌, Text, codes, text_eq, is_empty, any,
  trim_both, split, if◌then◌else◌,
}

abbrev pub star : Text
star = codes "*"

abbrev pub globstar : Text
globstar = codes "**"

unfoldable pub match_path_segments : List Text → List Text → Bool
match_path_segments [] [] = true
match_path_segments [] (c ∷ cs) = false
match_path_segments (p ∷ ps) [] = text_eq p globstar && match_path_segments ps []
match_path_segments (p ∷ ps) (c ∷ cs) =
    let here = match_path_segments ps (c ∷ cs) in
    let later = match_path_segments (p ∷ ps) cs in
    let next = match_path_segments ps cs in
    if text_eq p globstar
    then here || later
    else if not (text_eq p star) && not (text_eq p c)
    then false
    else next

unfoldable pub split_path_segments : Text → List Text
split_path_segments value =
    let trimmed = trim_both (λ c. c == b'/') value in
    if is_empty trimmed then [] else split b'/' trimmed

unfoldable pub matches_any_path : List Text → Text → Bool
matches_any_path patterns candidate =
    let segments = split_path_segments candidate in
    any patterns (λ p. match_path_segments (split_path_segments p) segments)
