-- ===== src/Examples/Paths.antt =====
-- Paths that are escaped, canonicalized, rendered and matched.
use mcpshim.Prelude.{
  ℕ, ◌≡◌, refl, true, List, [], ◌∷◌, Text, codes, All, ◌↔◌, ok, split, trim_space, has_byte,
  has_prefix, text_eq, arith, contains_any, join, has_suffix, map_results,
}
use mcpshim.Value.{str, Fields, field, end, natural, get, scalar_string}
use mcpshim.HttpBinding.Escape.{
  path_escape, path_unescape, escape_byte, hex_digit, is_hex, is_literal, unhex,
}
use mcpshim.HttpBinding.Escape.Laws.{IsByte}
use mcpshim.HttpBinding.Paths.{
  canonicalize_raw_path, path_segment_traverses, traverses_within, render_typed_path,
  valid_http_tool_path, is_dots, is_rooted, valid_tool_segment, argument_text, is_placeholder,
  leaves_segment, placeholder_name, render_segment, trim_prefix_byte, trim_suffix_byte,
}
use mcpshim.HttpBinding.Paths.Raw.{IsCanonical, canonicalize_raw_path-IsCanonical}
use mcpshim.HttpBinding.Paths.Typed.{IsRendered, render_typed_path-IsRendered}
use mcpshim.HttpBinding.Segments.{match_path_segments, globstar, star}
use mcpshim.HttpBinding.Segments.Matching.{Matches, match_path_segments_iff}

abbrev spaced_path : Text
spaced_path = codes " /v1/a%20b "

abbrev spaced_decoded : Text
spaced_decoded = codes "/v1/a b"

abbrev spaced_escaped : Text
spaced_escaped = codes "/v1/a%20b"

spaced_path-IsByte : All IsByte spaced_path
spaced_path-IsByte = ground arith

canonical_run : canonicalize_raw_path spaced_path ≡ ok (spaced_escaped, spaced_decoded)
unfolding canonicalize_raw_path is_rooted has_prefix trim_space contains_any path_unescape is_hex
    unhex split path_segment_traverses traverses_within is_dots join path_escape escape_byte
    is_literal hex_digit
canonical_run = refl

-- "/v1/%252e%252e/x" is refused: a segment of it unescapes to "..".
twice_escaped_run : path_segment_traverses (codes "%252e%252E") ≡ true
unfolding path_segment_traverses traverses_within is_dots path_unescape is_hex unhex
twice_escaped_run = refl

canonicalize_raw_path_example : IsCanonical spaced_path spaced_escaped spaced_decoded
canonicalize_raw_path_example =
    canonicalize_raw_path-IsCanonical spaced_path spaced_escaped spaced_decoded spaced_path-IsByte
      canonical_run

abbrev item_path : Text
item_path = codes "/items/{id}"

abbrev item_arguments : Fields ℕ
item_arguments = field (codes "id") (str (codes "a b")) end

item_path_valid : valid_http_tool_path item_path ≡ true
unfolding valid_http_tool_path is_rooted has_prefix contains_any split valid_tool_segment
    path_unescape path_segment_traverses traverses_within is_dots
item_path_valid = refl

item_run :
    render_typed_path natural item_path item_arguments
    ≡ ok (codes "/items/a%20b", codes "/items/a b")
unfolding render_typed_path map_results split is_placeholder has_prefix path_unescape has_suffix
    argument_text get text_eq placeholder_name scalar_string leaves_segment is_dots contains_any
    join path_escape escape_byte hex_digit is_hex is_literal unhex render_segment trim_prefix_byte
    trim_suffix_byte has_byte
item_run = refl

render_typed_path_example : IsRendered item_path (codes "/items/a%20b") (codes "/items/a b")
render_typed_path_example =
    render_typed_path-IsRendered natural item_path (codes "/items/a%20b") (codes "/items/a b")
      item_arguments item_path_valid item_run (ground arith)

abbrev some_pattern : List Text
some_pattern = codes "v1" ∷ globstar ∷ star ∷ []

abbrev some_candidate : List Text
some_candidate = codes "v1" ∷ codes "a" ∷ codes "b" ∷ []

match_path_segments_example :
    (match_path_segments some_pattern some_candidate ≡ true) ↔ Matches some_pattern some_candidate
match_path_segments_example = match_path_segments_iff some_pattern some_candidate
