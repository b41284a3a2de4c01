-- ===== src/HttpBinding/Paths.antt =====
-- The request paths of internal/httpbinding/httpbinding.go: the path that a caller gives to a raw
-- tool, and the path template of a typed tool; with the configured paths that
-- internal/config/http.go accepts.
pub mod Segmented
pub mod Raw
pub mod Typed
use mathlib.Core.List.{reverse}
use mcpshim.Prelude.{
  ℕ, zero, suc, Bool, true, false, not, ◌&&◌, ◌||◌, Option, none, some, List, [], ◌∷◌, map,
  if◌then◌else◌, Text, codes, text_eq, any, all, is_empty, has_prefix, has_suffix, has_byte,
  contains_any, trim_space, split, join, Result, ok, err, guard, ◌>>=◌, ◌>>◌, map_results,
}
use mcpshim.HttpBinding.Escape.{path_escape, path_unescape}
use mcpshim.HttpBinding.Segments.{star, globstar}
use mcpshim.Value.{Value, Fields, Numbers, get, scalar_string}

pub data PathError : Type 0 where
  not_absolute undecodable backslash cross_origin traversal : PathError
  missing_argument not_scalar empty_argument not_one_segment invalid_segment : Text → PathError

unfoldable pub is_dots : Text → Bool
unfolding text_eq
is_dots s = text_eq s (codes ".") || text_eq s (codes "..")

-- `for depth := 0; depth < 4; depth++`, with the rounds left
unfoldable pub traverses_within : ℕ → Text → Bool
traverses_within zero segment = is_dots segment
traverses_within (suc rounds) segment = elim (is_dots segment) [
  | true ↦ true
  | false ↦ elim (path_unescape segment) [
    | none ↦ false
    | some decoded ↦
        let deeper = traverses_within rounds decoded in
        if text_eq decoded segment then false else deeper
  ]
]

unfoldable pub path_segment_traverses : Text → Bool
path_segment_traverses segment = traverses_within 4 segment

-- "?#\\"
abbrev pub url_marks : Text
url_marks = codes "?#\\"

unfoldable pub is_rooted : Text → Bool
is_rooted value =
    has_prefix value (codes "/")
    && not (has_prefix value (codes "//"))
    && not (contains_any value url_marks)

-- The escaped and the decoded path.
unfoldable pub canonicalize_trimmed : Text → Result PathError (Text × Text)
canonicalize_trimmed value = do
  guard (is_rooted value) not_absolute
  decoded ← elim (path_unescape value) [ none ↦ err undecodable | some d ↦ ok d ]
  guard (not (has_byte b'\\' decoded)) backslash
  guard (not (has_prefix decoded (codes "//"))) cross_origin
  guard (not (any (split b'/' decoded) path_segment_traverses)) traversal
  ok (join b'/' (map path_escape (split b'/' decoded)), decoded)

unfoldable pub canonicalize_raw_path : Text → Result PathError (Text × Text)
unfolding canonicalize_trimmed
canonicalize_raw_path value = canonicalize_trimmed (trim_space value)

unfoldable pub trim_prefix_byte : ℕ → Text → Text
trim_prefix_byte c [] = []
trim_prefix_byte c (x ∷ s) = if has_prefix (x ∷ s) (c ∷ []) then s else x ∷ s

unfoldable pub trim_suffix_byte : ℕ → Text → Text
unfolding trim_prefix_byte
trim_suffix_byte c s = reverse (trim_prefix_byte c (reverse s))

unfoldable pub is_placeholder : Text → Bool
is_placeholder segment = has_prefix segment (codes "{") && has_suffix segment (codes "}")

unfoldable pub placeholder_name : Text → Text
unfolding trim_suffix_byte
placeholder_name segment = trim_suffix_byte b'}' (trim_prefix_byte b'{' segment)

-- What a path argument may not be: it fills one segment.
unfoldable pub leaves_segment : Text → Bool
leaves_segment text = is_dots text || contains_any text (codes "/\\")

module _ (n : Numbers) where
  unfoldable pub argument_text : Text → Option (Value n.Num) → Result PathError Text
  argument_text name none = err (missing_argument name)
  argument_text name (some value) = elim (scalar_string n value) [
    | none ↦ err (not_scalar name)
    | some text ↦
        if is_empty text
        then err (empty_argument name)
        else if leaves_segment text
        then err (not_one_segment name)
        else ok text
  ]

  -- One round of the loop over the segments: the decoded segment.
  unfoldable pub render_segment : Fields n.Num → Text → Result PathError Text
  render_segment args segment =
      if is_placeholder segment
      then argument_text (placeholder_name segment) (get (placeholder_name segment) args)
      else elim (path_unescape segment) [
        | none ↦ err (invalid_segment segment)
        | some unescaped ↦ ok unescaped
      ]

  unfoldable pub render_typed_path : Text → Fields n.Num → Result PathError (Text × Text)
  unfolding render_segment
  render_typed_path template args = do
    decoded ← map_results (render_segment args) (split b'/' template)
    ok (join b'/' (map path_escape decoded), join b'/' decoded)

-- validHTTPToolPath of internal/config/http.go
unfoldable pub valid_tool_segment : Text → Bool
valid_tool_segment segment = elim (path_unescape segment) [
  | none ↦ false
  | some decoded ↦ not (contains_any decoded (codes "/\\") || path_segment_traverses segment)
]

unfoldable pub valid_http_tool_path : Text → Bool
valid_http_tool_path value = is_rooted value && all (split b'/' value) valid_tool_segment

-- validHTTPPathPattern of internal/config/http.go
unfoldable pub valid_pattern_segment : Text → Bool
valid_pattern_segment segment =
    not (path_segment_traverses segment)
    && (not (has_byte b'*' segment) || text_eq segment star || text_eq segment globstar)

unfoldable pub valid_http_path_pattern : Text → Bool
valid_http_path_pattern pattern =
    is_rooted pattern && all (split b'/' pattern) valid_pattern_segment
