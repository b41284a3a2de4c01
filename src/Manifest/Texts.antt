-- ===== src/Manifest/Texts.antt =====
-- The texts of a manifest: summarize, oneLine, optionals, joinBackticked, sortedKeys and shellSafe
-- of internal/manifest/manifest.go.
pub mod Bounds
use mcpshim.Prelude.{
  ℕ, Bool, true, false, not, ◌&&◌, ◌||◌, List, [], ◌∷◌, ◌++◌, map, if◌then◌else◌, is_empty, keep,
  take, length, ltb, Text, codes, trim_space, split, has_prefix, contains_any, is_one_of, text_less,
  ◌==◌,
}
use mathlib.Core.List.{reverse}

-- The em dash, the middle dot, the warning sign and the ellipsis, in UTF-8.
abbrev pub dash : Text
dash = 226 ∷ 128 ∷ 148 ∷ []

abbrev pub dot : Text
dot = 194 ∷ 183 ∷ []

abbrev pub warning : Text
warning = 226 ∷ 154 ∷ 160 ∷ []

abbrev pub ellipsis : Text
ellipsis = 226 ∷ 128 ∷ 166 ∷ []

abbrev pub shorten : ℕ → ℕ → Text → Text
shorten max kept s = if ltb max (length s) then take kept s ++ ellipsis else s

-- The loop of summarize.
unfoldable pub summary_of : List Text → Text
unfolding trim_space has_prefix
summary_of [] = []
summary_of (raw ∷ lines) =
    let line = trim_space raw in
    let rest = summary_of lines in
    if is_empty line || has_prefix line (codes "<") || has_prefix line (codes "{")
    then rest
    else shorten 140 137 line

unfoldable pub summarize : Text → Text
unfolding summary_of trim_space split
summarize desc =
    let trimmed = trim_space desc in
    let summary = summary_of (split 10 trimmed) in if is_empty trimmed then [] else summary

unfoldable pub one_line : Text → Text
one_line s = shorten 200 197 (map (λ c. if c == 10 then b' ' else c) s)

unfoldable pub optionals : List Text → List Text → List Text
unfolding is_one_of
optionals all required = keep (λ p. not (is_one_of required p)) all

abbrev pub backticked : Text → Text
backticked it = codes "`" ++ it ++ codes "`"

unfoldable pub join_backticked : List Text → Text
join_backticked [] = []
join_backticked (it ∷ []) = backticked it
join_backticked (it ∷ next ∷ items) = backticked it ++ codes ", " ++ join_backticked (next ∷ items)

-- The inner loop of sortedKeys, on the keys before the new one, the last first.
unfoldable pub sift : Text → List Text → List Text
unfolding text_less
sift k [] = k ∷ []
sift k (j ∷ before) = let rest = sift k before in if text_less k j then j ∷ rest else k ∷ j ∷ before

unfoldable pub sorted_from : List Text → List Text → List Text
unfolding sift
sorted_from before [] = reverse before
sorted_from before (k ∷ ks) = sorted_from (sift k before) ks

unfoldable pub sorted_keys : List Text → List Text
unfolding sorted_from
sorted_keys keys = sorted_from [] keys

unfoldable pub escape_double : Text → Text
escape_double [] = []
escape_double (c ∷ s) =
    let rest = escape_double s in if c == b'"' then b'\\' ∷ b'"' ∷ rest else c ∷ rest

unfoldable pub shell_safe : Text → Text
unfolding contains_any escape_double
shell_safe s =
    if contains_any s (codes " \t\"'$&|;<>") then codes "\"" ++ escape_double s ++ codes "\"" else s
