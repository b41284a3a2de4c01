-- ===== src/Config/Expand.antt =====
-- internal/config/expand.go: the expansion of environment references in configuration values.
-- The environment is a function, os.LookupEnv. The loop over the index `i` is a recursion on the
-- rest of the text, on fuel, since a reference consumes several bytes at once.
pub mod Laws
pub mod Missing
use mcpshim.Prelude.{
  ℕ, zero, suc, ◌≡◌, refl, Bool, true, false, not, ◌&&◌, ◌||◌, Option, none, some, List, [], ◌∷◌,
  ◌++◌, leb, ◌==◌, if◌then◌else◌, length, is_empty, Text, codes,
}

-- os.LookupEnv
abbrev pub Env : Type 0
Env = Text → Option Text

-- What the loop has yet to write, and the variable `missing` when it ends.
abbrev pub Expansion : Type 0
Expansion = Text × Text

unfoldable pub is_var_start : ℕ → Bool
is_var_start c = c == b'_' || (leb b'a' c && leb c b'z') || (leb b'A' c && leb c b'Z')

unfoldable pub is_var_rune : ℕ → Bool
unfolding is_var_start
is_var_rune c = is_var_start c || (leb b'0' c && leb c b'9')

-- os.Getenv
unfoldable pub getenv : Env → Text → Text
getenv env name = elim (env name) [ none ↦ [] | some v ↦ v ]

-- The closure `lookup`: the value, and `missing` after the call.
unfoldable pub lookup_env : Env → Text → Text → Text × Text
lookup_env env name missing = elim (env name) [
  | none ↦ ([], if is_empty missing then name else missing)
  | some v ↦ (v, missing)
]

-- The text before the first byte `c`, and the text behind it.
unfoldable pub cut_byte : ℕ → Text → Option (Text × Text)
cut_byte c [] = none
cut_byte c (x ∷ s) =
    let rest = cut_byte c s in
    if x == c
    then some ([], s)
    else elim rest [ none ↦ none | some (before, after) ↦ some (x ∷ before, after) ]

-- strings.Index(spec, ":-"): the name and the fallback.
unfoldable pub cut_default : Text → Option (Text × Text)
cut_default [] = none
cut_default (x ∷ []) = none
cut_default (x ∷ y ∷ s) =
    let rest = cut_default (y ∷ s) in
    if x == b':' && y == b'-'
    then some ([], s)
    else elim rest [ none ↦ none | some (before, after) ↦ some (x ∷ before, after) ]

-- `for j < len(s) && isVarRune(s[j])`: the bytes passed over, and the rest.
unfoldable pub span_var : Text → Text × Text
unfolding is_var_rune
span_var [] = ([], [])
span_var (c ∷ s) =
    let (name, rest) = span_var s in if is_var_rune c then (c ∷ name, rest) else ([], c ∷ s)

unfoldable pub write : Text → Expansion → Expansion
write t (out, missing) = (t ++ out, missing)

-- The two branches of `${...}`; `rest` continues behind the closing brace.
unfoldable pub expand_spec : Env → (Text → Expansion) → Text → Text → Expansion
unfolding write lookup_env getenv cut_default
expand_spec env rest spec missing = elim (cut_default spec) [
  | none ↦ let (v, missing') = lookup_env env spec missing in write v (rest missing')
  | some (name, fallback) ↦
      let v = getenv env name in write (if is_empty v then fallback else v) (rest missing)
]

-- What follows a `$`; `continue` runs the loop on a rest of the text.
unfoldable pub expand_dollar : Env → (Text → Text → Expansion) → Text → Text → Expansion
unfolding expand_spec cut_byte is_var_start span_var
expand_dollar env continue [] missing = write (codes "$") (continue [] missing)
expand_dollar env continue (c ∷ s) missing =
    if c == b'$'
    then write (codes "$") (continue s missing)
    else if c == b'{'
    then elim (cut_byte b'}' s) [
      | none ↦ write (codes "$") (continue (c ∷ s) missing)
      | some (spec, after) ↦ expand_spec env (continue after) spec missing
    ]
    else if not (is_var_start c)
    then write (codes "$") (continue (c ∷ s) missing)
    else let (name, after) = span_var s in
      let (v, missing') = lookup_env env (c ∷ name) missing in write v (continue after missing')

-- `spent` is the result where text is left and the fuel is spent.
unfoldable pub expand_loop : Env → Expansion → ℕ → Text → Text → Expansion
unfolding expand_dollar
expand_loop env spent zero [] missing = ([], missing)
expand_loop env spent zero (c ∷ s) missing = spent
expand_loop env spent (suc fuel) [] missing = ([], missing)
expand_loop env spent (suc fuel) (c ∷ s) missing =
    let plain = write (c ∷ []) (expand_loop env spent fuel s missing) in
    let dollar = expand_dollar env (expand_loop env spent fuel) s missing in
    if not (c == b'$') then plain else dollar

-- Each round consumes a byte, so the length is fuel enough, and what stands for spent fuel does not
-- matter (Expand/Laws).
unfoldable pub expand_env_strict : Env → Text → Expansion
unfolding expand_loop
expand_env_strict env s = expand_loop env ([], []) (length s) s []

unfoldable pub expand_env : Env → Text → Text
unfolding expand_env_strict
expand_env env s = (expand_env_strict env s).0
