-- ===== src/Client/Arguments/Passed.antt =====
-- The arguments behind a `--` in parseCallArgs of internal/client/client.go.
use mcpshim.Prelude.{
  ◌≡◌, refl, sym, ap, ◌∙◌, Bool, true, not, List, [], ◌∷◌, ◌++◌, all, Text, text_eq, ok, append-nil,
  arith,
}
use mcpshim.Client.Arguments.{CallArgs, dashes, read_argument, parse_call_from, parse_call_args}

-- The arguments before the `--` leave `st`; those behind it are added to its rest.
abbrev pub pass : List Text → CallArgs → CallArgs
pass more st = record st { rest = st.rest ++ more }

abbrev pub is_plain : Text → Bool
is_plain item = not (text_eq item dashes)

parse_dashes :
    (more : List Text) (st : CallArgs) → parse_call_from (dashes ∷ more) st ≡ ok (pass more st)
unfolding parse_call_from text_eq
parse_dashes [] st = sym (ap (λ rest. ok (record st { rest = rest })) (append-nil st.rest))
parse_dashes (value ∷ more) st = refl

parse_call_from-pass :
    (args more : List Text) (st : CallArgs) (after : CallArgs)
    → all args is_plain ≡ true
    → parse_call_from args st ≡ ok after
    → parse_call_from (args ++ (dashes ∷ more)) st ≡ ok (pass more after)
unfolding parse_call_from
parse_call_from-pass [] more st after plain h = parse_dashes more st ∙ ground arith
parse_call_from-pass (item ∷ []) more st after plain h =
    ground (arith, parse_dashes more (read_argument item st))
parse_call_from-pass (item ∷ value ∷ args) more st after plain h = ground (
  arith,
  parse_call_from-pass args more (record st { server = value }) after,
  parse_call_from-pass args more (record st { tool = value }) after,
  parse_call_from-pass (value ∷ args) more (read_argument item st) after,
)

-- What follows a `--` is no argument of the client's own: where the arguments before it hold no
-- other `--` and are accepted, the arguments with a `--` and any others behind them are accepted
-- too, with the others, as they are, at the end of the rest that runCall reads and nothing else
-- changed, even where they look like flags of the client.
pub parse_call_args-pass :
    (args more : List Text) (after : CallArgs)
    → all args is_plain ≡ true
    → parse_call_args args ≡ ok after
    → parse_call_args (args ++ (dashes ∷ more)) ≡ ok (pass more after)
unfolding parse_call_args
parse_call_args-pass args more after plain h = parse_call_from-pass args more _ after plain h
