-- ===== src/Client/Arguments.antt =====
-- How internal/client/client.go reads the arguments of a call.
pub mod Passed
pub mod Flags
use mcpshim.Prelude.{
  ℕ, Bool, true, false, not, ◌&&◌, ◌||◌, Option, none, some, List, [], ◌∷◌, ◌++◌, ◌==◌,
  if◌then◌else◌, is_empty, Text, codes, text_eq, is_one_of, has_byte, has_prefix, trim_space, Map,
  lookup, insert, Result, ok, err, guard, ◌>>=◌, is_some,
}
use mcpshim.Value.{Value, null, bool, num, str, Fields, end, field, get, put}
use mcpshim.HttpBinding.Listing.{PropertyDetail}

-- The results of parseCallArgs.
pub record CallArgs : Type 0 where
  pub server : Text
  pub tool : Text
  pub rest : List Text
  pub help : Bool
  pub parse_text_json : Bool

pub data CallArgsError : Type 0 where
  missing_server missing_tool : CallArgsError

-- strings.TrimPrefix(s, prefix), where the prefix is there
unfoldable pub drop_prefix : Text → Text → Text
drop_prefix s [] = s
drop_prefix [] (p ∷ ps) = []
drop_prefix (c ∷ s) (p ∷ ps) = drop_prefix s ps

abbrev pub dashes : Text
dashes = codes "--"

-- The cases of the switch that read one argument.
unfoldable pub read_argument : Text → CallArgs → CallArgs
unfolding drop_prefix
read_argument item st =
    if is_one_of (codes "--help" ∷ codes "-h" ∷ []) item
    then record st { help = true }
    else if is_one_of (codes "--json" ∷ codes "--json=true" ∷ []) item
    then record st { parse_text_json = true }
    else if text_eq item (codes "--json=false")
    then record st { parse_text_json = false }
    else if has_prefix item (codes "--server=")
    then record st { server = drop_prefix item (codes "--server=") }
    else if has_prefix item (codes "--tool=")
    then record st { tool = drop_prefix item (codes "--tool=") }
    else record st { rest = st.rest ++ (item ∷ []) }

-- The loop of parseCallArgs up to a `--`; what follows that is passed through.
unfoldable pub parse_call_from : List Text → CallArgs → Result CallArgsError CallArgs
unfolding read_argument
parse_call_from [] st = ok st
parse_call_from (item ∷ []) st =
    if text_eq item dashes
    then ok st
    else if text_eq item (codes "--server")
    then err missing_server
    else if text_eq item (codes "--tool")
    then err missing_tool
    else ok (read_argument item st)
parse_call_from (item ∷ value ∷ args) st =
    let from_value = parse_call_from (value ∷ args) (read_argument item st) in
    let with_server = parse_call_from args (record st { server = value }) in
    let with_tool = parse_call_from args (record st { tool = value }) in
    if text_eq item dashes
    then ok (record st { rest = st.rest ++ (value ∷ args) })
    else if text_eq item (codes "--server")
    then with_server
    else if text_eq item (codes "--tool")
    then with_tool
    else from_value

unfoldable pub parse_call_args : List Text → Result CallArgsError CallArgs
unfolding parse_call_from
parse_call_args args =
    parse_call_from args
      (record { server = []; tool = []; rest = []; help = false; parse_text_json = false })

-- The first of `rest`, for a server or a tool that no flag names.
unfoldable pub take_server : CallArgs → CallArgs
take_server st = elim st.rest [
  | [] ↦ st
  | first ∷ others ↦ if is_empty st.server then record st { server = first; rest = others } else st
]

unfoldable pub take_tool : CallArgs → CallArgs
take_tool st = elim st.rest [
  | [] ↦ st
  | first ∷ others ↦ if is_empty st.tool then record st { tool = first; rest = others } else st
]

-- The server and the tool of runCall; `none` prints the usage.
unfoldable pub call_target : CallArgs → Option CallArgs
unfolding take_server take_tool
call_target st =
    let named = take_tool (take_server st) in
    if is_empty named.server || is_empty named.tool then none else some named

-- stripHelpFlags
unfoldable pub strip_help_flags : List Text → List Text × Bool
strip_help_flags [] = ([], false)
strip_help_flags (item ∷ args) =
    let (clean, help) = strip_help_flags args in
    if is_one_of (codes "--help" ∷ codes "-h" ∷ []) item
    then (clean, true)
    else (item ∷ clean, help)

-- json.Unmarshal, strconv.ParseInt in base 10, strconv.ParseFloat, and strings.EqualFold.
pub record Literals (N : Type 0) : Type 0 where
  pub unmarshal : Text → Option (Value N)
  pub parse_int : Text → Option N
  pub parse_float : Text → Option N
  pub equal_fold : Text → Text → Bool

-- The index of the first `=`: the texts before and behind it.
unfoldable pub split_equals : Text → Option (Text × Text)
split_equals [] = none
split_equals (c ∷ s) =
    let rest = split_equals s in
    if c == b'='
    then some ([], s)
    else elim rest [ none ↦ none | some (key, value) ↦ some (c ∷ key, value) ]

-- headerArgs.Set; `none` is an error.
unfoldable pub set_header : Text → Map Text → Option (Map Text)
unfolding split_equals
set_header value headers = elim (split_equals value) [
  | none ↦ none
  | some (key, v) ↦
      if is_empty (trim_space key)
      then none
      else some (insert (trim_space key) (trim_space v) headers)
]

-- The map `types`; a name that is missing has no type.
unfoldable pub property_types : List PropertyDetail → Map Text → Map Text
property_types [] types = types
property_types (property ∷ properties) types =
    property_types properties (insert property.name property.kind types)

abbrev pub type_of : Map Text → Text → Text
type_of types name = elim (lookup name types) [ none ↦ [] | some kind ↦ kind ]

module _ {N : Type 0} (literals : Literals N) where
  -- The tests of normalizeAs for a number, and the text itself.
  unfoldable pub normalize_number : Text → Text → Value N
  normalize_number v kind =
      let float : Value N = elim (literals.parse_float v) [
        | none ↦ str v
        | some x ↦ if is_empty kind || text_eq kind (codes "number") then num x else str v
      ] in
      elim (literals.parse_int v) [
        | none ↦ float
        | some i ↦ if is_empty kind || text_eq kind (codes "integer") then num i else float
      ]

  -- The tests for `true` and `false`.
  unfoldable pub normalize_scalar : Text → Text → Value N
  unfolding normalize_number
  normalize_scalar v kind =
      let trimmed = trim_space v in
      let is_boolean = is_empty kind || text_eq kind (codes "boolean") in
      if is_boolean && literals.equal_fold trimmed (codes "true")
      then bool true
      else if is_boolean && literals.equal_fold trimmed (codes "false")
      then bool false
      else normalize_number v kind

  unfoldable pub normalize_as : Text → Text → Value N
  unfolding normalize_scalar
  normalize_as v kind =
      let trimmed = trim_space v in
      if text_eq kind (codes "string")
      then str v
      else if text_eq trimmed (codes "null")
      then null
      else if has_prefix trimmed (codes "{") || has_prefix trimmed (codes "[")
      then (elim (literals.unmarshal trimmed) [
        | some structured ↦ structured
        | none ↦ normalize_scalar v kind
      ])
      else normalize_scalar v kind

  -- The loop of parseDynamicArgsForProperties.
  unfoldable pub parse_dynamic : Map Text → List Text → Fields N → Fields N
  unfolding normalize_as drop_prefix split_equals
  parse_dynamic types [] out = out
  parse_dynamic types (item ∷ []) out =
      let key = drop_prefix item dashes in
      if not (has_prefix item dashes) then out else elim (split_equals key) [
        | some (name, value) ↦ put name (normalize_as value (type_of types name)) out
        | none ↦ put key (bool true) out
      ]
  parse_dynamic types (item ∷ value ∷ args) out =
      let key = drop_prefix item dashes in
      let skipped = λ (given : Fields N). parse_dynamic types (value ∷ args) given in
      let consumed = λ (given : Fields N). parse_dynamic types args given in
      if not (has_prefix item dashes) then skipped out else elim (split_equals key) [
        | some (name, v) ↦ skipped (put name (normalize_as v (type_of types name)) out)
        | none ↦
            if not (has_prefix value dashes)
            then consumed (put key (normalize_as value (type_of types key)) out)
            else skipped (put key (bool true) out)
      ]

  unfoldable pub parse_dynamic_args : List Text → List PropertyDetail → Fields N
  unfolding parse_dynamic property_types
  parse_dynamic_args args properties = parse_dynamic (property_types properties []) args end

-- The required properties that runCall misses.
unfoldable pub missing_arguments : {N : Type 0} → List PropertyDetail → Fields N → List Text
missing_arguments [] args = []
missing_arguments (property ∷ properties) args =
    let rest = missing_arguments properties args in
    if property.required && not (is_some (get property.name args))
    then property.name ∷ rest
    else rest
