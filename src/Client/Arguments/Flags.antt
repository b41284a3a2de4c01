-- ===== src/Client/Arguments/Flags.antt =====
-- Flags of the form `--name=value` in parseDynamicArgsForProperties of internal/client/client.go.
use mcpshim.Prelude.{
  ◌≡◌, refl, ap, ◌∙◌, true, false, some, List, [], ◌∷◌, ◌++◌, map, Text, codes, text_eq, has_byte,
  has_prefix, Map, All, arith,
}
use mcpshim.Value.{str, Fields, put}
use mcpshim.Client.Arguments.{dashes, split_equals, Literals, type_of, normalize_as, parse_dynamic}

abbrev pub flag : Text × Text → Text
flag (name, value) = dashes ++ (name ++ (b'=' ∷ value))

split_equals-flag :
    (name value : Text)
    → has_byte b'=' name ≡ false
    → split_equals (name ++ (b'=' ∷ value)) ≡ some (name, value)
unfolding split_equals has_byte
split_equals-flag [] value h = refl
split_equals-flag (c ∷ name) value h = ground (arith, split_equals-flag name value)

has_prefix-flag : (name value : Text) → has_prefix (flag (name, value)) dashes ≡ true
unfolding has_prefix
has_prefix-flag name value = refl

abbrev pub put_all : {N : Type 0} → Map Text → Fields N → Fields N
put_all [] out = out
put_all ((name, value) ∷ given) out = put_all given (put name (str value) out)

-- A name of a property of type string.
abbrev pub IsStringFlag : Map Text → Text × Text → Type 0
IsStringFlag types (name, value) =
    (has_byte b'=' name ≡ false) × (type_of types name ≡ codes "string")

module _ {N : Type 0} (literals : Literals N) where
  normalize_as-string : (v : Text) → normalize_as literals v (codes "string") ≡ str v
  unfolding normalize_as text_eq
  normalize_as-string v = refl

  string_value :
      (types : Map Text) (name value : Text)
      → type_of types name ≡ codes "string"
      → normalize_as literals value (type_of types name) ≡ str value
  string_value types name value kind =
      ap (normalize_as literals value) kind ∙ normalize_as-string value

  one_flag :
      (types : Map Text) (name value : Text) (args : List Text) (out : Fields N)
      → IsStringFlag types (name, value)
      → parse_dynamic literals types (flag (name, value) ∷ args) out
        ≡ parse_dynamic literals types args (put name (str value) out)
  unfolding parse_dynamic
  one_flag types name value [] out (plain, kind) =
      rw (split_equals-flag name value plain, parse_dynamic)
        (rw (has_prefix-flag name value, string_value types name value kind) refl)
  one_flag types name value (next ∷ args) out (plain, kind) =
      rw (split_equals-flag name value plain, parse_dynamic)
        (rw (has_prefix-flag name value, string_value types name value kind) refl)

  -- Where all arguments are of the form `--name=value`, with names that hold no `=` and are those
  -- of properties of type string, the tool's arguments get each value byte for byte, the last one
  -- of a name where there are several. Nothing is said of `--name value`.
  pub parse_dynamic-flags :
      (types : Map Text) (given : Map Text) (out : Fields N)
      → All (IsStringFlag types) given
      → parse_dynamic literals types (map flag given) out ≡ put_all given out
  unfolding parse_dynamic
  parse_dynamic-flags types [] out h = refl
  parse_dynamic-flags types ((name, value) ∷ given) out h =
      one_flag types name value (map flag given) out h.0
      ∙ parse_dynamic-flags types given (put name (str value) out) h.1
