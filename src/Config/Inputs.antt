-- ===== src/Config/Inputs.antt =====
-- validateHTTPInput and validateHTTPInputDefault of internal/config/http.go: the inputs that a
-- typed tool may declare.
pub mod Defaults
use mcpshim.Prelude.{
  ℕ, suc, zero, ◌+◌, Bool, true, false, not, ◌&&◌, ◌||◌, Option, none, some, List, [], ◌∷◌,
  if◌then◌else◌, Text, codes, text_eq, any, is_empty, is_one_of, is_some, Result, ok, err, guard,
  ◌>>=◌, ◌>>◌,
}
use mcpshim.Value.{
  Value, null, bool, num, str, arr, obj, Items, nil, cons, Fields, Numbers, is_null,
}
use mcpshim.Config.Types.{InputRule, HttpInput, plain, with_items, rule}

pub data DefaultError : Type 0 where
  must_be : Text → DefaultError
  not_in_enum below_minimum above_maximum : DefaultError
  at_item : ℕ → DefaultError → DefaultError

pub data InputError : Type 0 where
  unsupported_type : Text → InputError
  items_without_array minimum_exceeds_maximum bounds_without_number enum_without_string : InputError
  invalid_default : DefaultError → InputError

-- The outcome of a check of a default.
abbrev pub Defaulted : Type 0
Defaulted = Result DefaultError (Unit {0})

-- httpNumericValue
abbrev pub http_numeric_value : {N : Type 0} → Value N → Option N
http_numeric_value (num x) = some x
http_numeric_value _ = none

unfoldable pub contains_http_string : List Text → Text → Bool
contains_http_string [] target = false
contains_http_string (value ∷ values) target =
    let rest = contains_http_string values target in if text_eq value target then true else rest

-- The type switches of a default.
abbrev pub is_text : {N : Type 0} → Value N → Bool
is_text (str s) = true
is_text _ = false

abbrev pub is_boolean : {N : Type 0} → Value N → Bool
is_boolean (bool b) = true
is_boolean _ = false

abbrev pub is_map : {N : Type 0} → Value N → Bool
is_map (obj fs) = true
is_map _ = false

abbrev pub is_slice : {N : Type 0} → Value N → Bool
is_slice (arr xs) = true
is_slice _ = false

-- fmt.Errorf("item %d: %w", index, err)
abbrev pub wrap_item : ℕ → Defaulted → Defaulted
wrap_item index (ok u) = ok u
wrap_item index (err e) = err (at_item index e)

unfoldable pub default_elements : {N : Type 0} → (Value N → Defaulted) → ℕ → Items N → Defaulted
default_elements check index nil = ok tt
default_elements check index (cons v xs) =
    let rest = default_elements check (index + 1) xs in wrap_item index (check v) >> rest

abbrev pub supported_types : List Text
supported_types =
    []
    ∷ codes "string"
    ∷ codes "integer"
    ∷ codes "number"
    ∷ codes "boolean"
    ∷ codes "object"
    ∷ codes "array"
    ∷ []

module _ (n : Numbers) where
  abbrev pub is_http_integer : Value n.Num → Bool
  is_http_integer (num x) = n.integral x
  is_http_integer _ = false

  -- The variable `valid` after the switch.
  unfoldable pub is_of_type : Text → Value n.Num → Bool
  is_of_type kind v =
      if text_eq kind (codes "string")
      then is_text v
      else if text_eq kind (codes "integer")
      then is_http_integer v
      else if text_eq kind (codes "number")
      then is_some (http_numeric_value v)
      else if text_eq kind (codes "boolean")
      then is_boolean v
      else if text_eq kind (codes "object")
      then is_map v
      else if text_eq kind (codes "array")
      then is_slice v
      else true

  unfoldable pub is_in_enum : List Text → Value n.Num → Bool
  unfolding contains_http_string
  is_in_enum enum (str s) = is_empty enum || contains_http_string enum s
  is_in_enum enum _ = is_empty enum

  unfoldable pub is_at_least : Option n.Num → Option n.Num → Bool
  is_at_least (some minimum) (some number) = not (n.less number minimum)
  is_at_least _ _ = true

  unfoldable pub is_at_most : Option n.Num → Option n.Num → Bool
  is_at_most (some maximum) (some number) = not (n.less maximum number)
  is_at_most _ _ = true

  -- validateHTTPInputDefault, on what the loop over the elements of an array finds.
  unfoldable pub check_default : InputRule n.Num → Defaulted → Value n.Num → Defaulted
  unfolding is_of_type is_in_enum is_at_least is_at_most
  check_default r elements v =
      (if text_eq r.kind (codes "array") then elements else ok tt)
      >> guard (is_of_type r.kind v) (must_be r.kind)
      >> guard (is_in_enum r.enum v) not_in_enum
      >> guard (is_at_least r.minimum (http_numeric_value v)) below_minimum
      >> guard (is_at_most r.maximum (http_numeric_value v)) above_maximum

  unfoldable pub default_slice : (Value n.Num → Defaulted) → Value n.Num → Defaulted
  default_slice check (arr xs) = default_elements check 0 xs
  default_slice check _ = ok tt

  unfoldable pub validate_http_input_default : HttpInput n.Num → Value n.Num → Defaulted
  unfolding check_default default_slice default_elements
  validate_http_input_default (plain r) v = check_default r (ok tt) v
  validate_http_input_default (with_items r items) v =
      let elements = default_slice (validate_http_input_default items) v in
      check_default r elements v

  -- *input.Minimum > *input.Maximum
  abbrev pub exceeds_maximum : Option n.Num → Option n.Num → Bool
  exceeds_maximum (some low) (some high) = n.less high low
  exceeds_maximum _ _ = false

  -- The checks of validateHTTPInput behind those of the items.
  unfoldable pub check_bounds : InputRule n.Num → Result InputError (Unit {0})
  check_bounds r =
      let numeric = text_eq r.kind (codes "integer") || text_eq r.kind (codes "number") in
      guard (not (exceeds_maximum r.minimum r.maximum)) minimum_exceeds_maximum
      >> guard (not (is_some r.minimum || is_some r.maximum) || numeric) bounds_without_number
      >> guard (is_empty r.enum || is_empty r.kind || text_eq r.kind (codes "string"))
          enum_without_string

  -- if input.Default != nil
  unfoldable pub check_input_default : HttpInput n.Num → Result InputError (Unit {0})
  check_input_default input =
      if is_null (rule input).default
      then ok tt
      else elim (validate_http_input_default input (rule input).default) [
        | ok u ↦ ok u
        | err e ↦ err (invalid_default e)
      ]

  unfoldable pub validate_http_input : HttpInput n.Num → Result InputError (Unit {0})
  unfolding check_bounds
  validate_http_input (plain r) =
      guard (is_one_of supported_types r.kind) (unsupported_type r.kind)
      >> check_bounds r
      >> check_input_default (plain r)
  validate_http_input (with_items r items) =
      let nested = validate_http_input items in
      guard (is_one_of supported_types r.kind) (unsupported_type r.kind)
      >> (if text_eq r.kind (codes "array") then nested else err items_without_array)
      >> check_bounds r
      >> check_input_default (with_items r items)
