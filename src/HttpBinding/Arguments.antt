-- ===== src/HttpBinding/Arguments.antt =====
-- validateTypedArguments and validateInputValue of internal/httpbinding/httpbinding.go: the
-- arguments of a typed tool against its inputs.
pub mod Effective
pub mod Rendering
use mcpshim.Prelude.{
  ℕ, suc, zero, ◌+◌, Bool, true, false, not, ◌&&◌, ◌||◌, Option, none, some, List, [], ◌∷◌,
  if◌then◌else◌, Text, codes, text_eq, any, is_empty, Map, lookup, is_some, Result, ok, err, guard,
  ◌>>=◌, ◌>>◌,
}
use mcpshim.Value.{
  Value, null, bool, num, str, arr, obj, Items, nil, cons, Fields, end, field, Numbers, get, put,
  is_null,
}
use mcpshim.Config.Types.{InputRule, HttpInput, plain, with_items, rule, HttpTool}

pub data ArgumentError : Type 0 where
  unknown_argument missing_required : Text → ArgumentError
  must_be : Text → ArgumentError
  not_in_enum below_minimum above_maximum : ArgumentError
  at_argument : Text → ArgumentError → ArgumentError
  at_item : ℕ → ArgumentError → ArgumentError

abbrev pub Checked : Type 0
Checked = Result ArgumentError (Unit {0})

abbrev pub at_place : (ArgumentError → ArgumentError) → Checked → Checked
at_place f (ok u) = ok u
at_place f (err e) = err (f e)

-- containsString
unfoldable pub contains_string : List Text → Text → Bool
contains_string values target = any values (λ v. text_eq v target)

-- The type switches `value.(T)`.
abbrev pub is_str : {N : Type 0} → Value N → Bool
is_str (str s) = true
is_str _ = false

abbrev pub is_bool : {N : Type 0} → Value N → Bool
is_bool (bool b) = true
is_bool _ = false

abbrev pub is_obj : {N : Type 0} → Value N → Bool
is_obj (obj fs) = true
is_obj _ = false

abbrev pub is_arr : {N : Type 0} → Value N → Bool
is_arr (arr xs) = true
is_arr _ = false

-- numericValue
abbrev pub numeric_value : {N : Type 0} → Value N → Option N
numeric_value (num x) = some x
numeric_value _ = none

-- The loop over the elements of a slice, whatever checks one.
unfoldable pub check_elements : {N : Type 0} → (Value N → Checked) → ℕ → Items N → Checked
check_elements check index nil = ok tt
check_elements check index (cons v xs) =
    let rest = check_elements check (index + 1) xs in at_place (at_item index) (check v) >> rest

module _ (n : Numbers) where
  -- isInteger
  abbrev pub is_integer : Value n.Num → Bool
  is_integer (num x) = n.integral x
  is_integer _ = false

  -- The switch over input.Type.
  unfoldable pub has_kind : Text → Value n.Num → Bool
  has_kind kind v =
      if text_eq kind (codes "string")
      then is_str v
      else if text_eq kind (codes "boolean")
      then is_bool v
      else if text_eq kind (codes "integer")
      then is_integer v
      else if text_eq kind (codes "number")
      then is_some (numeric_value v)
      else if text_eq kind (codes "object")
      then is_obj v
      else if text_eq kind (codes "array")
      then is_arr v
      else true

  unfoldable pub in_enum : List Text → Value n.Num → Bool
  unfolding contains_string
  in_enum enum (str s) = is_empty enum || contains_string enum s
  in_enum enum _ = is_empty enum

  unfoldable pub above_min : Option n.Num → Option n.Num → Bool
  above_min (some low) (some x) = not (n.less x low)
  above_min _ _ = true

  unfoldable pub below_max : Option n.Num → Option n.Num → Bool
  below_max (some high) (some x) = not (n.less high x)
  below_max _ _ = true

  -- What validateInputValue checks of a value that is not nil, the elements of a slice first.
  unfoldable pub check_rule : InputRule n.Num → Checked → Value n.Num → Checked
  unfolding has_kind in_enum above_min below_max
  check_rule r elements v =
      (if text_eq r.kind (codes "array") then elements else ok tt)
      >> guard (has_kind r.kind v) (must_be r.kind)
      >> guard (in_enum r.enum v) not_in_enum
      >> guard (above_min r.minimum (numeric_value v)) below_minimum
      >> guard (below_max r.maximum (numeric_value v)) above_maximum

  unfoldable pub check_null : InputRule n.Num → Checked
  check_null r = guard (is_empty r.kind) (must_be r.kind)

  -- The elements of a value that is a slice.
  unfoldable pub check_if_slice : (Value n.Num → Checked) → Value n.Num → Checked
  check_if_slice check (arr xs) = check_elements check 0 xs
  check_if_slice check _ = ok tt

  unfoldable pub validate_input_value : HttpInput n.Num → Value n.Num → Checked
  unfolding check_rule check_null check_if_slice check_elements
  validate_input_value (plain r) v = if is_null v then check_null r else check_rule r (ok tt) v
  validate_input_value (with_items r items) v =
      let elements = check_if_slice (validate_input_value items) v in
      if is_null v then check_null r else check_rule r elements v

  -- The first loop: every argument names an input.
  unfoldable pub check_known : Map (HttpInput n.Num) → Fields n.Num → Checked
  check_known inputs end = ok tt
  check_known inputs (field name v fs) =
      let rest = check_known inputs fs in
      guard (is_some (lookup name inputs)) (unknown_argument name) >> rest

  abbrev pub Effective : Type 0
  Effective = Result ArgumentError (Fields n.Num)

  -- One round of the second loop, on the argument that `effective` holds for the input.
  unfoldable pub fill_input :
      Text → HttpInput n.Num → Option (Value n.Num) → Fields n.Num → Effective
  fill_input name input (some v) effective =
      at_place (at_argument name) (validate_input_value input v) >> ok effective
  fill_input name input none effective =
      if not (is_null (rule input).default)
      then at_place (at_argument name) (validate_input_value input (rule input).default)
        >> ok (put name (rule input).default effective)
      else if (rule input).required
      then err (missing_required name)
      else ok effective

  unfoldable pub fill_inputs : Map (HttpInput n.Num) → Fields n.Num → Effective
  fill_inputs [] effective = ok effective
  fill_inputs ((name, input) ∷ inputs) effective =
      fill_input name input (get name effective) effective >>= λ e. fill_inputs inputs e

  unfoldable pub validate_typed_arguments : HttpTool n.Num → Fields n.Num → Effective
  unfolding check_known
  validate_typed_arguments tool args = check_known tool.inputs args >> fill_inputs tool.inputs args
