-- ===== src/Config/Inputs/Defaults.antt =====
-- The defaults that internal/config/http.go accepts, as arguments of internal/httpbinding.
use mcpshim.Prelude.{
  ℕ, ◌+◌, ◌≡◌, refl, true, false, Option, none, some, List, [], ◌∷◌, if◌then◌else◌, Text, codes,
  text_eq_iff, is_one_of, ok, arith,
}
use mcpshim.Value.{Value, null, bool, num, str, arr, obj, Items, nil, cons, Numbers, is_null}
use mcpshim.Config.Types.{InputRule, HttpInput, plain, with_items, rule}
use mcpshim.Config.Inputs.{
  Defaulted, http_numeric_value, contains_http_string, is_of_type, is_in_enum, is_at_least,
  is_at_most, check_default, default_elements, default_slice, validate_http_input_default,
  supported_types, check_input_default, validate_http_input,
}
use mcpshim.HttpBinding.Arguments.{
  Checked, contains_string, has_kind, in_enum, above_min, below_max, check_rule, check_null,
  check_elements, check_if_slice, validate_input_value, numeric_value,
}

contains_http_string-eq :
    (values : List Text) (target : Text)
    → contains_http_string values target ≡ contains_string values target
unfolding contains_http_string contains_string
contains_http_string-eq [] target = refl
contains_http_string-eq (v ∷ values) target = ground (arith, contains_http_string-eq values target)

module _ (n : Numbers) where
  has_kind-eq : (kind : Text) (v : Value n.Num) → is_of_type n kind v ≡ has_kind n kind v
  unfolding is_of_type has_kind
  has_kind-eq kind v = ground (
    arith,
    text_eq_iff kind (codes "integer"),
    text_eq_iff kind (codes "number"),
    text_eq_iff kind (codes "boolean"),
  )

  in_enum-eq : (enum : List Text) (v : Value n.Num) → is_in_enum n enum v ≡ in_enum n enum v
  unfolding is_in_enum in_enum
  in_enum-eq enum (str s) = ground (arith, contains_http_string-eq enum s)
  in_enum-eq enum null = refl
  in_enum-eq enum (bool b) = refl
  in_enum-eq enum (num x) = refl
  in_enum-eq enum (arr xs) = refl
  in_enum-eq enum (obj fs) = refl

  above_min-eq : (m x : Option n.Num) → is_at_least n m x ≡ above_min n m x
  unfolding is_at_least above_min
  above_min-eq none x = refl
  above_min-eq (some m) none = refl
  above_min-eq (some m) (some x) = refl

  below_max-eq : (m x : Option n.Num) → is_at_most n m x ≡ below_max n m x
  unfolding is_at_most below_max
  below_max-eq none x = refl
  below_max-eq (some m) none = refl
  below_max-eq (some m) (some x) = refl

  numeric_value-eq : (v : Value n.Num) → http_numeric_value v ≡ numeric_value v
  numeric_value-eq (num x) = refl
  numeric_value-eq null = refl
  numeric_value-eq (bool b) = refl
  numeric_value-eq (str s) = refl
  numeric_value-eq (arr xs) = refl
  numeric_value-eq (obj fs) = refl

  -- A default that passes a rule passes it as an argument too, where the same holds of its
  -- elements.
  check_default-accepts :
      (r : InputRule n.Num) (elements : Defaulted) (elements' : Checked) (v : Value n.Num)
      → (elements ≡ ok tt → elements' ≡ ok tt)
      → check_default n r elements v ≡ ok tt
      → check_rule n r elements' v ≡ ok tt
  unfolding check_default check_rule
  check_default-accepts r elements elements' v h d =
      let kinds = has_kind-eq r.kind v in
      let enums = in_enum-eq r.enum v in
      let lows = above_min-eq r.minimum (http_numeric_value v) in
      let highs = below_max-eq r.maximum (http_numeric_value v) in
      let numbers = numeric_value-eq v in ground (arith, kinds, enums, lows, highs, numbers, h)

  check_default-null :
      (r : InputRule n.Num) (elements : Defaulted)
      → is_one_of supported_types r.kind ≡ true
      → check_default n r elements null ≡ ok tt
      → check_null n r ≡ ok tt
  unfolding check_default check_null is_one_of is_of_type
  check_default-null r elements supported d = ground (arith)

  default_elements-accepts :
      (check : Value n.Num → Defaulted) (check' : Value n.Num → Checked) (i j : ℕ)
      (xs : Items n.Num)
      → ((v : Value n.Num) → check v ≡ ok tt → check' v ≡ ok tt)
      → default_elements check i xs ≡ ok tt
      → check_elements check' j xs ≡ ok tt
  unfolding default_elements check_elements
  default_elements-accepts check check' i j nil h d = refl
  default_elements-accepts check check' i j (cons v xs) h d =
      ground (arith, h v, default_elements-accepts check check' (i + 1) (j + 1) xs h)

  -- The supported kinds of an input and of its items.
  validate_http_input-kind :
      (input : HttpInput n.Num)
      → validate_http_input n input ≡ ok tt
      → is_one_of supported_types (rule input).kind ≡ true
  unfolding validate_http_input
  validate_http_input-kind (plain r) h = ground arith
  validate_http_input-kind (with_items r items) h = ground arith

  validate_http_input-items :
      (r : InputRule n.Num) (items : HttpInput n.Num)
      → validate_http_input n (with_items r items) ≡ ok tt
      → validate_http_input n items ≡ ok tt
  unfolding validate_http_input
  validate_http_input-items r items h = ground arith

  default_slice-accepts :
      (check : Value n.Num → Defaulted) (check' : Value n.Num → Checked) (v : Value n.Num)
      → ((w : Value n.Num) → check w ≡ ok tt → check' w ≡ ok tt)
      → default_slice n check v ≡ ok tt
      → check_if_slice n check' v ≡ ok tt
  unfolding default_slice check_if_slice
  default_slice-accepts check check' (arr xs) h d = default_elements-accepts check check' 0 0 xs h d
  default_slice-accepts check check' _ h d = refl

  -- The two ways of validateInputValue, for nil and for any other value.
  either :
      (r : InputRule n.Num) (elements : Defaulted) (elements' : Checked) (v : Value n.Num)
      → is_one_of supported_types r.kind ≡ true
      → (elements ≡ ok tt → elements' ≡ ok tt)
      → check_default n r elements v ≡ ok tt
      → (if is_null v then check_null n r else check_rule n r elements' v) ≡ ok tt
  either r elements elements' null supported h d = check_default-null r elements supported d
  either r elements elements' v supported h d = check_default-accepts r elements elements' v h d

  -- Where the configuration accepts an input, a value that passes as its default passes as an
  -- argument for it.
  pub validate_http_input_default-accepts :
      (input : HttpInput n.Num) (v : Value n.Num)
      → validate_http_input n input ≡ ok tt
      → validate_http_input_default n input v ≡ ok tt
      → validate_input_value n input v ≡ ok tt
  unfolding validate_input_value validate_http_input_default
  validate_http_input_default-accepts (plain r) v valid d =
      let supported = validate_http_input-kind (plain r) valid in
      either r (ok tt) (ok tt) v supported (λ e. refl) d
  validate_http_input_default-accepts (with_items r items) v valid d =
      let supported = validate_http_input-kind (with_items r items) valid in
      let accepted = λ (w : Value n.Num).
        validate_http_input_default-accepts items w (validate_http_input-items r items valid) in
      either r (default_slice n (validate_http_input_default n items) v)
        (check_if_slice n (validate_input_value n items) v) v supported
        (default_slice-accepts (validate_http_input_default n items) (validate_input_value n items)
          v accepted)
        d

  default_checked :
      (input : HttpInput n.Num)
      → validate_http_input n input ≡ ok tt
      → is_null (rule input).default ≡ false
      → validate_http_input_default n input (rule input).default ≡ ok tt
  unfolding validate_http_input check_input_default
  default_checked (plain r) valid given = ground arith
  default_checked (with_items r items) valid given = ground arith

  -- The default of an input that the configuration accepts, where it has one, passes the checks of
  -- an argument for the input.
  pub validate_http_input-default :
      (input : HttpInput n.Num)
      → validate_http_input n input ≡ ok tt
      → is_null (rule input).default ≡ false
      → validate_input_value n input (rule input).default ≡ ok tt
  validate_http_input-default input valid given =
      validate_http_input_default-accepts input (rule input).default valid
        (default_checked input valid given)
