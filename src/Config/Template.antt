-- ===== src/Config/Template.antt =====
-- validateHTTPTemplateDepth of internal/config/http.go: which request templates a configuration may
-- hold. `depth > maxHTTPTemplateDepth` is a count of the levels left.
use mcpshim.Prelude.{
  ℕ, zero, suc, ◌+◌, Bool, true, false, not, ◌||◌, Option, none, some, List, [], ◌∷◌, if◌then◌else◌,
  Text, codes, text_eq, Map, lookup, is_some, Result, ok, err, guard, ◌>>◌,
}
use mcpshim.Value.{
  Value, bool, arr, obj, Items, nil, cons, Fields, end, field, get, as_str, is_null, omits,
}
use mcpshim.Config.Types.{HttpInput, rule}
use mcpshim.HttpBinding.Format.{Piece, byte, argument, pieces, is_argument_name}

abbrev pub max_http_template_depth : ℕ
max_http_template_depth = 64

pub data TemplateError : Type 0 where
  too_deep invalid_arg omit_not_bool format_not_string format_siblings : TemplateError
  unknown_input optional_input unsupported_option format_unknown format_optional :
      Text → TemplateError

abbrev pub Checked : Type 0
Checked = Result TemplateError (Unit {0})

module _ {N : Type 0} where
  -- input.Required || input.Default != nil
  unfoldable pub is_supplied : HttpInput N → Bool
  is_supplied input = (rule input).required || not (is_null (rule input).default)

  abbrev pub is_bool : Value N → Bool
  is_bool (bool b) = true
  is_bool _ = false

  -- The switch over one option of an `$arg` map.
  unfoldable pub check_option : (Value N → Checked) → Text → Value N → Checked
  check_option check key option =
      if text_eq key (codes "$arg")
      then ok tt
      else if text_eq key (codes "$default")
      then check option
      else if text_eq key (codes "$omit_if_missing")
      then guard (is_bool option) omit_not_bool
      else err (unsupported_option key)

  unfoldable pub check_options : (Value N → Checked) → Fields N → Checked
  unfolding check_option
  check_options check end = ok tt
  check_options check (field key option fs) =
      let rest = check_options check fs in check_option check key option >> rest

  -- The input that `$arg` names.
  unfoldable pub check_argument : Map (HttpInput N) → Fields N → Option Text → Checked
  unfolding is_supplied omits
  check_argument inputs item none = err invalid_arg
  check_argument inputs item (some name) =
      if not (is_argument_name name) then err invalid_arg else elim (lookup name inputs) [
        | none ↦ err (unknown_input name)
        | some input ↦
            guard (is_supplied input || is_some (get (codes "$default") item) || omits item)
              (optional_input name)
      ]

  unfoldable pub check_match : Text → Option (HttpInput N) → Checked
  unfolding is_supplied
  check_match name none = err (format_unknown name)
  check_match name (some input) = guard (is_supplied input) (format_optional name)

  -- The loop over the matches of a `$format` text.
  unfoldable pub check_format : Map (HttpInput N) → List Piece → Checked
  unfolding check_match
  check_format inputs [] = ok tt
  check_format inputs (byte c ∷ ps) = check_format inputs ps
  check_format inputs (argument name ∷ ps) =
      let rest = check_format inputs ps in check_match name (lookup name inputs) >> rest

  -- len(item) == 1
  abbrev pub is_single : Fields N → Bool
  is_single (field k v end) = true
  is_single _ = false

  unfoldable pub check_format_value : Map (HttpInput N) → Fields N → Option Text → Checked
  unfolding check_format
  check_format_value inputs item none = err format_not_string
  check_format_value inputs item (some text) =
      check_format inputs (pieces text) >> guard (is_single item) format_siblings

  unfoldable pub check_fields : (Value N → Checked) → Fields N → Checked
  check_fields check end = ok tt
  check_fields check (field k v fs) = let rest = check_fields check fs in check v >> rest

  unfoldable pub check_items : (Value N → Checked) → Items N → Checked
  check_items check nil = ok tt
  check_items check (cons v xs) = let rest = check_items check xs in check v >> rest

  -- validateHTTPTemplateDepth, with the levels left
  unfoldable pub validate_template : Map (HttpInput N) → ℕ → Value N → Checked
  unfolding check_options check_argument check_format_value check_fields check_items
  validate_template inputs zero t = err too_deep
  validate_template inputs (suc levels) (obj item) = elim (get (codes "$arg") item) [
    | some marker ↦
        check_argument inputs item (as_str marker)
        >> check_options (validate_template inputs levels) item
    | none ↦ elim (get (codes "$format") item) [
      | some format ↦ check_format_value inputs item (as_str format)
      | none ↦ check_fields (validate_template inputs levels) item
    ]
  ]
  validate_template inputs (suc levels) (arr xs) = check_items (validate_template inputs levels) xs
  validate_template inputs (suc levels) t = ok tt

  -- validateHTTPTemplate
  unfoldable pub validate_http_template : Map (HttpInput N) → Value N → Checked
  unfolding validate_template
  validate_http_template inputs t = validate_template inputs (max_http_template_depth + 1) t
