-- ===== src/HttpBinding/Template.antt =====
-- internal/httpbinding/template.go: rendering a request template with the caller's arguments.
-- `depth > maxTemplateDepth` is a count of the levels left, `maxTemplateDepth + 1 - depth`, on
-- which the recursion runs.
pub mod Clone
pub mod Faults
use mcpshim.Prelude.{
  ℕ, zero, suc, ◌+◌, ◌-◌, Bool, true, false, not, Option, none, some, List, [], ◌∷◌, ◌++◌,
  if◌then◌else◌, Text, codes, is_empty, trim_space, Result, ok, err, ◌>>=◌,
}
use mcpshim.Value.{
  Value, null, bool, num, str, arr, obj, Items, nil, cons, Fields, end, field, Numbers, get, as_str,
  is_scalar, omits,
}
use mcpshim.HttpBinding.Format.{Piece, byte, argument, pieces}

abbrev pub max_template_depth : ℕ
max_template_depth = 64

pub data RenderError : Type 0 where
  too_deep argument_too_deep arg_not_a_name format_not_a_string root_omitted : RenderError
  argument_missing format_missing format_not_scalar : Text → RenderError
  at_key : Text → RenderError → RenderError
  at_index : ℕ → RenderError → RenderError

-- fmt.Errorf("%s: %w", key, err)
abbrev pub wrap :
    {A : Type 0} → (RenderError → RenderError) → Result RenderError A → Result RenderError A
wrap f (ok a) = ok a
wrap f (err e) = err (f e)

abbrev pub Rendered : Type 0 → Type 0
Rendered A = Result RenderError A

module _ (n : Numbers) where
  -- The loops of cloneJSONValue over a map and a slice.
  unfoldable pub clone_fields :
      (Value n.Num → Rendered (Value n.Num)) → Fields n.Num → Rendered (Fields n.Num)
  clone_fields clone end = ok end
  clone_fields clone (field k v fs) =
      let rest = clone_fields clone fs in clone v >>= λ v'. rest >>= λ fs'. ok (field k v' fs')

  unfoldable pub clone_items :
      (Value n.Num → Rendered (Value n.Num)) → Items n.Num → Rendered (Items n.Num)
  clone_items clone nil = ok nil
  clone_items clone (cons v xs) =
      let rest = clone_items clone xs in clone v >>= λ v'. rest >>= λ xs'. ok (cons v' xs')

  -- cloneJSONValue, with the levels left
  unfoldable pub clone_json_value : ℕ → Value n.Num → Rendered (Value n.Num)
  unfolding clone_fields clone_items
  clone_json_value zero v = err argument_too_deep
  clone_json_value (suc levels) (obj fs) =
      clone_fields (clone_json_value levels) fs >>= λ fs'. ok (obj fs')
  clone_json_value (suc levels) (arr xs) =
      clone_items (clone_json_value levels) xs >>= λ xs'. ok (arr xs')
  clone_json_value (suc levels) v = ok v

  -- fmt.Sprint of a scalar
  unfoldable pub sprint : Value n.Num → Text
  sprint null = codes "<nil>"
  sprint (bool true) = codes "true"
  sprint (bool false) = codes "false"
  sprint (num x) = n.sprint x
  sprint (str s) = s
  sprint (arr xs) = []
  sprint (obj fs) = []

  -- The value of one match of a `$format` text.
  unfoldable pub format_argument : Text → Option (Value n.Num) → Rendered Text
  unfolding sprint
  format_argument name none = err (format_missing name)
  format_argument name (some v) =
      if is_scalar v then ok (sprint v) else err (format_not_scalar name)

  -- The loop over the matches of a `$format` text.
  unfoldable pub render_format : Fields n.Num → List Piece → Rendered Text
  unfolding format_argument
  render_format args [] = ok []
  render_format args (byte c ∷ ps) = let rest = render_format args ps in rest >>= λ t. ok (c ∷ t)
  render_format args (argument name ∷ ps) =
      let rest = render_format args ps in
      format_argument name (get name args) >>= λ s. rest >>= λ t. ok (s ++ t)

  -- `none` is a value that is left out (`present` is false).
  abbrev pub Renderer : Type 0
  Renderer = Value n.Num → Rendered (Option (Value n.Num))

  unfoldable pub keep_field : Text → Option (Value n.Num) → Fields n.Num → Fields n.Num
  keep_field k none fs = fs
  keep_field k (some v) fs = field k v fs

  unfoldable pub keep_item : Option (Value n.Num) → Items n.Num → Items n.Num
  keep_item none xs = xs
  keep_item (some v) xs = cons v xs

  unfoldable pub render_fields : Renderer → Fields n.Num → Rendered (Fields n.Num)
  unfolding keep_field
  render_fields render end = ok end
  render_fields render (field k v fs) =
      let rest = render_fields render fs in
      wrap (at_key k) (render v) >>= λ o. rest >>= λ fs'. ok (keep_field k o fs')

  unfoldable pub render_items : Renderer → ℕ → Items n.Num → Rendered (Items n.Num)
  unfolding keep_item
  render_items render index nil = ok nil
  render_items render index (cons v xs) =
      let rest = render_items render (index + 1) xs in
      wrap (at_index index) (render v) >>= λ o. rest >>= λ xs'. ok (keep_item o xs')

  -- A map with `$arg`; `render` and `clone` go one level down.
  unfoldable pub render_argument :
      Renderer
      → (Value n.Num → Rendered (Value n.Num))
      → Fields n.Num
      → Fields n.Num
      → Option Text
      → Rendered (Option (Value n.Num))
  unfolding omits
  render_argument render clone args item none = err arg_not_a_name
  render_argument render clone args item (some name) =
      if is_empty (trim_space name) then err arg_not_a_name else elim (get name args) [
        | some v ↦ clone v >>= λ v'. ok (some v')
        | none ↦ elim (get (codes "$default") item) [
          | some fallback ↦ render fallback
          | none ↦ if omits item then ok none else err (argument_missing name)
        ]
      ]

  unfoldable pub render_format_value : Fields n.Num → Option Text → Rendered (Option (Value n.Num))
  unfolding render_format
  render_format_value args none = err format_not_a_string
  render_format_value args (some text) = render_format args (pieces text) >>= λ t. ok (some (str t))

  -- renderTemplate, with the levels left
  unfoldable pub render_template : ℕ → Fields n.Num → Renderer
  unfolding render_argument render_format_value render_fields render_items clone_json_value
  render_template zero args t = err too_deep
  render_template (suc levels) args (obj item) = elim (get (codes "$arg") item) [
    | some marker ↦
        render_argument (render_template levels args) (clone_json_value levels) args item
          (as_str marker)
    | none ↦ elim (get (codes "$format") item) [
      | some format ↦ render_format_value args (as_str format)
      | none ↦ render_fields (render_template levels args) item >>= λ fs. ok (some (obj fs))
    ]
  ]
  render_template (suc levels) args (arr xs) =
      render_items (render_template levels args) 0 xs >>= λ xs'. ok (some (arr xs'))
  render_template (suc levels) args t = ok (some t)

  -- RenderTemplate
  unfoldable pub render_root : Value n.Num → Fields n.Num → Rendered (Value n.Num)
  unfolding render_template
  render_root template args = render_template (max_template_depth + 1) args template >>= λ o.
      elim o [ none ↦ err root_omitted | some v ↦ ok v ]
