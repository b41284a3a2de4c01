-- ===== src/HttpBinding/Template/Faults.antt =====
-- The errors that are left when a template that the configuration accepted is rendered.
mod Names
use mcpshim.Prelude.{
  ℕ, zero, suc, ◌+◌, ◌≡◌, refl, ap, ◌∙◌, Bool, true, false, not, ◌||◌, ◌&&◌, Option, none, some,
  List, [], ◌∷◌, ◌++◌, if◌then◌else◌, Text, codes, text_eq, text_eq_iff, is_empty, trim_space, Map,
  lookup, is_some, Result, ok, err, guard, ◌>>=◌, ◌>>◌, bind-eq-ok, guard-eq-ok, arith, inl, inr,
  Bool-cases, Option-cases,
}
use mcpshim.Value.{
  Value, null, bool, num, str, arr, obj, Items, nil, cons, Fields, end, field, Numbers, get, as_str,
  is_scalar, omits,
}
use mcpshim.Config.Types.{HttpInput, rule}
use mcpshim.Config.Template.{
  Checked, is_supplied, check_option, check_options, check_argument, check_match, check_format,
  check_format_value, check_fields, check_items, validate_template, validate_http_template,
}
use mcpshim.HttpBinding.Format.{Piece, byte, argument, pieces, is_argument_name}
use mcpshim.HttpBinding.Template.{
  RenderError, too_deep, argument_too_deep, format_not_scalar, at_key, at_index, root_omitted, wrap,
  Rendered, clone_fields, clone_items, clone_json_value, format_argument, render_format,
  render_fields, render_items, render_argument, render_format_value, render_template, render_root,
}
use Names.{is_argument_name-trim_space}

-- The errors at an argument: it is too deep, its nesting counted from its place in the template, or
-- it is a map or slice in a `$format` text. At depth 64, the deepest place that the validation
-- accepts, any argument is too deep, since its copy starts one level below.
abbrev pub IsArgumentFault : RenderError → Type 0
IsArgumentFault argument_too_deep = Unit
IsArgumentFault (format_not_scalar name) = Unit
IsArgumentFault (at_key k e) = IsArgumentFault e
IsArgumentFault (at_index i e) = IsArgumentFault e
IsArgumentFault _ = ⊥

-- It succeeds, or fails with such an error.
abbrev pub OnlyFaults : {A : Type 0} → Rendered A → Type 0
OnlyFaults (ok a) = Unit
OnlyFaults (err e) = IsArgumentFault e

OnlyFaults-bind :
    {A B : Type 0} (m : Rendered A) (f : A → Rendered B)
    → OnlyFaults m
    → ((a : A) → OnlyFaults (f a))
    → OnlyFaults (m >>= f)
OnlyFaults-bind (ok a) f h k = k a
OnlyFaults-bind (err e) f h k = h

OnlyFaults-key :
    {A : Type 0} (k : Text) (m : Rendered A) → OnlyFaults m → OnlyFaults (wrap (at_key k) m)
OnlyFaults-key k (ok a) h = tt
OnlyFaults-key k (err e) h = h

OnlyFaults-index :
    {A : Type 0} (i : ℕ) (m : Rendered A) → OnlyFaults m → OnlyFaults (wrap (at_index i) m)
OnlyFaults-index i (ok a) h = tt
OnlyFaults-index i (err e) h = h

module _ (n : Numbers) where
  clone_fields-OnlyFaults :
      (clone : Value n.Num → Rendered (Value n.Num))
      → ((v : Value n.Num) → OnlyFaults (clone v))
      → (fs : Fields n.Num) → OnlyFaults (clone_fields n clone fs)
  unfolding clone_fields
  clone_fields-OnlyFaults clone h end = tt
  clone_fields-OnlyFaults clone h (field k v fs) = OnlyFaults-bind (clone v) _ (h v) λ v'.
      OnlyFaults-bind (clone_fields n clone fs) _ (clone_fields-OnlyFaults clone h fs) λ fs'. tt

  clone_items-OnlyFaults :
      (clone : Value n.Num → Rendered (Value n.Num))
      → ((v : Value n.Num) → OnlyFaults (clone v))
      → (xs : Items n.Num) → OnlyFaults (clone_items n clone xs)
  unfolding clone_items
  clone_items-OnlyFaults clone h nil = tt
  clone_items-OnlyFaults clone h (cons v xs) =
      OnlyFaults-bind (clone v) _ (h v) λ v'.
        OnlyFaults-bind (clone_items n clone xs) _ (clone_items-OnlyFaults clone h xs) λ xs'. tt

  clone_json_value-OnlyFaults :
      (levels : ℕ) (v : Value n.Num) → OnlyFaults (clone_json_value n levels v)
  unfolding clone_json_value
  clone_json_value-OnlyFaults zero v = tt
  clone_json_value-OnlyFaults (suc levels) (obj fs) =
      OnlyFaults-bind (clone_fields n (clone_json_value n levels) fs) _
        (clone_fields-OnlyFaults _ (clone_json_value-OnlyFaults levels) fs) λ gs. tt
  clone_json_value-OnlyFaults (suc levels) (arr xs) =
      OnlyFaults-bind (clone_items n (clone_json_value n levels) xs) _
        (clone_items-OnlyFaults _ (clone_json_value-OnlyFaults levels) xs) λ ys. tt
  clone_json_value-OnlyFaults (suc levels) null = tt
  clone_json_value-OnlyFaults (suc levels) (bool b) = tt
  clone_json_value-OnlyFaults (suc levels) (num x) = tt
  clone_json_value-OnlyFaults (suc levels) (str s) = tt

-- Every input that is required or has a default has an argument.
pub record Supplies {N : Type 0} (inputs : Map (HttpInput N)) (args : Fields N) : Type 0 where
  pub at :
      (name : Text) (input : HttpInput N)
      → lookup name inputs ≡ some input
      → is_supplied input ≡ true
      → is_some (get name args) ≡ true

check_options-default :
    {N : Type 0} (check : Value N → Checked) (item : Fields N) (fallback : Value N)
    → check_options check item ≡ ok tt
    → get (codes "$default") item ≡ some fallback
    → check fallback ≡ ok tt
unfolding check_options get check_option
check_options-default check end fallback h e = cc
check_options-default check (field key option fs) fallback h e =
    let (_, here, rest) = bind-eq-ok (check_option check key option) _ h in
    elim (Bool-cases (text_eq key (codes "$default"))) [
      | inl same ↦
          ground (arith, text_eq_iff key (codes "$default"), text_eq_iff key (codes "$arg"))
      | inr other ↦ check_options-default check fs fallback rest (rw other at e)
    ]

module _ (n : Numbers) (inputs : Map (HttpInput n.Num)) (args : Fields n.Num)
    (supplies : Supplies inputs args) where
  -- With no argument and no default, the template asks to be left out.
  omitted :
      (name : Text) (item : Fields n.Num)
      → check_argument inputs item (some name) ≡ ok tt
      → get name args ≡ none
      → get (codes "$default") item ≡ none
      → omits item ≡ true
  unfolding check_argument
  omitted name item h missing bare = elim (Option-cases (lookup name inputs)) [
    | inl unknown ↦ ground (arith, unknown)
    | inr (input, e) ↦ ground (arith, e, supplies.at name input e)
  ]

  format_argument-OnlyFaults :
      (name : Text)
      → check_match name (lookup name inputs) ≡ ok tt
      → OnlyFaults (format_argument n name (get name args))
  unfolding format_argument check_match
  format_argument-OnlyFaults name h = elim (Option-cases (lookup name inputs)) [
    | inl missing ↦ cc (rw missing at h)
    | inr (input, e) ↦ ground (arith, supplies.at name input e)
  ]

  render_format-OnlyFaults :
      (ps : List Piece) → check_format inputs ps ≡ ok tt → OnlyFaults (render_format n args ps)
  unfolding render_format check_format
  render_format-OnlyFaults [] h = tt
  render_format-OnlyFaults (byte c ∷ ps) h =
      OnlyFaults-bind (render_format n args ps) _ (render_format-OnlyFaults ps h) λ t. tt
  render_format-OnlyFaults (argument name ∷ ps) h =
      let (_, here, rest) = bind-eq-ok (check_match name (lookup name inputs)) _ h in
      OnlyFaults-bind (format_argument n name (get name args)) _
        (format_argument-OnlyFaults name here)
        λ s. OnlyFaults-bind (render_format n args ps) _ (render_format-OnlyFaults ps rest) λ t. tt

  module _ (check : Value n.Num → Checked) (render : Value n.Num → Rendered (Option (Value n.Num)))
      (sound : (v : Value n.Num) → check v ≡ ok tt → OnlyFaults (render v)) where
    render_fields-OnlyFaults :
        (fs : Fields n.Num) → check_fields check fs ≡ ok tt → OnlyFaults (render_fields n render fs)
    unfolding render_fields check_fields
    render_fields-OnlyFaults end h = tt
    render_fields-OnlyFaults (field k v fs) h =
        let (_, here, rest) = bind-eq-ok (check v) _ h in
        OnlyFaults-bind (wrap (at_key k) (render v)) _ (OnlyFaults-key k (render v) (sound v here))
          λ o.
            OnlyFaults-bind (render_fields n render fs) _ (render_fields-OnlyFaults fs rest)
              λ fs'. tt

    render_items-OnlyFaults :
        (i : ℕ) (xs : Items n.Num)
        → check_items check xs ≡ ok tt
        → OnlyFaults (render_items n render i xs)
    unfolding render_items check_items
    render_items-OnlyFaults i nil h = tt
    render_items-OnlyFaults i (cons v xs) h =
        let (_, here, rest) = bind-eq-ok (check v) _ h in
        OnlyFaults-bind (wrap (at_index i) (render v)) _
          (OnlyFaults-index i (render v) (sound v here))
          λ o.
            OnlyFaults-bind (render_items n render (i + 1) xs) _
              (render_items-OnlyFaults (i + 1) xs rest) λ xs'. tt

    render_argument-OnlyFaults :
        (levels : ℕ) (item : Fields n.Num) (marker : Option Text)
        → check_argument inputs item marker ≡ ok tt
        → check_options check item ≡ ok tt
        → OnlyFaults (render_argument n render (clone_json_value n levels) args item marker)
    unfolding render_argument check_argument
    render_argument-OnlyFaults levels item none h o = cc
    render_argument-OnlyFaults levels item (some name) h o =
        let solid = is_argument_name-trim_space name (ground arith) in
        elim (Option-cases (get name args)) [
          | inr (v, given) ↦
              rw (solid, given)
                (OnlyFaults-bind (clone_json_value n levels v) _
                  (clone_json_value-OnlyFaults n levels v) λ w. tt)
          | inl missing ↦ elim (Option-cases (get (codes "$default") item)) [
            | inr (fallback, e) ↦
                rw (solid, missing, e)
                  (sound fallback (check_options-default check item fallback o e))
            | inl bare ↦ rw (solid, missing, bare, omitted name item h missing bare) tt
          ]
        ]

  render_format_value-OnlyFaults :
      (item : Fields n.Num) (marker : Option Text)
      → check_format_value inputs item marker ≡ ok tt
      → OnlyFaults (render_format_value n args marker)
  unfolding render_format_value check_format_value
  render_format_value-OnlyFaults item none h = cc
  render_format_value-OnlyFaults item (some text) h =
      let (_, here, rest) = bind-eq-ok (check_format inputs (pieces text)) _ h in
      OnlyFaults-bind (render_format n args (pieces text)) _
        (render_format-OnlyFaults (pieces text) here) λ t. tt

  pub render_template-OnlyFaults :
      (levels : ℕ) (t : Value n.Num)
      → validate_template inputs levels t ≡ ok tt
      → OnlyFaults (render_template n levels args t)
  unfolding render_template validate_template
  render_template-OnlyFaults zero t h = cc
  render_template-OnlyFaults (suc levels) (obj item) h =
      let check = validate_template inputs levels in
      let render = render_template n levels args in
      let sound = render_template-OnlyFaults levels in
      elim (Option-cases (get (codes "$arg") item)) [
        | inr (marker, e) ↦
            let (_, argued, options) =
              bind-eq-ok (check_argument inputs item (as_str marker)) _
                (rw (e, validate_template) at h) in
            rw (e, render_template)
              (render_argument-OnlyFaults check render sound levels item (as_str marker) argued
                options)
        | inl no_arg ↦ elim (Option-cases (get (codes "$format") item)) [
          | inr (marker, e) ↦
              rw (no_arg, e, render_template)
                (render_format_value-OnlyFaults item (as_str marker)
                  (rw (no_arg, e, validate_template) at h))
          | inl no_format ↦
              rw (no_arg, no_format, render_template)
                (OnlyFaults-bind (render_fields n render item) _
                  (render_fields-OnlyFaults check render sound item
                    (rw (no_arg, no_format, validate_template) at h))
                  λ fs. tt)
        ]
      ]
  render_template-OnlyFaults (suc levels) (arr xs) h =
      OnlyFaults-bind (render_items n (render_template n levels args) 0 xs) _
        (render_items-OnlyFaults (validate_template inputs levels) (render_template n levels args)
          (render_template-OnlyFaults levels) 0 xs h)
        λ ys. tt
  render_template-OnlyFaults (suc levels) null h = tt
  render_template-OnlyFaults (suc levels) (bool b) h = tt
  render_template-OnlyFaults (suc levels) (num x) h = tt
  render_template-OnlyFaults (suc levels) (str s) h = tt
