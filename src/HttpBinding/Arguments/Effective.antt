-- ===== src/HttpBinding/Arguments/Effective.antt =====
-- The effective arguments of a typed tool: the given ones, completed by defaults.
use mcpshim.Prelude.{
  ◌≡◌, refl, true, false, Option, none, some, [], ◌∷◌, Text, text_eq, text_eq_iff, text_eq_refl,
  Map, lookup, is_some, Result, ok, err, ◌>>◌, bind-eq-ok, arith, inl, inr, Bool-cases,
}
use mcpshim.Value.{Value, Fields, end, field, Numbers, get, put, get-put, is_null}
use mcpshim.Config.Types.{HttpInput, rule, HttpTool}
use mcpshim.Config.Template.{is_supplied}
use mcpshim.HttpBinding.Arguments.{
  ArgumentError, at_argument, at_place, Checked, check_known, validate_input_value, fill_input,
  fill_inputs, validate_typed_arguments,
}

at_place-eq-ok :
    (f : ArgumentError → ArgumentError) (m : Checked) {N : Type 0} (k : Result ArgumentError N)
    (b : N)
    → at_place f m >> k ≡ ok b
    → (m ≡ ok tt) × (k ≡ ok b)
at_place-eq-ok f (ok u) k b h = (refl, h)
at_place-eq-ok f (err e) k b h = cc

module _ (n : Numbers) where
  -- What a round that succeeds has done.
  data Round (name : Text) (input : HttpInput n.Num) (eff eff' : Fields n.Num) : Type 0 where
    given :
        (v : Value n.Num)
        → get name eff ≡ some v
        → validate_input_value n input v ≡ ok tt
        → eff' ≡ eff
        → Round name input eff eff'
    defaulted :
        get name eff ≡ none
        → validate_input_value n input (rule input).default ≡ ok tt
        → eff' ≡ put name (rule input).default eff
        → Round name input eff eff'
    absent :
        get name eff ≡ none → is_supplied input ≡ false → eff' ≡ eff → Round name input eff eff'

  fill_input-Round :
      (name : Text) (input : HttpInput n.Num) (o : Option (Value n.Num)) (eff eff' : Fields n.Num)
      → get name eff ≡ o
      → fill_input n name input o eff ≡ ok eff'
      → Round name input eff eff'
  unfolding fill_input is_supplied
  fill_input-Round name input (some v) eff eff' e h =
      let (valid, same) =
        at_place-eq-ok (at_argument name) (validate_input_value n input v) _ _ h in
      given v e valid (ground arith)
  fill_input-Round name input none eff eff' e h = elim (Bool-cases (is_null (rule input).default)) [
    | inl no_default ↦ absent e (ground arith) (ground arith)
    | inr has_default ↦
        let (valid, same) =
          at_place-eq-ok (at_argument name) (validate_input_value n input (rule input).default) _ _
            (rw has_default at h) in
        defaulted e valid (ground arith)
  ]

  round :
      (name : Text) (input : HttpInput n.Num) (eff eff' : Fields n.Num)
      → fill_input n name input (get name eff) eff ≡ ok eff'
      → Round name input eff eff'
  round name input eff eff' h = fill_input-Round name input (get name eff) eff eff' refl h

  -- A round keeps what is there.
  fill_input-keeps :
      (name k : Text) (input : HttpInput n.Num) (eff eff' : Fields n.Num) (v : Value n.Num)
      → Round name input eff eff'
      → get k eff ≡ some v
      → get k eff' ≡ some v
  fill_input-keeps name k input eff eff' v (given w has valid same) e = rw same e
  fill_input-keeps name k input eff eff' v (defaulted missing valid same) e =
      rw (same, get-put) (ground (arith, text_eq_iff name k))
  fill_input-keeps name k input eff eff' v (absent missing bare same) e = rw same e

  pub fill_inputs-keeps :
      (inputs : Map (HttpInput n.Num)) (k : Text) (eff eff' : Fields n.Num) (v : Value n.Num)
      → fill_inputs n inputs eff ≡ ok eff'
      → get k eff ≡ some v
      → get k eff' ≡ some v
  unfolding fill_inputs
  fill_inputs-keeps [] k eff eff' v h e = ground arith
  fill_inputs-keeps ((name, input) ∷ inputs) k eff eff' v h e =
      let (mid, ran, rest) = bind-eq-ok (fill_input n name input (get name eff) eff) _ h in
      fill_inputs-keeps inputs k mid eff' v rest
        (fill_input-keeps name k input eff mid v (round name input eff mid ran) e)

  -- After its round, an input that is required or has a default has a value that conforms.
  fill_input-supplies :
      (name : Text) (input : HttpInput n.Num) (eff eff' : Fields n.Num)
      → is_supplied input ≡ true
      → Round name input eff eff'
      → (v : Value n.Num) × (get name eff' ≡ some v) × (validate_input_value n input v ≡ ok tt)
  fill_input-supplies name input eff eff' supplied (given w has valid same) =
      (w, rw same has, valid)
  fill_input-supplies name input eff eff' supplied (defaulted missing valid same) =
      ((rule input).default, rw (same, get-put, text_eq_refl) refl, valid)
  fill_input-supplies name input eff eff' supplied (absent missing bare same) = cc

  fill_inputs-supplies :
      (inputs : Map (HttpInput n.Num)) (name : Text) (input : HttpInput n.Num)
      (eff eff' : Fields n.Num)
      → fill_inputs n inputs eff ≡ ok eff'
      → lookup name inputs ≡ some input
      → is_supplied input ≡ true
      → (v : Value n.Num) × (get name eff' ≡ some v) × (validate_input_value n input v ≡ ok tt)
  unfolding fill_inputs lookup
  fill_inputs-supplies [] name input eff eff' h e s = cc
  fill_inputs-supplies ((j, i) ∷ inputs) name input eff eff' h e s =
      let (mid, ran, rest) = bind-eq-ok (fill_input n j i (get j eff) eff) _ h in
      elim (Bool-cases (text_eq j name)) [
        | inl same ↦
            let here : i ≡ input = ground arith in
            let there = (text_eq_iff j name).0 same in
            let (v, has, valid) =
              fill_input-supplies j i eff mid (rw here s) (round j i eff mid ran) in
            (v, fill_inputs-keeps inputs name mid eff' v rest (rw (← there) has), rw (← here) valid)
        | inr other ↦ fill_inputs-supplies inputs name input mid eff' rest (rw other at e) s
      ]

  -- When the arguments of a typed tool are accepted, every argument that was given is passed on as
  -- it is.
  pub validate_typed_arguments-keeps :
      (tool : HttpTool n.Num) (args effective : Fields n.Num) (name : Text) (v : Value n.Num)
      → validate_typed_arguments n tool args ≡ ok effective
      → get name args ≡ some v
      → get name effective ≡ some v
  unfolding validate_typed_arguments
  validate_typed_arguments-keeps tool args effective name v h e =
      let (_, known, filled) = bind-eq-ok (check_known n tool.inputs args) _ h in
      fill_inputs-keeps tool.inputs name args effective v filled e

  -- When the arguments of a typed tool are accepted, every input that is required or has a default
  -- has a value, and that value passes the checks of its input.
  pub validate_typed_arguments-supplies :
      (tool : HttpTool n.Num) (args effective : Fields n.Num) (name : Text)
      (input : HttpInput n.Num)
      → validate_typed_arguments n tool args ≡ ok effective
      → lookup name tool.inputs ≡ some input
      → is_supplied input ≡ true
      → (v : Value n.Num) × (get name effective ≡ some v) × (validate_input_value n input v ≡ ok tt)
  unfolding validate_typed_arguments
  validate_typed_arguments-supplies tool args effective name input h e s =
      let (_, known, filled) = bind-eq-ok (check_known n tool.inputs args) _ h in
      fill_inputs-supplies tool.inputs name input args effective filled e s

  check_known-lookup :
      (inputs : Map (HttpInput n.Num)) (args : Fields n.Num) (name : Text) (v : Value n.Num)
      → check_known n inputs args ≡ ok tt
      → get name args ≡ some v
      → is_some (lookup name inputs) ≡ true
  unfolding check_known get
  check_known-lookup inputs end name v h e = cc
  check_known-lookup inputs (field k w fs) name v h e =
      ground (arith, text_eq_iff k name, check_known-lookup inputs fs name v)

  -- An argument that names no input of the tool is refused.
  pub validate_typed_arguments-known :
      (tool : HttpTool n.Num) (args effective : Fields n.Num) (name : Text) (v : Value n.Num)
      → validate_typed_arguments n tool args ≡ ok effective
      → get name args ≡ some v
      → is_some (lookup name tool.inputs) ≡ true
  unfolding validate_typed_arguments
  validate_typed_arguments-known tool args effective name v h e =
      let (_, known, filled) = bind-eq-ok (check_known n tool.inputs args) _ h in
      check_known-lookup tool.inputs args name v known e
