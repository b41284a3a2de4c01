-- ===== src/Value.antt =====
-- Dynamic values (`interface{}`), as JSON and YAML decode them: internal/httpbinding and
-- internal/config walk them. All numeric types of Go are one abstract type `N`.
use mcpshim.Prelude.{
  ℕ, Bool, true, false, Option, none, some, [], ◌∷◌, if◌then◌else◌, Text, text_eq, text_eq_iff,
  codes, ◌≡◌, refl, arith,
}

mutual
  pub data Value (N : Type 0) : Type 0 where
    null : Value N
    bool : Bool → Value N
    num : N → Value N
    str : Text → Value N
    arr : Items N → Value N
    obj : Fields N → Value N

  pub data Items (N : Type 0) : Type 0 where
    nil : Items N
    cons : Value N → Items N → Items N

  pub data Fields (N : Type 0) : Type 0 where
    end : Fields N
    field : Text → Value N → Fields N → Fields N

-- What the program uses of Go's numbers, which this development does not define: the order of
-- their float64 values, the test for a whole number, and the texts that scalarString and
-- fmt.Sprint print.
pub record Numbers : Type 1 where
  pub Num : Type 0
  pub less : Num → Num → Bool
  pub integral : Num → Bool
  pub format : Num → Text
  pub sprint : Num → Text

module _ {N : Type 0} where
  -- item[key]
  unfoldable pub get : Text → Fields N → Option (Value N)
  get k end = none
  get k (field j v fs) = if text_eq j k then some v else get k fs

  -- item[key] = value
  unfoldable pub put : Text → Value N → Fields N → Fields N
  put k v end = field k v end
  put k v (field j w fs) = if text_eq j k then field k v fs else field j w (put k v fs)

  pub get-put :
      (k j : Text) (v : Value N) (fs : Fields N)
      → get j (put k v fs) ≡ (if text_eq k j then some v else get j fs)
  unfolding get put
  get-put k j v end = refl
  get-put k j v (field i w fs) =
      ground (arith, text_eq_iff k j, text_eq_iff i k, text_eq_iff i j, get-put k j v fs)

  -- value == nil
  abbrev pub is_null : Value N → Bool
  is_null null = true
  is_null _ = false

  -- value.(string)
  abbrev pub as_str : Value N → Option Text
  as_str (str s) = some s
  as_str _ = none

  -- A scalar is neither a map nor a slice.
  abbrev pub is_scalar : Value N → Bool
  is_scalar (arr xs) = false
  is_scalar (obj fs) = false
  is_scalar _ = true

module _ {N : Type 0} where
  -- omit, _ := item["$omit_if_missing"].(bool)
  unfoldable pub omits : Fields N → Bool
  omits item = elim (get (codes "$omit_if_missing") item) [
    | none ↦ false
    | some v ↦ elim v [ bool b ↦ b | _ ↦ false ]
  ]

-- The conversion to text in scalarString; `none` is its error.
unfoldable pub scalar_string : (n : Numbers) → Value n.Num → Option Text
scalar_string n (str s) = some s
scalar_string n (bool true) = some (codes "true")
scalar_string n (bool false) = some (codes "false")
scalar_string n (num x) = some (n.format x)
scalar_string n _ = none

abbrev pub natural : Numbers
natural = record {
  Num = ℕ;
  less = λ a b. false;
  integral = λ a. true;
  format = λ a. a ∷ [];
  sprint = λ a. a ∷ [];
}
