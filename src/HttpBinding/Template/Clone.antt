-- ===== src/HttpBinding/Template/Clone.antt =====
-- cloneJSONValue of internal/httpbinding/template.go.
use mcpshim.Prelude.{ℕ, zero, suc, ◌≡◌, ok, bind-eq-ok, arith}
use mcpshim.Value.{
  Value, null, bool, num, str, arr, obj, Items, nil, cons, Fields, end, field, Numbers,
}
use mcpshim.HttpBinding.Template.{Rendered, clone_fields, clone_items, clone_json_value}

module _ (n : Numbers) where
  clone_fields-eq :
      (clone : Value n.Num → Rendered (Value n.Num))
      → ((v w : Value n.Num) → clone v ≡ ok w → w ≡ v)
      → (fs gs : Fields n.Num) → clone_fields n clone fs ≡ ok gs
      → gs ≡ fs
  unfolding clone_fields
  clone_fields-eq clone h end gs e = ground arith
  clone_fields-eq clone h (field k v fs) gs e =
      let (v', cv, rest) = bind-eq-ok (clone v) _ e in
      let (fs', cf, done) = bind-eq-ok (clone_fields n clone fs) _ rest in
      cc (h v v' cv, clone_fields-eq clone h fs fs' cf)

  clone_items-eq :
      (clone : Value n.Num → Rendered (Value n.Num))
      → ((v w : Value n.Num) → clone v ≡ ok w → w ≡ v)
      → (xs ys : Items n.Num) → clone_items n clone xs ≡ ok ys
      → ys ≡ xs
  unfolding clone_items
  clone_items-eq clone h nil ys e = ground arith
  clone_items-eq clone h (cons v xs) ys e =
      let (v', cv, rest) = bind-eq-ok (clone v) _ e in
      let (xs', cx, done) = bind-eq-ok (clone_items n clone xs) _ rest in
      cc (h v v' cv, clone_items-eq clone h xs xs' cx)

  -- A copy that is made is the value itself.
  pub clone_json_value-eq :
      (levels : ℕ) (v w : Value n.Num) → clone_json_value n levels v ≡ ok w → w ≡ v
  unfolding clone_json_value
  clone_json_value-eq zero v w e = cc
  clone_json_value-eq (suc levels) (obj fs) w e =
      let (gs, c, done) = bind-eq-ok (clone_fields n (clone_json_value n levels) fs) _ e in
      cc (clone_fields-eq (clone_json_value n levels) (clone_json_value-eq levels) fs gs c)
  clone_json_value-eq (suc levels) (arr xs) w e =
      let (ys, c, done) = bind-eq-ok (clone_items n (clone_json_value n levels) xs) _ e in
      cc (clone_items-eq (clone_json_value n levels) (clone_json_value-eq levels) xs ys c)
  clone_json_value-eq (suc levels) null w e = cc
  clone_json_value-eq (suc levels) (bool b) w e = cc
  clone_json_value-eq (suc levels) (num x) w e = cc
  clone_json_value-eq (suc levels) (str s) w e = cc
