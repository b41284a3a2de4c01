-- ===== src/Examples/Tools.antt =====
-- The arguments of a typed tool, and a template rendered with them.
use mcpshim.Prelude.{ℕ, ◌≡◌, refl, true, false, none, some, [], ◌∷◌, codes, lookup, ok, text_eq}
use mcpshim.Value.{Value, null, num, str, obj, Fields, field, end, natural, get, put}
use mcpshim.Config.Types.{HttpInput, plain, HttpTool}
use mcpshim.Config.Template.{validate_http_template, is_supplied}
use mcpshim.HttpBinding.Template.{render_root}
use mcpshim.HttpBinding.Arguments.{
  validate_typed_arguments, validate_input_value, fill_input, fill_inputs,
}
use mcpshim.HttpBinding.Arguments.Effective.{validate_typed_arguments-supplies}
use mcpshim.HttpBinding.Arguments.Rendering.{OnlyRootFaults, render_root-OnlyRootFaults}
use mcpshim.HttpBinding.Format.{is_argument_name, pieces}

abbrev text_input : HttpInput ℕ
text_input = plain (record {
  kind = codes "string";
  description = [];
  required = true;
  default = null;
  enum = [];
  minimum = none;
  maximum = none;
})

abbrev page_input : HttpInput ℕ
page_input = plain (record {
  kind = codes "integer";
  description = [];
  required = false;
  default = num 1;
  enum = [];
  minimum = none;
  maximum = none;
})

abbrev search_tool : HttpTool ℕ
search_tool = record {
  name = codes "s";
  description = [];
  request = record {
    method = codes "GET";
    path = codes "/";
    query = end;
    headers = end;
    body = none;
  };
  inputs = (codes "q", text_input) ∷ (codes "page", page_input) ∷ [];
}

abbrev search_arguments : Fields ℕ
search_arguments = field (codes "q") (str (codes "x")) end

abbrev search_effective : Fields ℕ
search_effective = field (codes "q") (str (codes "x")) (field (codes "page") (num 1) end)

search_run : validate_typed_arguments natural search_tool search_arguments ≡ ok search_effective
unfolding validate_typed_arguments lookup text_eq fill_inputs fill_input get validate_input_value
    put
search_run = refl

q_given : get (codes "q") search_arguments ≡ some (str (codes "x"))
unfolding get text_eq
q_given = refl

page_found : lookup (codes "page") search_tool.inputs ≡ some page_input
unfolding lookup text_eq
page_found = refl

page_supplied : is_supplied page_input ≡ true
unfolding is_supplied
page_supplied = refl

validate_typed_arguments_supplies_example :
    (v : Value ℕ) × (get (codes "page") search_effective ≡ some v)
    × (validate_input_value natural page_input v ≡ ok tt)
validate_typed_arguments_supplies_example =
    validate_typed_arguments-supplies natural search_tool search_arguments search_effective
      (codes "page") page_input search_run page_found page_supplied

abbrev search_template : Value ℕ
search_template = obj (
    field (codes "p") (obj (field (codes "$arg") (str (codes "page")) end))
      (field (codes "t") (obj (field (codes "$format") (str (codes "-{q}")) end)) end))

search_template_valid : validate_http_template search_tool.inputs search_template ≡ ok tt
unfolding validate_http_template get text_eq is_argument_name lookup pieces
search_template_valid = refl

render_root_example : OnlyRootFaults (render_root natural search_template search_effective)
render_root_example =
    render_root-OnlyRootFaults natural search_tool search_arguments search_effective search_template
      search_template_valid search_run
