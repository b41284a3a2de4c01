-- ===== src/Config/Tools.antt =====
-- validateHTTPPolicy, validateHTTPRawTool and validateHTTPTool of internal/config/http.go. The maps
-- are walked in the order of their fields, and the check stops at the first error.
use mcpshim.Prelude.{
  ℕ, Bool, false, not, ◌&&◌, ◌||◌, ◌++◌, Option, none, some, List, [], ◌∷◌, leb, if◌then◌else◌,
  is_empty, Text, codes, is_one_of, has_byte, trim_space, split, Map, lookup, Result, ok, err,
  guard, ◌>>◌, check_all, ℤ, pos, negsuc, is_neg, pos_part,
}
use mcpshim.Value.{Value, Fields, end, field, Numbers}
use mcpshim.Web.{Web}
use mcpshim.Config.Types.{HttpInput, rule, HttpBody, HttpTool, HttpRawTool, HttpPolicy}
use mcpshim.Config.Template.{TemplateError, validate_http_template}
use mcpshim.Config.Inputs.{InputError, validate_http_input}
use mcpshim.Config.Headers.{
  valid_http_method, valid_http_header_name, is_protected_http_header,
  is_sensitive_http_response_header, supported_http_body_content_type,
  valid_http_content_type_pattern,
}
use mcpshim.HttpBinding.Format.{Piece, argument, pieces, is_argument_name}
use mcpshim.HttpBinding.Paths.{valid_http_tool_path, valid_http_path_pattern}

pub data ToolError : Type 0 where
  negative_limits timeout_too_long raw_name_required raw_paths_required invalid_tool_path :
      ToolError
  unsupported_redirects unsupported_method invalid_content_type invalid_header sensitive_header :
      Text → ToolError
  invalid_pattern protected_header_named invalid_input_name placeholder_not_whole path_unknown :
      Text → ToolError
  path_not_required path_not_scalar unsupported_body_type : Text → ToolError
  invalid_status : ℤ → ToolError
  invalid_input : Text → InputError → ToolError
  invalid_template : Text → TemplateError → ToolError

abbrev pub ToolChecked : Type 0
ToolChecked = Result ToolError (Unit {0})

abbrev pub max_http_timeout_seconds : ℕ
max_http_timeout_seconds = 60

-- status < 100 || status > 599, or not
abbrev pub is_status : ℤ → Bool
is_status (pos s) = leb 100 s && leb s 599
is_status (negsuc s) = false

module _ {N : Type 0} (web : Web N) where
  unfoldable pub check_response_header : Text → ToolChecked
  check_response_header name =
      guard (valid_http_header_name name) (invalid_header name)
      >> guard (not (is_sensitive_http_response_header web name)) (sensitive_header name)

  unfoldable pub validate_http_policy : HttpPolicy → ToolChecked
  unfolding check_response_header check_all
  validate_http_policy policy =
      guard
        (not (
          is_neg policy.timeout_seconds
          || is_neg policy.max_request_bytes
          || is_neg policy.max_response_bytes))
        negative_limits
      >> guard (leb (pos_part policy.timeout_seconds) max_http_timeout_seconds) timeout_too_long
      >> guard
          (is_one_of ([] ∷ codes "disabled" ∷ codes "same-origin" ∷ codes "any" ∷ [])
            policy.redirects)
          (unsupported_redirects policy.redirects)
      >> check_all (λ s. guard (is_status s) (invalid_status s)) policy.success_statuses
      >> check_all (λ t. guard (valid_http_content_type_pattern web t) (invalid_content_type t))
          (policy.allowed_request_content_types ++ policy.allowed_response_content_types)
      >> check_all check_response_header policy.response_headers

  unfoldable pub check_raw_header : Text → ToolChecked
  check_raw_header name =
      guard (valid_http_header_name name) (invalid_header name)
      >> guard (not (is_protected_http_header web name)) (protected_header_named name)

  unfoldable pub validate_http_raw_tool : HttpRawTool → ToolChecked
  unfolding check_raw_header check_all
  validate_http_raw_tool raw =
      guard (not (is_empty (trim_space raw.name))) raw_name_required
      >> check_all (λ m. guard (valid_http_method m) (unsupported_method m)) raw.methods
      >> guard (not (is_empty raw.paths)) raw_paths_required
      >> check_all (λ p. guard (valid_http_path_pattern p) (invalid_pattern p)) raw.paths
      >> check_all check_raw_header raw.request_headers

-- The name of a placeholder that is a whole segment: the first match of the pattern in the segment
-- is all of it.
abbrev pub only_argument : List Piece → Option Text
only_argument (argument name ∷ []) = some name
only_argument _ = none

module _ {N : Type 0} where
  -- The input that a placeholder names.
  unfoldable pub check_path_input : Text → Option (HttpInput N) → ToolChecked
  check_path_input name none = err (path_unknown name)
  check_path_input name (some input) =
      guard ((rule input).required) (path_not_required name)
      >> guard (is_one_of (codes "string" ∷ codes "integer" ∷ []) (rule input).kind)
          (path_not_scalar name)

  -- One round of the loop over the segments of the path.
  unfoldable pub check_path_segment : Map (HttpInput N) → Text → ToolChecked
  unfolding check_path_input pieces
  check_path_segment inputs segment =
      if not (has_byte b'{' segment) && not (has_byte b'}' segment)
      then ok tt
      else elim (only_argument (pieces segment)) [
        | none ↦ err (placeholder_not_whole segment)
        | some name ↦ check_path_input name (lookup name inputs)
      ]

  unfoldable pub check_template_of : Text → Map (HttpInput N) → Value N → ToolChecked
  unfolding validate_http_template
  check_template_of location inputs template = elim (validate_http_template inputs template) [
    | ok u ↦ ok u
    | err e ↦ err (invalid_template location e)
  ]

  -- The loop over the query templates.
  unfoldable pub check_query : Map (HttpInput N) → Fields N → ToolChecked
  unfolding check_template_of
  check_query inputs end = ok tt
  check_query inputs (field name template fs) =
      let rest = check_query inputs fs in
      check_template_of (codes "query." ++ name) inputs template >> rest

module _ (n : Numbers) (web : Web n.Num) where
  -- The loop over the inputs.
  unfoldable pub check_inputs : Map (HttpInput n.Num) → ToolChecked
  unfolding validate_http_input
  check_inputs [] = ok tt
  check_inputs ((name, input) ∷ inputs) =
      let rest = check_inputs inputs in
      guard (is_argument_name name) (invalid_input_name name)
      >> (elim (validate_http_input n input) [ ok u ↦ ok u | err e ↦ err (invalid_input name e) ])
      >> rest

  -- The loop over the header templates.
  unfoldable pub check_header_templates : Map (HttpInput n.Num) → Fields n.Num → ToolChecked
  unfolding check_template_of
  check_header_templates inputs end = ok tt
  check_header_templates inputs (field name template fs) =
      let rest = check_header_templates inputs fs in
      guard (valid_http_header_name name) (invalid_header name)
      >> guard (not (is_protected_http_header web name)) (protected_header_named name)
      >> check_template_of (codes "headers." ++ name) inputs template
      >> rest

  unfoldable pub check_body : Map (HttpInput n.Num) → Option (HttpBody n.Num) → ToolChecked
  unfolding check_template_of
  check_body inputs none = ok tt
  check_body inputs (some body) =
      guard (supported_http_body_content_type web body.content_type)
        (unsupported_body_type body.content_type)
      >> check_template_of (codes "body") inputs body.template

  unfoldable pub validate_http_tool : HttpTool n.Num → ToolChecked
  validate_http_tool tool =
      guard (valid_http_method tool.request.method) (unsupported_method tool.request.method)
      >> guard (valid_http_tool_path tool.request.path) invalid_tool_path
      >> check_inputs tool.inputs
      >> check_all (check_path_segment tool.inputs) (split b'/' tool.request.path)
      >> check_query tool.inputs tool.request.query
      >> check_header_templates tool.inputs tool.request.headers
      >> check_body tool.inputs tool.request.body
