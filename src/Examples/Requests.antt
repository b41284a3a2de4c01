-- ===== src/Examples/Requests.antt =====
-- A raw request that is compiled.
use mcpshim.Prelude.{
  ℕ, ◌≡◌, refl, true, false, not, ◌&&◌, ◌||◌, ◌==◌, any, some, [], ◌∷◌, Text, codes, text_eq, Map,
  lookup, ok, pos, is_one_of, trim_space, contains_any, has_byte, has_prefix, has_suffix, insert,
  is_space, join, lower_byte, split, to_lower, to_upper, trim_both, trim_left, upper_byte,
}
use mcpshim.Value.{str, obj, Fields, field, end, natural, get, scalar_string}
use mcpshim.Web.{ParsedUrl}
use mcpshim.Config.Types.{HttpPolicy, HttpRawTool}
use mcpshim.HttpBinding.Paths.{
  canonicalize_raw_path, canonicalize_trimmed, is_dots, is_rooted, path_segment_traverses,
  traverses_within, trim_prefix_byte, trim_suffix_byte,
}
use mcpshim.HttpBinding.Segments.{matches_any_path, match_path_segments, split_path_segments}
use mcpshim.HttpBinding.Requests.{
  Web, RequestPlan, compile_raw_request, normalized_methods, effective_policy, exceeds, body_size,
  content_type_allowed, protected_header, is_allowed_header, service_headers, allows_type,
  check_raw_arguments, checked_path, encode_body, given_headers, is_json_content_type,
  normalized_content_type, query_items, query_map, query_value, raw_body, raw_content_type,
  raw_headers, raw_method, raw_path, raw_query, set_headers, validate_request_policy,
}
use mcpshim.HttpBinding.Requests.Gate.{compile_raw_request-gated, compile_raw_request-headers}
use mcpshim.HttpBinding.Escape.{
  escape_byte, hex_digit, is_hex, is_literal, path_escape, path_unescape, unhex,
}

abbrev pub example_url : ParsedUrl
example_url = record {
  scheme = codes "https";
  host = codes "a";
  has_user = false;
  path = [];
  escaped_path = [];
  raw_query = [];
  fragment = [];
}

abbrev pub plain_web : Web ℕ
plain_web = record {
  canonical_header_key = λ name. name;
  media_type = λ t. some t;
  marshal = λ v. some (codes "{}");
  equal_fold = text_eq;
  parse_url = λ t. some example_url;
}

abbrev pub free_policy : HttpPolicy
free_policy = record {
  timeout_seconds = pos 0;
  max_request_bytes = pos 0;
  max_response_bytes = pos 0;
  redirects = [];
  allowed_request_content_types = [];
  allowed_response_content_types = [];
  success_statuses = [];
  response_headers = [];
}

abbrev notes_tool : HttpRawTool
notes_tool = record {
  name = codes "request";
  description = [];
  methods = codes "GET" ∷ codes "POST" ∷ [];
  paths = codes "/v1/**" ∷ [];
  request_headers = codes "Accept" ∷ [];
}

abbrev service_token : Map Text
service_token = (codes "Authorization", codes "t") ∷ []

abbrev notes_arguments : Fields ℕ
notes_arguments = field (codes "method") (str (codes "post")) (
    field (codes "path") (str (codes "/v1/n")) (
      field (codes "headers") (obj (field (codes "Accept") (str (codes "*")) end))
        (field (codes "body") (str (codes "x")) end)))

abbrev notes_plan : RequestPlan
notes_plan = record {
  method = codes "POST";
  escaped_path = codes "/v1/n";
  decoded_path = codes "/v1/n";
  query = [];
  headers = (codes "Authorization", codes "t") ∷ (codes "Accept", codes "*") ∷ [];
  body = some (codes "{}");
  content_type = codes "application/json";
}

notes_run :
    compile_raw_request natural plain_web free_policy service_token notes_tool notes_arguments
    ≡ ok notes_plan
unfolding compile_raw_request check_raw_arguments is_one_of raw_method get trim_space
    normalized_methods to_upper raw_path canonicalize_raw_path is_rooted has_prefix contains_any
    path_unescape split path_segment_traverses traverses_within is_dots escape_byte hex_digit is_hex
    is_literal path_escape unhex canonicalize_trimmed trim_prefix_byte trim_suffix_byte allows_type
    checked_path content_type_allowed effective_policy encode_body given_headers is_allowed_header
    is_json_content_type normalized_content_type protected_header query_items query_map query_value
    raw_body raw_content_type raw_headers raw_query service_headers set_headers
    validate_request_policy match_path_segments matches_any_path split_path_segments insert has_byte
    has_suffix is_space join lower_byte text_eq to_lower trim_both trim_left upper_byte
    scalar_string
notes_run = refl

authorization_protected :
    (not (protected_header natural plain_web (codes "Authorization"))
      && is_allowed_header natural plain_web notes_tool.request_headers (codes "Authorization"))
    ≡ false
unfolding protected_header is_allowed_header is_one_of trim_space
authorization_protected = refl

compile_raw_request_example :
    (any (normalized_methods notes_tool.methods) (λ m. plain_web.equal_fold m notes_plan.method)
      ≡ true)
    × ((given : Text) × (get (codes "path") notes_arguments ≡ some (str given))
        × (canonicalize_raw_path given ≡ ok (notes_plan.escaped_path, notes_plan.decoded_path))
        × (matches_any_path notes_tool.paths notes_plan.decoded_path ≡ true))
    × (exceeds (body_size notes_plan.body) (effective_policy free_policy).max_request_bytes ≡ false)
    × ((body_size notes_plan.body == 0
          || content_type_allowed natural plain_web notes_plan.content_type
              free_policy.allowed_request_content_types)
        ≡ true)
compile_raw_request_example =
    compile_raw_request-gated natural plain_web free_policy service_token notes_tool notes_arguments
      notes_plan notes_run

compile_raw_request_headers_example :
    lookup (codes "Authorization") notes_plan.headers
    ≡ lookup (codes "Authorization") (service_headers natural plain_web service_token [])
compile_raw_request_headers_example =
    compile_raw_request-headers natural plain_web free_policy service_token notes_tool
      notes_arguments notes_plan (codes "Authorization") (λ x. refl) notes_run
      authorization_protected
