-- ===== src/Examples/Services.antt =====
-- A service that is configured, and calls of its tools.
use mcpshim.Prelude.{
  ℕ, ◌≡◌, refl, true, false, none, some, [], ◌∷◌, Text, codes, text_eq, Map, lookup, ok, pos, any,
  is_some, All, trim_space, check_all, contains_any, has_byte, has_prefix, has_suffix, is_one_of,
  is_space, lower_byte, split, to_lower, to_upper, trim_both, trim_left, upper_byte, map_results,
  insert, join,
}
use mcpshim.Value.{str, num, obj, field, end, natural, get, omits, put, scalar_string}
use mcpshim.Config.Types.{HttpInput, plain, HttpTool, HttpRawTool, HttpService, McpServer, Config}
use mcpshim.Config.Expand.{expand_env}
use mcpshim.Config.Inputs.{
  validate_http_input, check_bounds, check_default, check_input_default, contains_http_string,
  default_elements, default_slice, is_at_least, is_at_most, is_in_enum, is_of_type,
  validate_http_input_default,
}
use mcpshim.Config.Inputs.Defaults.{validate_http_input-default}
use mcpshim.Config.Headers.{
  is_protected_http_header, is_header_byte, supported_http_body_content_type,
  valid_http_header_name, valid_http_method, is_unsafe_configured_http_header,
}
use mcpshim.Config.Tools.{
  validate_http_tool, check_body, check_header_templates, check_inputs, check_path_input,
  check_path_segment, check_query, check_template_of, validate_http_policy,
}
use mcpshim.Config.Servers.{Identifiers, replace_server, check_transport}
use mcpshim.Config.Servers.Resolving.{IsFound}
use mcpshim.Config.Services.{validate_http_service, validate_config, upsert_server, normalized_item}
use mcpshim.Config.Services.Updating.{upsert_server-valid}
use mcpshim.HttpBinding.Arguments.{
  validate_input_value, fill_input, fill_inputs, validate_typed_arguments,
}
use mcpshim.HttpBinding.Requests.{
  RequestPlan, service_headers, effective_policy, query_value, validate_request_policy,
}
use mcpshim.HttpBinding.Calls.{
  compile_typed_request, find_tool, raw_tool_named, render_query, render_headers, typed_body,
}
use mcpshim.HttpBinding.Calls.Compiled.{compile_typed_request-headers}
use mcpshim.HttpBinding.Calls.Dispatch.{IsCompiled, call-IsCompiled}
use mcpshim.HttpBinding.Listing.{list_tools, inspect_tool}
use mcpshim.HttpBinding.Listing.Inspected.{is_called, list_tools-inspect_tool}
use mcpshim.Examples.Requests.{plain_web, free_policy}
use mcpshim.Examples.Configs.{one_variable, notes_server}
use mcpshim.HttpBinding.Paths.{
  is_dots, is_rooted, path_segment_traverses, traverses_within, valid_http_tool_path,
  valid_tool_segment, is_placeholder, render_typed_path, valid_http_path_pattern,
  valid_pattern_segment,
}
use mcpshim.HttpBinding.Escape.{is_hex, path_unescape, unhex, escape_byte, is_literal, path_escape}
use mcpshim.HttpBinding.Format.{
  is_argument_name, is_name_byte, is_name_start, match_argument, match_name, pieces, pieces_within,
}
use mcpshim.Config.Template.{
  check_argument, check_fields, check_format, check_format_value, check_items, check_match,
  check_option, check_options, is_supplied, validate_http_template, validate_template,
}
use mcpshim.HttpBinding.Template.{render_template}

abbrev page_input : HttpInput ℕ
page_input = plain (record {
  kind = codes "integer";
  description = [];
  required = false;
  default = num 1;
  enum = [];
  minimum = some 1;
  maximum = none;
})

page_valid : validate_http_input natural page_input ≡ ok tt
unfolding validate_http_input is_one_of check_input_default validate_http_input_default
page_valid = refl

validate_http_input_default_example : validate_input_value natural page_input (num 1) ≡ ok tt
validate_http_input_default_example = validate_http_input-default natural page_input page_valid refl

abbrev list_tool : HttpTool ℕ
list_tool = record {
  name = codes "list";
  description = [];
  request = record {
    method = codes "GET";
    path = codes "/v";
    query = field (codes "p") (obj (field (codes "$arg") (str (codes "page")) end)) end;
    headers = field (codes "X-A") (str (codes "b")) end;
    body = none;
  };
  inputs = (codes "page", page_input) ∷ [];
}

abbrev raw_tool : HttpRawTool
raw_tool = record {
  name = codes "request";
  description = [];
  methods = codes "GET" ∷ [];
  paths = codes "/v/*" ∷ [];
  request_headers = [];
}

abbrev tokens : Map Text
tokens = (codes "Authorization", codes "t") ∷ []

abbrev pub list_service : HttpService ℕ
list_service = record {
  name = codes "web";
  alias = codes "w";
  description = [];
  base_url = codes "https://a";
  headers = tokens;
  policy = free_policy;
  raw_tool = some raw_tool;
  tools = list_tool ∷ [];
}

abbrev list_plan : RequestPlan
list_plan = record {
  method = codes "GET";
  escaped_path = codes "/v";
  decoded_path = codes "/v";
  query = (codes "p", 1 ∷ []) ∷ [];
  headers = (codes "Authorization", codes "t") ∷ (codes "X-A", codes "b") ∷ [];
  body = none;
  content_type = [];
}

list_valid : validate_http_tool natural plain_web list_tool ≡ ok tt
unfolding validate_http_tool valid_http_method is_one_of to_upper trim_space valid_http_tool_path
    is_rooted has_prefix contains_any split valid_tool_segment path_unescape path_segment_traverses
    traverses_within is_dots check_inputs is_argument_name is_header_byte is_protected_http_header
    supported_http_body_content_type valid_http_header_name check_bounds check_default
    check_input_default contains_http_string default_elements default_slice is_at_least is_at_most
    is_in_enum is_of_type validate_http_input validate_http_input_default check_argument
    check_fields check_format check_format_value check_items check_match check_option check_options
    is_supplied validate_http_template validate_template check_body check_header_templates
    check_path_input check_path_segment check_query check_template_of is_hex unhex is_name_byte
    is_name_start match_argument match_name pieces pieces_within lookup check_all has_byte
    has_suffix is_space lower_byte text_eq to_lower trim_both trim_left upper_byte get omits
list_valid = refl

list_run : compile_typed_request natural plain_web free_policy tokens list_tool end ≡ ok list_plan
unfolding compile_typed_request validate_typed_arguments fill_inputs fill_input get
    validate_input_value text_eq render_typed_path map_results split is_placeholder has_prefix
    path_unescape render_query render_template trim_space put query_value scalar_string
    render_headers typed_body validate_request_policy effective_policy to_upper join insert
    path_escape service_headers escape_byte is_literal
list_run = refl

authorization_trimmed : trim_space (codes "Authorization") ≡ codes "Authorization"
unfolding trim_space
authorization_trimmed = refl

authorization_protected : is_protected_http_header plain_web (codes "Authorization") ≡ true
unfolding is_protected_http_header is_one_of trim_space
authorization_protected = refl

compile_typed_request_headers_example :
    lookup (codes "Authorization") list_plan.headers
    ≡ lookup (codes "Authorization") (service_headers natural plain_web tokens [])
compile_typed_request_headers_example =
    compile_typed_request-headers natural plain_web free_policy tokens list_tool end list_plan
      (codes "Authorization") (λ x e. e) list_valid list_run authorization_trimmed refl
      authorization_protected

abbrev no_ids : Identifiers
no_ids = record { names = []; aliases = [] }

abbrev web_ids : Identifiers
web_ids = record { names = codes "web" ∷ []; aliases = codes "w" ∷ [] }

service_valid :
    validate_http_service natural plain_web one_variable list_service no_ids ≡ ok web_ids
unfolding validate_http_service trim_space valid_http_header_name is_unsafe_configured_http_header
    validate_http_policy valid_http_method to_upper valid_http_path_pattern is_rooted has_prefix
    contains_any split valid_pattern_segment path_segment_traverses traverses_within is_dots
    path_unescape valid_http_tool_path valid_tool_segment check_inputs is_argument_name
    check_input_default validate_http_input_default check_path_segment check_query get lookup
    check_header_templates is_protected_http_header check_body
service_valid = refl

call_example : All (IsCompiled natural plain_web one_variable list_service end) list_service.tools
call_example =
    call-IsCompiled natural plain_web one_variable list_service no_ids web_ids end service_valid

list_tools_example :
    any (list_tools list_service) (is_called (codes "list"))
    ≡ is_some (inspect_tool list_service (codes "list"))
list_tools_example = list_tools-inspect_tool list_service (codes "list")

listed_run : is_some (inspect_tool list_service (codes "list")) ≡ true
unfolding inspect_tool raw_tool_named text_eq trim_space find_tool
listed_run = refl

abbrev pub example_config : Config ℕ
example_config = record {
  server = record {
    socket_path = codes "s";
    db_path = codes "d";
    manifest_path = codes "m";
    history_size = pos 10;
    allow_registry_writes = true;
  };
  servers = notes_server ∷ [];
  http_services = list_service ∷ [];
}

abbrev pub moved_server : McpServer
moved_server = record notes_server { url = codes "https://b" }

abbrev moved_config : Config ℕ
moved_config = record example_config { servers = moved_server ∷ [] }

moved_run :
    upsert_server natural plain_web one_variable example_config moved_server ≡ ok moved_config
unfolding upsert_server trim_space to_lower check_transport expand_env valid_http_header_name
    is_unsafe_configured_http_header validate_http_policy valid_http_method to_upper
    valid_http_path_pattern is_rooted has_prefix contains_any split valid_pattern_segment
    path_segment_traverses traverses_within is_dots path_unescape valid_http_tool_path
    valid_tool_segment check_inputs is_argument_name check_input_default validate_http_input_default
    check_path_segment check_query get lookup check_header_templates is_protected_http_header
    check_body
moved_run = refl

upsert_server_example :
    (stored : McpServer) × (ids : Identifiers) × (normalized_item moved_server ≡ ok stored)
    × (validate_config natural plain_web one_variable moved_config ≡ ok ids)
    × (moved_config
        ≡ record example_config { servers = replace_server stored example_config.servers })
    × All (IsFound moved_config.servers) moved_config.servers
    × IsFound moved_config.servers stored
upsert_server_example =
    upsert_server-valid natural plain_web one_variable example_config moved_config moved_server
      moved_run
