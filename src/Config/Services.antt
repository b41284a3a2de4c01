-- ===== src/Config/Services.antt =====
-- validateHTTPServices, normalizeHTTPServices and ResolveHTTPService of internal/config/http.go,
-- and of internal/config/config.go the whole of validate, and UpsertServer. A configuration is not
-- nil.
pub mod Updating
use mcpshim.Prelude.{
  ℕ, zero, suc, negsuc, Bool, true, false, not, ◌&&◌, ◌||◌, Option, none, some, List, [], ◌∷◌, map,
  if◌then◌else◌, is_empty, Text, codes, text_eq, is_one_of, trim_space, to_upper, Map, Result, ok,
  err, guard, ◌>>=◌, ◌>>◌, check_all, map_err, ℤ, pos,
}
use mcpshim.Value.{Numbers}
use mcpshim.Web.{Web, ParsedUrl}
use mcpshim.Config.Types.{
  McpServer, HttpBody, HttpRequest, HttpTool, HttpRawTool, HttpPolicy, HttpService, Config,
}
use mcpshim.Config.Expand.{Env, expand_env, expand_env_strict}
use mcpshim.Config.Servers.{
  ConfigError, Identifiers, expand_map, claim_identifiers, validate, normalize_transport,
  alias_or_name, replace_server, remove_server,
}
use mcpshim.Config.Headers.{valid_http_header_name, is_unsafe_configured_http_header}
use mcpshim.Config.Tools.{
  ToolError, validate_http_policy, validate_http_raw_tool, validate_http_tool,
}

pub data ServiceError : Type 0 where
  service_name_required base_url_not_absolute base_url_not_http base_url_not_plain : ServiceError
  tool_name_required : ServiceError
  base_url_unset header_not_valid unsafe_header header_unset duplicate_tool : Text → ServiceError
  config_fault : ConfigError → ServiceError
  tool_fault : ToolError → ServiceError

abbrev pub ServiceChecked : Type 0
ServiceChecked = Result ServiceError (Unit {0})

abbrev pub service_alias : {N : Type 0} → HttpService N → Text
service_alias s = if is_empty s.alias then s.name else s.alias

-- What base_url is once it is parsed; `none` is an error of url.Parse.
unfoldable pub check_base_url : Option ParsedUrl → ServiceChecked
check_base_url none = err base_url_not_absolute
check_base_url (some url) =
    guard (not (is_empty url.scheme || is_empty url.host)) base_url_not_absolute
    >> guard (is_one_of (codes "http" ∷ codes "https" ∷ []) url.scheme) base_url_not_http
    >> guard (not (url.has_user || not (is_empty url.raw_query) || not (is_empty url.fragment)))
        base_url_not_plain

-- One round of the loop over the configured headers.
unfoldable pub check_configured_header : {N : Type 0} → Web N → Env → Text × Text → ServiceChecked
unfolding expand_env_strict
check_configured_header web env (name, value) =
    let missing = (expand_env_strict env value).1 in
    guard (valid_http_header_name name) (header_not_valid name)
    >> guard (not (is_unsafe_configured_http_header web name)) (unsafe_header name)
    >> guard (is_empty missing) (header_unset missing)

-- The item that UpsertServer writes.
unfoldable pub normalized_item : McpServer → Result ConfigError McpServer
unfolding normalize_transport
normalized_item item = do
  transport ← normalize_transport item.transport
  ok (record item { transport = transport; alias = alias_or_name item })

-- RemoveServer: the configuration without the server, where there is one.
unfoldable pub remove_config_server : {N : Type 0} → Config N → Text → Option (Config N)
unfolding remove_server
remove_config_server cfg name = elim (remove_server cfg.servers name) [
  | none ↦ none
  | some left ↦ some (record cfg { servers = left })
]

module _ (n : Numbers) (web : Web n.Num) where
  -- The loop over the tools; `names` is the map toolNames.
  unfoldable pub check_tools : List Text → List (HttpTool n.Num) → ServiceChecked
  unfolding validate_http_tool
  check_tools names [] = ok tt
  check_tools names (tool ∷ tools) =
      let rest = check_tools (tool.name ∷ names) tools in
      guard (not (is_empty (trim_space tool.name))) tool_name_required
      >> guard (not (is_one_of names tool.name)) (duplicate_tool tool.name)
      >> map_err tool_fault (validate_http_tool n web tool)
      >> rest

  -- The raw tool of a service, and then the others.
  unfoldable pub check_service_tools : HttpService n.Num → ServiceChecked
  unfolding check_tools validate_http_raw_tool
  check_service_tools service = elim service.raw_tool [
    | none ↦ check_tools [] service.tools
    | some raw ↦
        map_err tool_fault (validate_http_raw_tool web raw)
        >> check_tools (raw.name ∷ []) service.tools
  ]

  -- The body of the loop over the services behind the checks of the identifiers.
  unfoldable pub check_service : Env → HttpService n.Num → ServiceChecked
  unfolding check_base_url check_configured_header check_all check_service_tools
  check_service env service =
      let (resolved, missing) = expand_env_strict env service.base_url in
      guard (is_empty missing) (base_url_unset missing)
      >> check_base_url (web.parse_url (trim_space resolved))
      >> check_all (check_configured_header web env) service.headers
      >> map_err tool_fault (validate_http_policy web service.policy)
      >> check_service_tools service

  unfoldable pub validate_http_service :
      Env → HttpService n.Num → Identifiers → Result ServiceError Identifiers
  unfolding check_service claim_identifiers
  validate_http_service env service ids = do
    guard (not (is_empty (trim_space service.name))) service_name_required
    ids' ← map_err config_fault (claim_identifiers service.name (service_alias service) ids)
    check_service env service
    ok ids'

  -- validateHTTPServices
  unfoldable pub validate_http_services :
      Env → List (HttpService n.Num) → Identifiers → Result ServiceError Identifiers
  unfolding validate_http_service
  validate_http_services env [] ids = ok ids
  validate_http_services env (service ∷ services) ids = do
    ids' ← validate_http_service env service ids
    validate_http_services env services ids'

  -- validate, with the maps of identifiers at its end
  unfoldable pub validate_config : Env → Config n.Num → Result ServiceError Identifiers
  unfolding validate_http_services validate
  validate_config env cfg = do
    ids ← map_err config_fault (validate env cfg.server cfg.servers)
    validate_http_services env cfg.http_services ids

  unfoldable pub upsert_server : Env → Config n.Num → McpServer → Result ServiceError (Config n.Num)
  unfolding validate_config normalized_item replace_server
  upsert_server env cfg item = do
    normalized ← map_err config_fault (normalized_item item)
    _ ← validate_config env (record cfg { servers = replace_server normalized cfg.servers })
    ok (record cfg { servers = replace_server normalized cfg.servers })

abbrev pub get_and_head : List Text
get_and_head = codes "GET" ∷ codes "HEAD" ∷ []

abbrev pub or_default : Text → Text → Text
or_default value fallback = if is_empty value then fallback else value

abbrev pub or_limit : ℤ → ℕ → ℤ
or_limit (pos zero) limit = pos limit
or_limit (pos (suc k)) limit = pos (suc k)
or_limit (negsuc k) limit = negsuc k

unfoldable pub normalize_policy : HttpPolicy → HttpPolicy
normalize_policy policy = record policy {
  timeout_seconds = or_limit policy.timeout_seconds 20;
  max_request_bytes = or_limit policy.max_request_bytes 1048576;
  max_response_bytes = or_limit policy.max_response_bytes 2097152;
  redirects = or_default policy.redirects (codes "same-origin");
}

abbrev pub normalize_method : Text → Text
normalize_method method = to_upper (trim_space method)

unfoldable pub normalize_raw_tool : HttpRawTool → HttpRawTool
unfolding to_upper trim_space
normalize_raw_tool raw = record raw {
  name = or_default raw.name (codes "request");
  methods = map normalize_method (if is_empty raw.methods then get_and_head else raw.methods);
}

module _ {N : Type 0} where
  unfoldable pub normalize_body : HttpBody N → HttpBody N
  normalize_body body = record body {
    content_type = or_default body.content_type (codes "application/json");
  }

  unfoldable pub normalize_request : HttpRequest N → HttpRequest N
  unfolding normalize_body to_upper trim_space
  normalize_request request = record request {
    method = normalize_method request.method;
    body = elim request.body [ none ↦ none | some body ↦ some (normalize_body body) ];
  }

  unfoldable pub normalize_tool : HttpTool N → HttpTool N
  unfolding normalize_request
  normalize_tool tool = record tool { request = normalize_request tool.request }

  unfoldable pub normalize_http_service : HttpService N → HttpService N
  unfolding normalize_policy normalize_raw_tool normalize_tool
  normalize_http_service service = record service {
    alias = service_alias service;
    policy = normalize_policy service.policy;
    raw_tool = elim service.raw_tool [ none ↦ none | some raw ↦ some (normalize_raw_tool raw) ];
    tools = map normalize_tool service.tools;
  }

  -- normalizeHTTPServices
  unfoldable pub normalize_http_services : List (HttpService N) → List (HttpService N)
  unfolding normalize_http_service
  normalize_http_services services = map normalize_http_service services

  unfoldable pub resolve_http_service : Env → HttpService N → HttpService N
  unfolding expand_map
  resolve_http_service env service = record service {
    base_url = trim_space (expand_env env service.base_url);
    headers = expand_map env service.headers;
  }
