-- ===== src/Mcp/Overview.antt =====
-- What internal/mcp/mcp.go answers from the registry: Servers, Health, ToolCount, ListTools,
-- InspectTool and RefreshServer, with the headers of a server and the tests of
-- internal/mcp/oauth.go for a login. Upstream servers answer by arguments. Times are numbers, and 0
-- is the zero time.
pub mod Counting
use mcpshim.Prelude.{
  ℕ, ◌+◌, Bool, true, false, not, ◌&&◌, ◌||◌, Option, none, some, List, [], ◌∷◌, ◌++◌, map, any,
  if◌then◌else◌, is_empty, length, Text, codes, text_eq, Map, lookup, insert, sort_by, text_less,
  ◌==◌,
}
use mcpshim.Config.Types.{McpServer, HttpService, Config}
use mcpshim.Mcp.State.{
  Status, unknown, healthy, degraded, failed, auth_required, is_auth_required, ServerState, Time,
}
use mcpshim.Mcp.Registry.{Registry, Answer, tools, failure, Network, find_server, refresh_server}
use mcpshim.HttpBinding.Listing.{ToolInfo, ToolDetail, list_tools, inspect_tool}

-- The constants of Status.
unfoldable pub status_text : Status → Text
status_text unknown = codes "unknown"
status_text healthy = codes "healthy"
status_text degraded = codes "degraded"
status_text failed = codes "failed"
status_text auth_required = codes "auth_required"

-- protocol.ServerInfo
pub record ServerInfo : Type 0 where
  pub name : Text
  pub alias : Text
  pub kind : Text
  pub url : Text
  pub transport : Text
  pub has_auth : Bool
  pub status : Text
  pub last_error : Text
  pub last_success_at : Time
  pub attempt_count : ℕ

-- hasAuthorizationHeader; the function is http.CanonicalHeaderKey
unfoldable pub has_authorization_header : (Text → Text) → Map Text → Bool
has_authorization_header canonical_header_key headers =
    any headers (λ (key, value). text_eq (canonical_header_key key) (codes "Authorization"))

-- shouldTryOAuthFallback: an error, and whether it is transport.ErrUnauthorized
unfoldable pub should_try_oauth_fallback : (Text → Text) → McpServer → Option Bool → Bool
unfolding has_authorization_header
should_try_oauth_fallback canonical_header_key s none = false
should_try_oauth_fallback canonical_header_key s (some unauthorized) =
    not (has_authorization_header canonical_header_key s.headers) && unauthorized

-- envMapToList
unfoldable pub env_map_to_list : Map Text → List Text
env_map_to_list env = map (λ (name, value). name ++ codes "=" ++ value) env

unfoldable pub add_headers : Map Text → Map Text → Map Text
add_headers [] headers = headers
add_headers ((name, value) ∷ given) headers = add_headers given (insert name value headers)

-- resolveHeaders; `helped` is what the helper prints, or none where it fails
unfoldable pub resolve_headers : Option (Map Text) → McpServer → Option (Map Text)
unfolding add_headers
resolve_headers helped s =
    let headers = add_headers s.headers [] in
    if is_empty s.headers_helper
    then some headers
    else elim helped [ none ↦ none | some dynamic ↦ some (add_headers dynamic headers) ]

-- The fields of a state that Servers copies.
abbrev with_state : Option ServerState → ServerInfo → ServerInfo
with_state none info = info
with_state (some st) info = record info {
  status = status_text st.status;
  last_error = st.last_error;
  last_success_at = st.last_success_at;
  attempt_count = st.attempt_count;
}

-- m[k]++
unfoldable pub bump : Text → Map ℕ → Map ℕ
bump k [] = (k, 1) ∷ []
bump k ((j, n) ∷ m) = let rest = bump k m in if text_eq j k then (j, n + 1) ∷ m else (j, n) ∷ rest

-- The status that Health counts for a server.
abbrev pub status_of : Map ServerState → Text → Status
status_of states name = elim (lookup name states) [ none ↦ unknown | some st ↦ st.status ]

-- The loop of Health.
unfoldable pub health_of : Map ServerState → List McpServer → Map ℕ → List Text → Map ℕ × List Text
unfolding bump status_text lookup
health_of states [] counts blocked = (counts, blocked)
health_of states (s ∷ servers) counts blocked =
    let status = status_of states s.name in
    health_of states servers (bump (status_text status) counts)
      (if is_auth_required status then blocked ++ (s.name ∷ []) else blocked)

-- findHTTPService
unfoldable pub find_http_service :
    {N : Type 0} → List (HttpService N) → Text → Option (HttpService N)
find_http_service [] name_or_alias = none
find_http_service (service ∷ services) name_or_alias =
    if text_eq service.name name_or_alias || text_eq service.alias name_or_alias
    then some service
    else find_http_service services name_or_alias

unfoldable pub server_info : (Text → Text) → Map ServerState → McpServer → ServerInfo
unfolding has_authorization_header lookup status_text
server_info canonical_header_key states s = with_state (lookup s.name states) (record {
  name = s.name;
  alias = s.alias;
  kind = codes "mcp";
  url = s.url;
  transport = s.transport;
  has_auth = has_authorization_header canonical_header_key s.headers;
  status = [];
  last_error = [];
  last_success_at = 0;
  attempt_count = 0;
})

unfoldable pub service_info : {N : Type 0} → (Text → Text) → HttpService N → ServerInfo
unfolding has_authorization_header
service_info canonical_header_key service = record {
  name = service.name;
  alias = service.alias;
  kind = codes "http";
  url = service.base_url;
  transport = codes "http";
  has_auth = has_authorization_header canonical_header_key service.headers;
  status = [];
  last_error = [];
  last_success_at = 0;
  attempt_count = 0;
}

-- Servers
unfoldable pub servers_of :
    {N : Type 0} → (Text → Text) → Config N → Map ServerState → List ServerInfo
unfolding server_info service_info
servers_of canonical_header_key cfg states =
    sort_by (λ info. info.name)
      (map (server_info canonical_header_key states) cfg.servers
        ++ map (service_info canonical_header_key) cfg.http_services)

-- Health
unfoldable pub health : {A : Type 0} → Registry A → Map ℕ × List Text
unfolding health_of
health r = health_of r.states r.servers [] []

-- RefreshServer: the registry after it; `none` is an unknown server
unfoldable pub refresh_named :
    {A : Type 0} → Text → (McpServer → Answer A) → Time → Registry A → Option (Registry A)
refresh_named name answers now r = elim (find_server r.servers name) [
  | none ↦ none
  | some s ↦ some (refresh_server s (answers s) now r)
]

-- ToolCount
unfoldable pub tool_count : Map (List ToolInfo) → ℕ
tool_count [] = 0
tool_count ((name, items) ∷ cache) = length items + tool_count cache

-- The order of ListTools: by server, and then by name.
unfoldable pub listed_before : ToolInfo → ToolInfo → Bool
unfolding text_less
listed_before a b =
    if text_eq a.server b.server then text_less a.name b.name else text_less a.server b.server

-- sort.Slice with that order
unfoldable pub insert_listed : ToolInfo → List ToolInfo → List ToolInfo
unfolding listed_before
insert_listed a [] = a ∷ []
insert_listed a (b ∷ items) =
    let rest = insert_listed a items in if listed_before b a then b ∷ rest else a ∷ b ∷ items

unfoldable pub sort_listed : List ToolInfo → List ToolInfo
unfolding insert_listed
sort_listed [] = []
sort_listed (a ∷ items) = insert_listed a (sort_listed items)

-- The tools of the servers that answer.
unfoldable pub answered_tools : Network (List ToolInfo) → List McpServer → List ToolInfo
answered_tools answers [] = []
answered_tools answers (s ∷ servers) =
    let rest = answered_tools answers servers in
    elim (answers s) [ tools items ↦ items ++ rest | failure message login ↦ rest ]

module _ {N : Type 0} where
  unfoldable pub configured_tools : List (HttpService N) → List ToolInfo
  unfolding list_tools
  configured_tools [] = []
  configured_tools (service ∷ services) = list_tools service ++ configured_tools services

  -- ListTools; `none` is an error, of a server or of its name
  unfoldable pub registry_tools : Network (List ToolInfo) → Config N → Text → Option (List ToolInfo)
  unfolding find_http_service answered_tools configured_tools sort_listed
  registry_tools answers cfg server =
      if is_empty server
      then some
          (sort_listed (answered_tools answers cfg.servers ++ configured_tools cfg.http_services))
      else elim (find_server cfg.servers server) [
        | some s ↦ elim (answers s) [ tools items ↦ some items | failure message login ↦ none ]
        | none ↦ elim (find_http_service cfg.http_services server) [
          | some service ↦ some (list_tools service)
          | none ↦ none
        ]
      ]

  -- InspectTool, for a server that is an HTTP service; `upstream` asks another one.
  unfoldable pub inspect_registered :
      (McpServer → Text → Option ToolDetail) → Config N → Text → Text → Option ToolDetail
  unfolding find_http_service inspect_tool
  inspect_registered upstream cfg server tool = elim (find_server cfg.servers server) [
    | some s ↦ upstream s tool
    | none ↦ elim (find_http_service cfg.http_services server) [
      | some service ↦ inspect_tool service tool
      | none ↦ none
    ]
  ]
