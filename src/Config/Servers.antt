-- ===== src/Config/Servers.antt =====
-- internal/config/config.go: the servers of a configuration, how Load normalizes them, what
-- validate asks of them, and how one is replaced or removed. The checks of validateHTTPServices are
-- not here.
pub mod Resolving
use mcpshim.Prelude.{
  Bool, true, false, not, ◌&&◌, ◌||◌, Option, none, some, List, [], ◌∷◌, map, if◌then◌else◌, length,
  is_empty, Text, codes, text_eq, is_one_of, to_lower, trim_space, Map, Result, ok, err, guard,
  ◌>>=◌, ◌>>◌, map_results, ℤ, is_neg,
}
use mcpshim.Config.Types.{McpServer, ServerConfig}
use mcpshim.Config.Expand.{Env, expand_env}

pub data ConfigError : Type 0 where
  negative_history_size name_required command_required url_not_valid headers_not_valid : ConfigError
  url_required command_not_valid : ConfigError
  unsupported_transport : Text → ConfigError
  duplicate_identifier : Text → ConfigError

-- The maps `seen` and `aliases`.
pub record Identifiers : Type 0 where
  pub names : List Text
  pub aliases : List Text

unfoldable pub normalize_transport : Text → Result ConfigError Text
normalize_transport value =
    let cleaned = trim_space (to_lower value) in
    if is_one_of ([] ∷ codes "http" ∷ codes "streamable-http" ∷ []) cleaned
    then ok (codes "http")
    else if text_eq cleaned (codes "sse")
    then ok (codes "sse")
    else if text_eq cleaned (codes "stdio")
    then ok (codes "stdio")
    else err (unsupported_transport value)

abbrev pub alias_or_name : McpServer → Text
alias_or_name s = if is_empty s.alias then s.name else s.alias

-- The body of the loop over the servers in Load.
unfoldable pub normalize_server : McpServer → Result ConfigError McpServer
unfolding normalize_transport
normalize_server s = do
  transport ← normalize_transport s.transport
  ok (record s { transport = transport; alias = alias_or_name s })

unfoldable pub normalize_servers : List McpServer → Result ConfigError (List McpServer)
unfolding normalize_server map_results
normalize_servers servers = map_results normalize_server servers

unfoldable pub expand_map : Env → Map Text → Map Text
unfolding expand_env
expand_map env values = map (λ (name, value). (name, expand_env env value)) values

unfoldable pub resolve_server : Env → McpServer → McpServer
unfolding expand_map
resolve_server env s = record s {
  url = expand_env env s.url;
  headers = expand_map env s.headers;
  command = expand_env env s.command;
  args = map (expand_env env) s.args;
  env = expand_map env s.env;
}

-- The two cases of the switch over the transport in validate.
unfoldable pub check_stdio : McpServer → Result ConfigError (Unit {0})
check_stdio s = do
  guard (not (is_empty s.command)) command_required
  guard (is_empty s.url) url_not_valid
  guard (is_empty s.headers && is_empty s.headers_helper) headers_not_valid

unfoldable pub check_remote : Env → McpServer → Result ConfigError (Unit {0})
check_remote env s = do
  guard (not (is_empty (trim_space (expand_env env s.url)))) url_required
  guard (is_empty s.command && is_empty s.args && is_empty s.env) command_not_valid

unfoldable pub check_transport : Env → McpServer → Text → Result ConfigError (Unit {0})
unfolding check_stdio check_remote
check_transport env s transport =
    if text_eq transport (codes "stdio") then check_stdio s else check_remote env s

-- seen[name] || aliases[name]
unfoldable pub is_taken : Identifiers → Text → Bool
unfolding is_one_of
is_taken ids name = is_one_of ids.names name || is_one_of ids.aliases name

-- The checks of the identifiers of one server, and the maps after it.
unfoldable pub claim_identifiers : Text → Text → Identifiers → Result ConfigError Identifiers
unfolding is_taken
claim_identifiers name alias ids = do
  guard (not (is_taken ids name)) (duplicate_identifier name)
  guard (text_eq alias name || not (is_taken ids alias)) (duplicate_identifier alias)
  ok (record { names = name ∷ ids.names; aliases = alias ∷ ids.aliases })

unfoldable pub validate_server : Env → McpServer → Identifiers → Result ConfigError Identifiers
validate_server env s ids = do
  guard (not (is_empty s.name)) name_required
  transport ← normalize_transport s.transport
  check_transport env s transport
  claim_identifiers s.name (alias_or_name s) ids

-- The loop over the servers in validate.
unfoldable pub validate_servers :
    Env → List McpServer → Identifiers → Result ConfigError Identifiers
unfolding validate_server
validate_servers env [] ids = ok ids
validate_servers env (s ∷ servers) ids = do
  ids' ← validate_server env s ids
  validate_servers env servers ids'

-- validate, up to its call of validateHTTPServices
unfoldable pub validate : Env → ServerConfig → List McpServer → Result ConfigError Identifiers
unfolding validate_servers
validate env server servers = do
  guard (not (is_neg server.history_size)) negative_history_size
  validate_servers env servers (record { names = []; aliases = [] })

-- The servers of the candidate that UpsertServer builds.
unfoldable pub replace_server : McpServer → List McpServer → List McpServer
replace_server item [] = item ∷ []
replace_server item (s ∷ servers) =
    if text_eq s.name item.name then item ∷ servers else s ∷ replace_server item servers

-- RemoveServer: the servers left, where one has the name.
unfoldable pub remove_server : List McpServer → Text → Option (List McpServer)
remove_server [] name = none
remove_server (s ∷ servers) name =
    let rest = remove_server servers name in
    if text_eq s.name name
    then some servers
    else elim rest [ none ↦ none | some left ↦ some (s ∷ left) ]
