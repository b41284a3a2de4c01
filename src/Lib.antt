-- ===== src/Lib.antt =====
-- A model of mcpshim, the daemon that exposes MCP servers and HTTP services as command line tools,
-- and what its operations promise.
--
-- The program. internal/config reads the configuration: servers, HTTP services with their tools, and
-- the references to environment variables in them. internal/mcp keeps a registry with the tools and
-- the health of each server, and retries refreshes that fail. internal/httpbinding turns a call of
-- an HTTP service's tool into a request. internal/store keeps the call history and the OAuth state
-- in SQLite. internal/server answers the command line client of internal/client on a socket, changes
-- the configuration for it, and writes the manifest that internal/manifest renders.
--
-- The files.
--   Prelude            Booleans, lists, texts as bytes, association lists for Go's maps, integers
--                      and results, with their lemmas.
--   Value              interface{} as JSON and YAML decode it, over a record of Go's numbers.
--   Web                what the program uses of Go's net/http, net/url, mime and encoding/json.
--   Config/Expand      internal/config/expand.go (expandEnv, expandEnvStrict).
--   Config/Types       the types of internal/config/config.go and http.go.
--   Config/Servers     the servers in internal/config/config.go (normalizeTransport, ResolveServer,
--                      the checks of validate on servers, RemoveServer).
--   Config/Loading     the paths, Load and Save of internal/config/config.go.
--   Config/Headers, Inputs, Template, Tools, Services
--                      internal/config/http.go (validateHTTPInput, validateHTTPTemplate,
--                      validateHTTPPolicy, validateHTTPTool, validateHTTPServices,
--                      normalizeHTTPServices), and UpsertServer of config.go.
--   HttpBinding/Escape url.PathEscape and url.PathUnescape of Go's net/url, by their documentation.
--   HttpBinding/Paths, Segments, Arguments, Requests, Calls, Responses, Listing
--                      internal/httpbinding/httpbinding.go (canonicalizeRawPath, renderTypedPath,
--                      matchesAnyPath, validateTypedArguments, compileRawRequest,
--                      compileTypedRequest, Call, execute around client.Do, ListTools, InspectTool).
--   HttpBinding/Format, Template
--                      internal/httpbinding/template.go (RenderTemplate).
--   Mcp/State          internal/mcp/state.go (serverState, backoffDelay).
--   Mcp/Registry       internal/mcp/mcp.go (Registry with Refresh, RefreshPeriodic, UpdateConfig and
--                      the goroutines of scheduleBackoffRetry).
--   Mcp/Overview       internal/mcp/mcp.go (Servers, Health, ListTools, ToolCount, InspectTool,
--                      resolveHeaders) and the tests for a login of internal/mcp/oauth.go.
--   Mcp/Login          internal/mcp/oauth.go (runWithOAuthFallback, completeOAuthFlow,
--                      readManualOAuthInput), with what a run does as a list of events.
--   Mcp/Resources      internal/mcp/resource.go, the resource indicators of a login.
--   Mcp/Sessions       internal/server/session.go and internal/mcp/session.go, the connection of a
--                      request and its elicitations.
--   Store/History, Store/Tokens
--                      internal/store/sqlite.go, each SQL statement by its effect on the rows.
--   Daemon             internal/server/server.go (logout, re-pointing on add_server and reload) and
--                      internal/mcp/token_store.go.
--   Daemon/Changes     internal/server/server.go (handleRegistryChange, applyRegistryChange and the
--                      reload), as steps on the daemon's configuration, registry and store.
--   Client/Arguments, Aliases, Display
--                      internal/client/client.go (parseCallArgs, parseDynamicArgsForProperties,
--                      buildAliasTargets, shellQuote, installAliasScripts, promptElicitation and the
--                      texts that are printed).
--   Manifest           internal/manifest/manifest.go, ManifestSnapshot of internal/mcp/mcp.go, and
--                      internal/server/manifest.go (atomicWrite).
--   Examples           the theorems at concrete inputs.
--
-- How it is modelled. A text is the list of its bytes, and a Go map an association list that is
-- walked in its order. An error is a constructor, without its message. The environment, the
-- network's answers, the hash of a URL, decoded files and what Go's libraries do with headers, URLs
-- and media types are arguments, and so is how a call of the database or of the operating system
-- or a write to a connection ends. The mutexes make each operation one step; the goroutines that wait for a retry are a list,
-- and a step fires one whose channel is open.
--
-- Fuel. The loop of expandEnvStrict runs on the length of the text, since each round consumes a
-- byte, and what stands for spent fuel is a parameter that does not matter. A template is walked on
-- the levels left, 65, as the code counts depth from 0 to 64. The test for path traversal unescapes
-- four times, as the code does. The digits of a number run on the number.
--
-- Not modelled: the sending of a request in execute; calls, resources, prompts and schemas, which
-- go through the MCP client library; runOAuthLogin and the HTTP server that waits for the callback
-- of a login; YAML, files and sockets; the schema of the database; the flags and the output of the
-- other commands of the client; and the functions that clone a value, which a pure model does not
-- tell apart.
pub mod Prelude
pub mod Config
pub mod Value
pub mod Web
pub mod HttpBinding
pub mod Mcp
pub mod Store
pub mod Daemon
pub mod Client
pub mod Manifest
pub mod Examples
