-- ===== src/Manifest.antt =====
-- internal/manifest/manifest.go, and the snapshot in internal/mcp/mcp.go that it renders. A
-- manifest is rendered as the list of what is written line by line, which may hold newlines itself,
-- and then as a text; the writer is the buffer of internal/server/manifest.go, which
-- never fails. The time of generation is a formatted argument.
pub mod Texts
pub mod Lines
pub mod Files
use mcpshim.Prelude.{
  ℕ, Bool, true, false, not, ◌&&◌, ◌||◌, Option, none, some, List, [], ◌∷◌, ◌++◌, map,
  if◌then◌else◌, is_empty, length, Text, codes, text_eq, is_one_of, Map, lookup, ◌==◌, insert,
}
use mcpshim.Config.Types.{McpServer, HttpService, Config}
use mcpshim.Mcp.State.{ServerState}
use mcpshim.Mcp.Registry.{Registry}
use mcpshim.Mcp.Overview.{ServerInfo, server_info, service_info}
use mcpshim.HttpBinding.Listing.{ToolInfo}
use mcpshim.Client.Aliases.{decimal}
use mcpshim.Manifest.Texts.{
  summarize, one_line, optionals, join_backticked, backticked, sorted_keys, shell_safe, dash, dot,
  warning,
}

-- Snapshot
pub record Snapshot : Type 0 where
  pub generated : Text
  pub servers : List ServerInfo
  pub tools : Map (List ToolInfo)
  pub config_by : Map McpServer

-- Or the text of the second argument where the first is empty.
abbrev pub or_text : Text → Text → Text
or_text s fallback = if is_empty s then fallback else s

-- The line, where the condition holds.
abbrev pub line_if : Bool → Text → List Text
line_if b line = if b then line ∷ [] else []

unfoldable pub command_text : Text → List Text → Text
unfolding shell_safe
command_text cmd [] = cmd
command_text cmd (a ∷ args) = command_text (cmd ++ codes " " ++ shell_safe a) args

-- The lines for how a server is reached.
unfoldable pub endpoint_lines : ServerInfo → McpServer → List Text
unfolding command_text join_backticked sorted_keys
endpoint_lines s mcp =
    if text_eq s.transport (codes "stdio")
    then if is_empty mcp.command
      then []
      else (codes "Command: `" ++ command_text mcp.command mcp.args ++ codes "`")
          ∷ line_if (not (is_empty mcp.env))
              (codes "Env keys: " ++ join_backticked (sorted_keys (map (λ (k, v). k) mcp.env)))
        ++ ([] ∷ [])
    else if is_empty s.url
    then []
    else (codes "Endpoint: `" ++ s.url ++ codes "`")
        ∷ (if s.has_auth
            then codes "Auth: pre-set Authorization header" ∷ []
            else line_if (not (is_empty mcp.headers_helper))
                (codes "Auth: dynamic via headers_helper"))
      ++ ([] ∷ [])

-- The lines for a status that needs attention.
unfoldable pub status_lines : ServerInfo → Text → List Text
unfolding one_line
status_lines s status =
    if text_eq status (codes "auth_required")
    then (codes "> "
        ++ warning
        ++ codes " Auth required. Run `mcpshim login --server "
        ++ s.name
        ++ codes "` (add `--manual` for cross-device).")
      ∷ []
      ∷ []
    else if is_one_of (codes "failed" ∷ codes "degraded" ∷ []) status && not (is_empty s.last_error)
    then (codes "> " ++ warning ++ codes " Last refresh error: " ++ one_line s.last_error) ∷ [] ∷ []
    else []

unfoldable pub tool_lines : ToolInfo → List Text
unfolding summarize optionals join_backticked
tool_lines t =
    let summary = summarize t.description in
    let extras = optionals t.properties t.required in
    (if is_empty summary
        then codes "- **" ++ t.name ++ codes "**"
        else codes "- **" ++ t.name ++ codes "** " ++ dash ++ codes " " ++ summary)
      ∷ line_if (not (is_empty t.required)) (codes "  - required: " ++ join_backticked t.required)
    ++ line_if (not (is_empty extras)) (codes "  - optional: " ++ join_backticked extras)

unfoldable pub tools_lines : List ToolInfo → List Text
unfolding tool_lines
tools_lines [] = []
tools_lines (t ∷ tools) = tool_lines t ++ tools_lines tools

abbrev pub no_tools_line : Text → Text
no_tools_line status =
    if text_eq status (codes "healthy")
    then codes "_(server reports no tools)_"
    else codes "_(tool list unavailable "
      ++ dash
      ++ codes " server is not healthy; cached state cleared)_"

abbrev pub invocation : Text → Text → Text
invocation name alias =
    codes "Invoke any tool above with `mcpshim call --server "
    ++ name
    ++ codes " --tool <name> --<arg> <value>` (the alias `"
    ++ alias
    ++ codes "` is also a shorthand: `mcpshim "
    ++ alias
    ++ codes " <name> --<arg> <value>`)."

-- The end of renderServer: the tools.
unfoldable pub listing_lines : Text → Text → Text → List ToolInfo → List Text
unfolding tools_lines
listing_lines name alias status tools =
    if is_empty tools
    then no_tools_line status ∷ [] ∷ []
    else codes "Tools:" ∷ tools_lines tools ++ ([] ∷ invocation name alias ∷ [] ∷ [])

abbrev pub heading : ServerInfo → Text
heading s = codes "## " ++ s.name

abbrev pub facts : ServerInfo → Text → Text → ℕ → Text
facts s alias status count =
    codes "_alias: `"
    ++ alias
    ++ codes "` "
    ++ dot
    ++ codes " transport: `"
    ++ s.transport
    ++ codes "` "
    ++ dot
    ++ codes " status: `"
    ++ status
    ++ codes "` "
    ++ dot
    ++ codes " tools: "
    ++ decimal count
    ++ codes "_"

unfoldable pub render_server : ServerInfo → List ToolInfo → McpServer → List Text
render_server s tools mcp =
    let status = or_text s.status (codes "unknown") in
    let alias = or_text s.alias s.name in
    heading s ∷ facts s alias status (length tools) ∷ [] ∷ endpoint_lines s mcp
    ++ status_lines s status
    ++ listing_lines s.name alias status tools

-- The zero value of config.MCPServer.
abbrev pub no_server : McpServer
no_server = record {
  name = [];
  alias = [];
  url = [];
  transport = [];
  headers = [];
  headers_helper = [];
  command = [];
  args = [];
  env = [];
}

abbrev pub or_zero : {A : Type 0} → Option A → A → A
or_zero none zero_value = zero_value
or_zero (some a) zero_value = a

unfoldable pub render_servers : Map (List ToolInfo) → Map McpServer → List ServerInfo → List Text
unfolding lookup
render_servers tools config_by [] = []
render_servers tools config_by (s ∷ servers) =
    render_server s (or_zero (lookup s.name tools) []) (or_zero (lookup s.name config_by) no_server)
    ++ render_servers tools config_by servers

-- The lines that every manifest starts with, for the formatted time.
abbrev pub introduction : Text → List Text
introduction generated =
    codes "# MCPShim Live Manifest"
    ∷ []
    ∷ (codes "_Generated "
        ++ generated
        ++ codes " by mcpshimd. Source of truth for available MCP servers and tools "
        ++ dash
        ++ codes
            " read this before invoking any `mcpshim` command. Tool details are cached from the upstream servers and refresh automatically; auth-required servers are flagged in the section header._")
    ∷ []
    ∷ codes "## Quick reference"
    ∷ codes "- List servers: `mcpshim servers`"
    ∷ codes "- List a server's tools: `mcpshim tools --server <name>`"
    ∷ codes "- Show full schema for one tool: `mcpshim inspect --server <name> --tool <tool>`"
    ∷ codes "- Invoke a tool: `mcpshim call --server <name> --tool <tool> --<arg> <value>`"
    ∷ codes "- Force-refresh state: `mcpshim refresh [--server <name>]`"
    ∷ []
    ∷ []

unfoldable pub render : Snapshot → List Text
unfolding render_servers decimal
render snap =
    introduction snap.generated
    ++ (if is_empty snap.servers
        then codes
            "_No servers registered. Run `mcpshim add --name X --transport http --url ...` to register one._"
          ∷ []
        else (codes "Servers: **" ++ decimal (length snap.servers) ++ codes "**")
          ∷ []
          ∷ render_servers snap.tools snap.config_by snap.servers)

-- The text that is written: what each call of the writer gets, with a newline behind it.
unfoldable pub text_of : List Text → Text
text_of [] = []
text_of (line ∷ lines) = line ++ 10 ∷ text_of lines

unfoldable pub manifest_text : Snapshot → Text
unfolding render text_of
manifest_text snap = text_of (render snap)

-- configBy of ManifestSnapshot.
unfoldable pub configured_by : List McpServer → Map McpServer → Map McpServer
unfolding insert
configured_by [] config_by = config_by
configured_by (s ∷ servers) config_by = configured_by servers (insert s.name s config_by)

-- ManifestSnapshot
unfoldable pub manifest_snapshot :
    {N : Type 0} → (Text → Text) → Text → Config N → Registry (List ToolInfo) → Snapshot
unfolding server_info service_info configured_by
manifest_snapshot canonical_header_key now cfg r = record {
  generated = now;
  servers =
      map (server_info canonical_header_key r.states) cfg.servers
      ++ map
          (λ service. record (service_info canonical_header_key service) {
            status = codes "healthy";
          })
          cfg.http_services;
  tools = r.tool_cache;
  config_by = configured_by cfg.servers [];
}
