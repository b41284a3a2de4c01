-- ===== src/Daemon.antt =====
-- internal/server/server.go and internal/mcp/token_store.go: what the daemon does to stored OAuth
-- state when it is asked to log out, and when a server is added, removed or points elsewhere after
-- a reload. A daemon may have no store, and which calls of the database succeed is an argument, but
-- for those of adoptLegacyToken and hasOAuthState, which succeed.
pub mod Logout
pub mod Repointing
pub mod Changes
use mcpshim.Prelude.{
  Bool, true, false, not, ◌&&◌, ◌||◌, Option, none, some, List, [], ◌∷◌, ◌++◌, if◌then◌else◌,
  is_empty, Text, codes, text_eq, Map, lookup, insert, Result, ok, err, is_some, guard, ◌>>◌, ◌>>=◌,
}
use mcpshim.Config.Types.{McpServer, HttpService}
use mcpshim.Config.Expand.{Env, expand_env}
use mcpshim.Config.Servers.{resolve_server}
use mcpshim.Mcp.Registry.{find_server}
use mcpshim.Store.Tokens.{
  OAuthTables, Token, OAuthClient, adopt_token, delete_tokens, delete_oauth_client,
  save_oauth_client, has_oauth_state,
}

-- The result of sha256.Sum256 in hexadecimal.
abbrev pub Digest : Type 0
Digest = Text → Text

-- The URL of ResolveServer(s).
unfoldable pub resolved_url : Env → McpServer → Text
unfolding resolve_server
resolved_url env s = (resolve_server env s).url

unfoldable pub token_store_key : Env → Digest → McpServer → Text
unfolding resolved_url
token_store_key env digest s = s.name ++ codes ":" ++ digest (resolved_url env s)

-- adoptLegacyToken
unfoldable pub adopt_legacy_token : Env → Digest → McpServer → OAuthTables → OAuthTables
adopt_legacy_token env digest s t = (adopt_token s.name (token_store_key env digest s) t).1

-- hasOAuthState: whether there is any, and the tables after the adoption.
unfoldable pub has_stored_state : Env → Digest → McpServer → OAuthTables → Bool × OAuthTables
unfolding adopt_legacy_token
has_stored_state env digest s t =
    let adopted = adopt_legacy_token env digest s t in
    (has_oauth_state s.name (token_store_key env digest s ∷ []) adopted, adopted)

unfoldable pub find_service : {N : Type 0} → List (HttpService N) → Text → Option (HttpService N)
find_service [] name = none
find_service (s ∷ services) name =
    if text_eq s.name name || text_eq s.alias name then some s else find_service services name

-- canonicalServerName
unfoldable pub canonical_server_name :
    {N : Type 0} → List McpServer → List (HttpService N) → Text → Text
unfolding find_service
canonical_server_name servers services name = elim (find_server servers name) [
  | some s ↦ s.name
  | none ↦ elim (find_service services name) [ some s ↦ s.name | none ↦ name ]
]

pub data LogoutError : Type 0 where
  server_required unknown_server store_not_initialized : LogoutError
  tokens_not_deleted client_not_deleted : LogoutError

-- Which calls of the database succeed: DeleteTokens, and DeleteOAuthClient. One that fails leaves
-- the rows as they were.
pub record Deletions : Type 0 where
  pub tokens : Bool
  pub client : Bool

-- The tables after the tokens of a server are cleared, and its client too in a full logout.
unfoldable pub clear_oauth : Env → Digest → Bool → McpServer → OAuthTables → OAuthTables
clear_oauth env digest full s t =
    let cleared = delete_tokens (token_store_key env digest s ∷ s.name ∷ []) t in
    if full then delete_oauth_client s.name cleared else cleared

-- The case "logout" of handleCtx.
unfoldable pub logout :
    Env
    → Digest
    → List McpServer
    → Deletions
    → Text
    → Bool
    → Option OAuthTables
    → Result LogoutError OAuthTables
unfolding clear_oauth
logout env digest servers db server full store =
    if is_empty server then err server_required else elim (find_server servers server) [
      | none ↦ err unknown_server
      | some s ↦ elim store [
        | none ↦ err store_not_initialized
        | some t ↦
            guard db.tokens tokens_not_deleted
            >> guard (not full || db.client) client_not_deleted
            >> ok (clear_oauth env digest full s t)
      ]
    ]

-- The map nextURL.
unfoldable pub next_urls : Env → List McpServer → Map Text → Map Text
next_urls env [] urls = urls
next_urls env (s ∷ servers) urls = next_urls env servers (insert s.name (resolved_url env s) urls)

-- What a server loses that points elsewhere: DeleteTokens and DeleteOAuthClient, whose errors are
-- dropped.
unfoldable pub forget_server : Env → Digest → Deletions → McpServer → OAuthTables → OAuthTables
forget_server env digest db s t =
    let cleared =
      if db.tokens then delete_tokens (s.name ∷ token_store_key env digest s ∷ []) t else t in
    if db.client then delete_oauth_client s.name cleared else cleared

-- The test of the loop: the server is still there, with another URL.
unfoldable pub is_repointed : Env → Map Text → McpServer → Bool
is_repointed env urls s = elim (lookup s.name urls) [
  | none ↦ false
  | some url ↦ not (text_eq url (resolved_url env s))
]

-- `db` says which deletions succeed for a server.
unfoldable pub forget_each :
    Env → Digest → (McpServer → Deletions) → Map Text → List McpServer → OAuthTables → OAuthTables
forget_each env digest db urls [] t = t
forget_each env digest db urls (s ∷ servers) t =
    forget_each env digest db urls servers
      (if is_repointed env urls s then forget_server env digest (db s) s t else t)

-- forgetRepointedOAuthState
unfoldable pub forget_repointed :
    Env
    → Digest
    → (McpServer → Deletions)
    → List McpServer
    → List McpServer
    → OAuthTables
    → OAuthTables
unfolding forget_each
forget_repointed env digest db previous next t =
    forget_each env digest db (next_urls env next []) previous t

-- The state that a server leaves behind when add_server gives its name another URL.
unfoldable pub forget_previous :
    Env
    → Digest
    → (McpServer → Deletions)
    → Option McpServer
    → McpServer
    → OAuthTables
    → OAuthTables
forget_previous env digest db none item t = t
forget_previous env digest db (some s) item t =
    if text_eq (resolved_url env s) (resolved_url env item)
    then t
    else forget_server env digest (db s) s t

-- What add_server does to the store, once the configuration is saved, and whether it goes on;
-- `saved` says that SaveOAuthClient succeeds.
unfoldable pub store_added :
    Env
    → Digest
    → (McpServer → Deletions)
    → Bool
    → Option McpServer
    → McpServer
    → Text
    → Text
    → OAuthTables
    → Bool × OAuthTables
unfolding forget_previous
store_added env digest db saved previous item client_id client_secret t =
    let forgotten = forget_previous env digest db previous item t in
    if is_empty client_id
    then (true, forgotten)
    else if saved
    then (true, save_oauth_client item.name client_id client_secret forgotten)
    else (false, forgotten)
