-- ===== src/Daemon/Repointing.antt =====
-- forgetRepointedOAuthState of internal/server/server.go, and the same rule in add_server.
use mcpshim.Prelude.{
  ◌≡◌, refl, ap, ◌∙◌, Bool, false, not, ◌&&◌, ◌||◌, none, some, List, [], ◌∷◌, if◌then◌else◌,
  is_empty, any, Text, text_eq, text_eq_comm, is_one_of, lookup, Option, arith, inl, inr,
  Bool-cases, lookup-delete,
}
use mcpshim.Config.Types.{McpServer}
use mcpshim.Config.Expand.{Env}
use mcpshim.Store.Tokens.{OAuthTables, OAuthClient, delete_tokens, delete_oauth_client}
use mcpshim.Store.Tokens.Adoption.{delete_tokens-exactly}
use mcpshim.Daemon.{Deletions, Digest, token_store_key, resolved_url, forget_server}

-- The key is one of those under which a token of the server is stored.
abbrev pub owns_key : Env → Digest → McpServer → Text → Bool
owns_key env digest s key =
    (text_eq s.name key || text_eq (token_store_key env digest s) key) && not (is_empty key)

owns_key-eq :
    (env : Env) (digest : Digest) (s : McpServer) (key : Text)
    → (is_one_of (s.name ∷ token_store_key env digest s ∷ []) key && not (is_empty key))
      ≡ owns_key env digest s key
unfolding is_one_of
owns_key-eq env digest s key =
    ground (arith, text_eq_comm (token_store_key env digest s) key, text_eq_comm s.name key)

-- The tokens and the clients after one server is forgotten.
pub lookup-forget_server :
    (env : Env) (digest : Digest) (db : Deletions) (s : McpServer) (t : OAuthTables) (key : Text)
    → (lookup key (forget_server env digest db s t).tokens
        ≡ (if db.tokens && owns_key env digest s key then none else lookup key t.tokens))
      × (lookup key (forget_server env digest db s t).clients
          ≡ (if db.client && text_eq s.name key then none else lookup key t.clients))
unfolding forget_server delete_oauth_client
lookup-forget_server env digest db s t key =
    let keys = s.name ∷ token_store_key env digest s ∷ [] in
    let (tokens, clients) = delete_tokens-exactly keys key t in
    let mine =
      tokens ∙ ap (λ b. if b then none else lookup key t.tokens) (owns_key-eq env digest s key) in
    let client = lookup-delete s.name key t.clients in
    let both = lookup-delete s.name key (delete_tokens keys t).clients ∙ rw clients refl in
    elim (Bool-cases db.tokens) [
      | inl gone ↦ elim (Bool-cases db.client) [
        | inl lost ↦ rw (gone, lost, forget_server) (mine, both)
        | inr kept ↦ rw (gone, kept, forget_server) (mine, ap (lookup key) clients)
      ]
      | inr left ↦ elim (Bool-cases db.client) [
        | inl lost ↦ rw (left, lost, forget_server) (refl, client)
        | inr kept ↦ rw (left, kept, forget_server) (refl, refl)
      ]
    ]

-- The last of the servers with a name.
unfoldable pub last_named : Text → List McpServer → Option McpServer
last_named name [] = none
last_named name (s ∷ servers) = elim (last_named name servers) [
  | some found ↦ some found
  | none ↦ if text_eq s.name name then some s else none
]

-- The next configuration still has a server of the name, and it points elsewhere.
abbrev pub moves : Env → List McpServer → McpServer → Bool
moves env next s = elim (last_named s.name next) [
  | none ↦ false
  | some found ↦ not (text_eq (resolved_url env found) (resolved_url env s))
]

-- A server among `servers` that moves, and whose tokens are deleted, owns the key.
abbrev pub is_forgotten :
    Env → Digest → (McpServer → Deletions) → List McpServer → List McpServer → Text → Bool
is_forgotten env digest db next servers key =
    any servers (λ s. moves env next s && ((db s).tokens && owns_key env digest s key))

abbrev pub is_client_forgotten :
    Env → (McpServer → Deletions) → List McpServer → List McpServer → Text → Bool
is_client_forgotten env db next servers name =
    any servers (λ s. moves env next s && ((db s).client && text_eq s.name name))

-- The client of a name after add_server, where it had another URL before.
abbrev pub client_after : Deletions → Bool → Text → Text → Option OAuthClient → Option OAuthClient
client_after db saved client_id client_secret before =
    if not (is_empty client_id) && saved
    then some (record { client_id = client_id; client_secret = client_secret })
    else if db.client
    then none
    else before
