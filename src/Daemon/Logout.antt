-- ===== src/Daemon/Logout.antt =====
-- The case "logout" of internal/server/server.go, and hasOAuthState after it.
use mcpshim.Prelude.{
  ◌≡◌, refl, ◌∙◌, Bool, true, false, not, ◌&&◌, ◌||◌, none, some, List, [], ◌∷◌, ◌++◌,
  if◌then◌else◌, is_empty, Text, codes, text_eq, text_eq_refl, text_eq_comm, is_one_of, lookup, ok,
  arith, lookup-delete_self, delete,
}
use mcpshim.Config.Types.{McpServer}
use mcpshim.Config.Expand.{Env}
use mcpshim.Mcp.Registry.{find_server}
use mcpshim.Store.Tokens.{
  OAuthTables, adopt_token, delete_tokens, delete_oauth_client, has_oauth_state, rename_key,
}
use mcpshim.Store.Tokens.Adoption.{delete_tokens-exactly}
use mcpshim.Daemon.{
  Deletions, Digest, resolved_url, token_store_key, has_stored_state, clear_oauth, logout,
}

-- The keys that a logout clears.
abbrev is_key_of : Env → Digest → McpServer → Text → Bool
is_key_of env digest s key =
    is_one_of (token_store_key env digest s ∷ s.name ∷ []) key && not (is_empty key)

lookup-clear_oauth :
    (env : Env) (digest : Digest) (full : Bool) (s : McpServer) (t : OAuthTables) (key : Text)
    → lookup key (clear_oauth env digest full s t).tokens
      ≡ (if is_key_of env digest s key then none else lookup key t.tokens)
unfolding clear_oauth delete_oauth_client
lookup-clear_oauth env digest true s t key =
    (delete_tokens-exactly (token_store_key env digest s ∷ s.name ∷ []) key t).0
lookup-clear_oauth env digest false s t key =
    (delete_tokens-exactly (token_store_key env digest s ∷ s.name ∷ []) key t).0

is_key_of-eq :
    (env : Env) (digest : Digest) (s : McpServer) (key : Text)
    → is_key_of env digest s key
      ≡ ((text_eq (token_store_key env digest s) key || text_eq s.name key) && not (is_empty key))
unfolding is_one_of
is_key_of-eq env digest s key =
    ground (arith, text_eq_comm (token_store_key env digest s) key, text_eq_comm s.name key)

clear_oauth_clients :
    (env : Env) (digest : Digest) (full : Bool) (s : McpServer) (t : OAuthTables)
    → (clear_oauth env digest full s t).clients
      ≡ (if full then delete s.name t.clients else t.clients)
unfolding clear_oauth delete_oauth_client delete_tokens
clear_oauth_clients env digest true s t = refl
clear_oauth_clients env digest false s t = refl

logout-inv :
    (env : Env) (digest : Digest) (servers : List McpServer) (db : Deletions) (server : Text)
    (full : Bool) (t t' : OAuthTables) (s : McpServer)
    → find_server servers server ≡ some s
    → logout env digest servers db server full (some t) ≡ ok t'
    → t' ≡ clear_oauth env digest full s t
unfolding logout
logout-inv env digest servers db server full t t' s found h = ground arith

adopt_nothing :
    (legacy_key key : Text) (t : OAuthTables)
    → lookup legacy_key t.tokens ≡ none
    → (adopt_token legacy_key key t).1 ≡ t
unfolding adopt_token rename_key
adopt_nothing legacy_key key t h = rw (h, adopt_token, rename_key) (ground arith)

has_nothing :
    (env : Env) (digest : Digest) (s : McpServer) (t : OAuthTables)
    → lookup s.name t.tokens ≡ none
    → lookup (token_store_key env digest s) t.tokens ≡ none
    → lookup s.name t.clients ≡ none
    → has_stored_state env digest s t ≡ (false, t)
unfolding has_stored_state has_oauth_state
has_nothing env digest s t bare bound client =
    rw (adopt_nothing s.name (token_store_key env digest s) t bare) (ground arith)

token_store_key-nonempty :
    (env : Env) (digest : Digest) (s : McpServer)
    → is_empty s.name ≡ false
    → is_empty (token_store_key env digest s) ≡ false
unfolding token_store_key
token_store_key-nonempty env digest s h =
    nonempty_append (s.name ++ codes ":") (digest (resolved_url env s))
      (nonempty_append s.name (codes ":") h)
  where
    nonempty_append : (a rest : Text) → is_empty a ≡ false → is_empty (a ++ rest) ≡ false
    nonempty_append [] rest e = cc
    nonempty_append (c ∷ a) rest e = refl

-- After a full logout of a server with a name, nothing is stored for it, and no token that was
-- stored under its bare name is adopted again: the next check changes no table and finds nothing.
pub logout-clears :
    (env : Env) (digest : Digest) (servers : List McpServer) (db : Deletions) (server : Text)
    (t t' : OAuthTables) (s : McpServer)
    → find_server servers server ≡ some s
    → is_empty s.name ≡ false
    → logout env digest servers db server true (some t) ≡ ok t'
    → has_stored_state env digest s t' ≡ (false, t')
logout-clears env digest servers db server t t' s found named h =
    let after = logout-inv env digest servers db server true t t' s found h in
    let cleared = lookup-clear_oauth env digest true s t in
    let bound = token_store_key env digest s in
    let named' = token_store_key-nonempty env digest s named in
    rw after (
      has_nothing env digest s (clear_oauth env digest true s t)
        (cleared s.name ∙ (rw (is_key_of-eq env digest s s.name, text_eq_refl s.name) ground arith))
        (cleared bound ∙ (rw (is_key_of-eq env digest s bound, text_eq_refl bound) ground arith))
        (rw (clear_oauth_clients env digest true s t) (lookup-delete_self s.name t.clients)))

-- A logout that succeeds leaves the tokens under every key but the two of the server, and takes the
-- client of the server away only if it is full.
pub logout-exactly :
    (env : Env) (digest : Digest) (servers : List McpServer) (db : Deletions) (server : Text)
    (full : Bool) (t t' : OAuthTables) (s : McpServer) (key : Text)
    → find_server servers server ≡ some s
    → logout env digest servers db server full (some t) ≡ ok t'
    → (lookup key t'.tokens ≡ (
        if (text_eq (token_store_key env digest s) key || text_eq s.name key) && not (is_empty key)
        then none
        else lookup key t.tokens))
      × (t'.clients ≡ (if full then delete s.name t.clients else t.clients))
logout-exactly env digest servers db server full t t' s key found h =
    let after = logout-inv env digest servers db server full t t' s found h in
    rw after (
      lookup-clear_oauth env digest full s t key ∙ rw (is_key_of-eq env digest s key) refl,
      clear_oauth_clients env digest full s t,
    )
