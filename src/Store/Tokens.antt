-- ===== src/Store/Tokens.antt =====
-- The tables oauth_tokens and oauth_clients: each has one row for a server key. The update times
-- are not modelled. Every call of the database succeeds here.
pub mod Adoption
use mcpshim.Prelude.{
  Bool, true, false, not, ◌&&◌, ◌||◌, Option, none, some, List, [], ◌∷◌, if◌then◌else◌, is_empty,
  Text, text_eq, Map, lookup, insert, delete, is_some,
}

-- The columns client_id and client_secret.
pub record OAuthClient : Type 0 where
  pub client_id : Text
  pub client_secret : Text

-- The access token of a token, and the rest of it.
pub record Token : Type 0 where
  pub access_token : Text
  pub refresh_token : Text

pub record OAuthTables : Type 0 where
  pub tokens : Map Token
  pub clients : Map OAuthClient

unfoldable pub get_token : Text → OAuthTables → Option Token
get_token server t = elim (lookup server t.tokens) [
  | none ↦ none
  | some token ↦ if is_empty token.access_token then none else some token
]

-- INSERT ... ON CONFLICT(server) DO UPDATE
unfoldable pub save_token : Text → Token → OAuthTables → OAuthTables
save_token server token t = record t { tokens = insert server token t.tokens }

unfoldable pub get_oauth_client : Text → OAuthTables → Option OAuthClient
get_oauth_client server t = lookup server t.clients

unfoldable pub save_oauth_client : Text → Text → Text → OAuthTables → OAuthTables
save_oauth_client server client_id client_secret t = record t {
  clients =
      insert server (record { client_id = client_id; client_secret = client_secret }) t.clients;
}

-- The loop of DeleteTokens.
unfoldable pub delete_keys : List Text → Map Token → Map Token
delete_keys [] tokens = tokens
delete_keys (key ∷ keys) tokens =
    delete_keys keys (if is_empty key then tokens else delete key tokens)

unfoldable pub delete_tokens : List Text → OAuthTables → OAuthTables
delete_tokens keys t = record t { tokens = delete_keys keys t.tokens }

unfoldable pub delete_oauth_client : Text → OAuthTables → OAuthTables
delete_oauth_client server t = record t { clients = delete server t.clients }

-- UPDATE oauth_tokens SET server = key WHERE server = legacy_key
unfoldable pub rename_key : Text → Text → Map Token → Map Token
rename_key legacy_key key tokens = elim (lookup legacy_key tokens) [
  | none ↦ tokens
  | some token ↦ insert key token (delete legacy_key tokens)
]

-- AdoptToken: whether a row moved, and the tables.
unfoldable pub adopt_token : Text → Text → OAuthTables → Bool × OAuthTables
unfolding rename_key
adopt_token legacy_key key t =
    if is_empty legacy_key || is_empty key || text_eq legacy_key key
    then (false, t)
    else if is_some (lookup key t.tokens)
    then (false, t)
    else (
      is_some (lookup legacy_key t.tokens),
      record t { tokens = rename_key legacy_key key t.tokens },
    )

unfoldable pub has_token_under : List Text → Map Token → Bool
has_token_under [] tokens = false
has_token_under (key ∷ keys) tokens =
    (not (is_empty key) && is_some (lookup key tokens)) || has_token_under keys tokens

unfoldable pub has_oauth_state : Text → List Text → OAuthTables → Bool
unfolding has_token_under
has_oauth_state client_key token_keys t =
    (not (is_empty client_key) && is_some (lookup client_key t.clients))
    || has_token_under token_keys t.tokens
