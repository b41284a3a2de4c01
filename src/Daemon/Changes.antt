-- ===== src/Daemon/Changes.antt =====
-- The requests of internal/server/server.go that change the configuration: handleRegistryChange and
-- applyRegistryChange. The write lock makes a change one step. What the file system, the database
-- and the network answer are arguments. The manifest is not written here.
pub mod Gated
pub mod Saving
pub mod Serving
pub mod Reach
use mcpshim.Prelude.{
  ℕ, Bool, true, false, not, ◌&&◌, ◌||◌, Option, none, some, List, [], ◌∷◌, map, if◌then◌else◌,
  is_empty, Text, codes, text_eq, trim_space, Map, lookup, insert, Result, ok, err, guard, ◌>>=◌,
  ◌>>◌, map_err, is_some,
}
use mcpshim.Value.{Numbers}
use mcpshim.Web.{Web}
use mcpshim.Config.Types.{McpServer, HttpService, Config}
use mcpshim.Config.Expand.{Env}
use mcpshim.Config.Services.{ServiceError, validate_config, upsert_server, remove_config_server}
use mcpshim.Config.Loading.{Files, load_decoded}
use mcpshim.HttpBinding.Listing.{ToolInfo, list_tools}
use mcpshim.Mcp.State.{Time, default_backoff}
use mcpshim.Mcp.Registry.{
  Registry, Network, find_server, new_registry, update_config, refresh, refresh_periodic,
  fire_retry, Retry, Answer,
}
use mcpshim.Store.Tokens.{OAuthTables, save_oauth_client}
use mcpshim.Daemon.{Deletions, Digest, forget_server, forget_repointed, forget_previous}

pub data Action : Type 0 where
  add_server remove_server set_auth reload : Action

abbrev pub is_reload : Action → Bool
is_reload reload = true
is_reload _ = false

-- The fields of protocol.Request that a change reads.
pub record ChangeRequest : Type 0 where
  pub action : Action
  pub name : Text
  pub alias : Text
  pub url : Text
  pub transport : Text
  pub headers : Map Text
  pub headers_helper : Text
  pub command : Text
  pub cmd_args : List Text
  pub env : Map Text
  pub client_id : Text
  pub client_secret : Text

pub data ChangeError : Type 0 where
  writes_disabled name_required server_not_found : ChangeError
  config_refused : ServiceError → ChangeError
  file_not_written client_not_saved file_not_decoded store_not_opened : ChangeError

-- The fields cfg, registry and store of Server, and the configuration that Save wrote last.
pub record Daemon (N : Type 0) : Type 0 where
  pub cfg : Config N
  pub registry : Registry (List ToolInfo)
  pub store : Option OAuthTables
  pub saved : Option (Config N)

-- What a change meets: whether Save's file operations succeed, Load of the temporary file among
-- them, whether SaveOAuthClient does, what the decoder reads from the file, what store.Open opens,
-- and which deletions of OAuth state succeed for a server.
pub record Outcomes (N : Type 0) : Type 0 where
  pub written : Bool
  pub client_saved : Bool
  pub decoded : Option (Config N)
  pub opened : Option OAuthTables
  pub deletions : McpServer → Deletions

-- The tools that cacheHTTPServices lists.
unfoldable pub service_tools : {N : Type 0} → Config N → Map (List ToolInfo)
unfolding list_tools
service_tools cfg = map (λ service. (service.name, list_tools service)) cfg.http_services

-- The item that add_server builds.
unfoldable pub requested_server : ChangeRequest → McpServer
requested_server req = record {
  name = req.name;
  alias = req.alias;
  url = req.url;
  transport = req.transport;
  headers = req.headers;
  headers_helper = req.headers_helper;
  command = req.command;
  args = req.cmd_args;
  env = req.env;
}

-- The loop over the headers of set_auth.
unfoldable pub merge_headers : Map Text → Map Text → Map Text
merge_headers [] headers = headers
merge_headers ((name, value) ∷ given) headers = merge_headers given (insert name value headers)

-- The loop over the servers of set_auth; `none` is no server of the name.
unfoldable pub set_server_headers : Text → Map Text → List McpServer → Option (List McpServer)
unfolding merge_headers
set_server_headers name given [] = none
set_server_headers name given (s ∷ servers) =
    let rest = set_server_headers name given servers in
    if text_eq s.name name
    then some (record s { headers = merge_headers given s.headers } ∷ servers)
    else elim rest [ none ↦ none | some others ↦ some (s ∷ others) ]

-- A client that the request brings, and no call of the database that fails for it.
abbrev pub is_client_lost : ChangeRequest → Bool → Bool
is_client_lost req client_saved = not (is_empty req.client_id) && not client_saved

-- SaveOAuthClient, where the request brings a client.
abbrev pub keep_client : ChangeRequest → OAuthTables → OAuthTables
keep_client req t =
    if is_empty req.client_id
    then t
    else save_oauth_client req.name req.client_id req.client_secret t

-- What a change does to the store, where there is one.
abbrev pub on_store : Option OAuthTables → (OAuthTables → OAuthTables) → Option OAuthTables
on_store none change = none
on_store (some t) change = some (change t)

-- The daemon after a request, and its answer.
abbrev pub Changed : Type 0 → Type 0
Changed N = Result ChangeError (Unit {0}) × Daemon N

abbrev pub or_not_found : {A : Type 0} → Option A → Result ChangeError A
or_not_found none = err server_not_found
or_not_found (some a) = ok a

module _ {N : Type 0} where
  abbrev pub refuse : ChangeError → Daemon N → Changed N
  refuse e d = (err e, d)

  -- s.cfg = candidate; s.registry.UpdateConfig(candidate)
  unfoldable pub install : Config N → Daemon N → Daemon N
  unfolding service_tools
  install cfg d = record d {
    cfg = cfg;
    registry = update_config cfg.servers (service_tools cfg) d.registry;
  }

  -- The end of add_server and of set_auth: the store, with the client of the request, and then the
  -- configuration that is written already.
  unfoldable pub finish :
      Outcomes N → ChangeRequest → (OAuthTables → OAuthTables) → Config N → Daemon N → Changed N
  finish out req forget candidate d =
      if is_some d.store && is_client_lost req out.client_saved
      then refuse client_not_saved
          (record d { saved = some candidate; store = on_store d.store forget })
      else (
        ok tt,
        install candidate (record d {
          saved = some candidate;
          store = on_store d.store (λ t. keep_client req (forget t));
        }),
      )

  -- The configuration that set_auth saves.
  unfoldable pub with_headers : ChangeRequest → Config N → Result ChangeError (Config N)
  with_headers req cfg = do
    servers ← or_not_found (set_server_headers req.name req.headers cfg.servers)
    ok (record cfg { servers = servers })

  -- The daemon with another database and a new registry.
  unfoldable pub reopen : Config N → OAuthTables → Daemon N → Daemon N
  unfolding service_tools
  reopen cfg next d = record d {
    store = some next;
    registry = new_registry cfg.servers (service_tools cfg) default_backoff;
  }

  unfoldable pub with_store : Outcomes N → Config N → Daemon N → Result ChangeError (Daemon N)
  unfolding reopen
  with_store out cfg d =
      if text_eq (trim_space cfg.server.db_path) (trim_space d.cfg.server.db_path)
      then ok d
      else elim out.opened [ none ↦ err store_not_opened | some next ↦ ok (reopen cfg next d) ]

  -- The test of applyRegistryChange for a request that writes the file.
  unfoldable pub gate : Daemon N → Changed N → Changed N
  gate d changed = if d.cfg.server.allow_registry_writes then changed else refuse writes_disabled d

  -- registry.Refresh, on the registry of the daemon
  unfoldable pub refresh_daemon : Network (List ToolInfo) → Time → Daemon N → Daemon N
  refresh_daemon answers now d = record d { registry = refresh answers now d.registry }

  -- What handleRegistryChange does behind a change that it made.
  abbrev pub refresh_after : Action → Network (List ToolInfo) → Time → Daemon N → Daemon N
  refresh_after set_auth answers now d = d
  refresh_after _ answers now d = refresh_daemon answers now d

  -- What handleRegistryChange does with the answer of applyRegistryChange.
  unfoldable pub refresh_changed : Action → Network (List ToolInfo) → Time → Changed N → Changed N
  refresh_changed action answers now (err e, d) = (err e, d)
  refresh_changed action answers now (ok u, d) = (ok u, refresh_after action answers now d)

  -- The ticker of Run, and a retry of the registry.
  unfoldable pub tick_daemon : Network (List ToolInfo) → Time → Daemon N → Daemon N
  tick_daemon answers now d = record d { registry = refresh_periodic answers now d.registry }

  unfoldable pub retry_daemon : Retry → Answer (List ToolInfo) → Time → Daemon N → Daemon N
  retry_daemon g answer now d = record d { registry = fire_retry g answer now d.registry }

module _ (n : Numbers) (web : Web n.Num) (env : Env) where
  -- config.Save
  unfoldable pub save_config : Outcomes n.Num → Config n.Num → Result ChangeError (Config n.Num)
  save_config out candidate = do
    _ ← map_err config_refused (validate_config n web env candidate)
    guard out.written file_not_written
    ok candidate

module _ (env : Env) (digest : Digest) where
  -- The server whose state remove_server forgets.
  unfoldable pub forget_removed :
      (McpServer → Deletions) → Option McpServer → OAuthTables → OAuthTables
  forget_removed db none t = t
  forget_removed db (some s) t = forget_server env digest (db s) s t

module _ (n : Numbers) (web : Web n.Num) (files : Files) (env : Env) where
  -- config.Load
  unfoldable pub load_config : Outcomes n.Num → Result ChangeError (Config n.Num)
  load_config out = elim out.decoded [
    | none ↦ err file_not_decoded
    | some decoded ↦ map_err config_refused (load_decoded n web files env decoded)
  ]

module _ (n : Numbers) (web : Web n.Num) (files : Files) (env : Env) (digest : Digest) where
  unfoldable pub apply_add : Outcomes n.Num → ChangeRequest → Daemon n.Num → Changed n.Num
  apply_add out req d =
      let item = requested_server req in
      let candidate = map_err config_refused (upsert_server n web env d.cfg item) in
      if is_empty req.name
      then refuse name_required d
      else elim (candidate >>= save_config n web env out) [
        | err e ↦ refuse e d
        | ok cfg ↦
            finish out req
              (forget_previous env digest out.deletions (find_server d.cfg.servers req.name) item)
              cfg d
      ]

  unfoldable pub apply_remove : Outcomes n.Num → ChangeRequest → Daemon n.Num → Changed n.Num
  apply_remove out req d =
      if is_empty req.name
      then refuse name_required d
      else elim (or_not_found (remove_config_server d.cfg req.name) >>= save_config n web env out) [
        | err e ↦ refuse e d
        | ok cfg ↦ (
          ok tt,
          install cfg (record d {
            saved = some cfg;
            store =
                on_store d.store
                  (forget_removed env digest out.deletions (find_server d.cfg.servers req.name));
          }),
        )
      ]

  unfoldable pub apply_set_auth : Outcomes n.Num → ChangeRequest → Daemon n.Num → Changed n.Num
  apply_set_auth out req d =
      if is_empty req.name
      then refuse name_required d
      else elim (with_headers req d.cfg >>= save_config n web env out) [
        | err e ↦ refuse e d
        | ok cfg ↦ finish out req (λ t. t) cfg d
      ]

  unfoldable pub apply_reload : Outcomes n.Num → Daemon n.Num → Changed n.Num
  apply_reload out d = elim (load_config n web files env out) [
    | err e ↦ refuse e d
    | ok cfg ↦ elim (with_store out cfg d) [
      | err e ↦ refuse e d
      | ok d' ↦ (
        ok tt,
        install cfg (record d' {
          store =
              on_store d'.store
                (forget_repointed env digest out.deletions d.cfg.servers cfg.servers);
        }),
      )
    ]
  ]

  -- The switch over the action in applyRegistryChange.
  unfoldable pub apply_action :
      Action → Outcomes n.Num → ChangeRequest → Daemon n.Num → Changed n.Num
  apply_action add_server out req d = gate d (apply_add out req d)
  apply_action remove_server out req d = gate d (apply_remove out req d)
  apply_action set_auth out req d = gate d (apply_set_auth out req d)
  apply_action reload out req d = apply_reload out d

  -- applyRegistryChange
  unfoldable pub apply_change : Outcomes n.Num → ChangeRequest → Daemon n.Num → Changed n.Num
  apply_change out req d = apply_action req.action out req d

  -- handleRegistryChange
  unfoldable pub handle_change :
      Outcomes n.Num → ChangeRequest → Network (List ToolInfo) → Time → Daemon n.Num → Changed n.Num
  handle_change out req answers now d =
      refresh_changed req.action answers now (apply_change out req d)
