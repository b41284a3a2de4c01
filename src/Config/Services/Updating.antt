-- ===== src/Config/Services/Updating.antt =====
-- UpsertServer and RemoveServer of internal/config/config.go on a whole configuration.
use mcpshim.Prelude.{
  ◌≡◌, ap, subst, List, [], ◌∷◌, text_eq, ok, map_err, map_err-eq-ok, bind-eq-ok, guard-eq-ok, All,
  arith, inl, inr, Bool-cases,
}
use mcpshim.Value.{Numbers}
use mcpshim.Web.{Web}
use mcpshim.Config.Types.{McpServer, Config}
use mcpshim.Config.Expand.{Env}
use mcpshim.Config.Servers.{
  Identifiers, validate, validate_servers, replace_server, negative_history_size,
}
use mcpshim.Config.Servers.Resolving.{IsFound, validate_servers-IsFound}
use mcpshim.Config.Services.{
  config_fault, validate_http_services, validate_config, normalized_item, upsert_server,
}

All-replace_server :
    (P : McpServer → Type 0) (item : McpServer) (servers : List McpServer)
    → All P (replace_server item servers)
    → P item
unfolding replace_server
All-replace_server P item [] h = h.0
All-replace_server P item (s ∷ servers) h = elim (Bool-cases (text_eq s.name item.name)) [
  | inl same ↦ (rw (same, replace_server) at h).0
  | inr differ ↦ All-replace_server P item servers (rw (differ, replace_server) at h).1
]

module _ (n : Numbers) (web : Web n.Num) where
  -- The servers of a configuration that validate accepts.
  pub validate_config-servers :
      (env : Env) (cfg : Config n.Num) (ids : Identifiers)
      → validate_config n web env cfg ≡ ok ids
      → (start after : Identifiers) × (validate_servers env cfg.servers start ≡ ok after)
        × (validate_http_services n web env cfg.http_services after ≡ ok ids)
  unfolding validate_config validate
  validate_config-servers env cfg ids h =
      let (after, checked, rest) =
        bind-eq-ok (map_err config_fault (validate env cfg.server cfg.servers)) _ h in
      let valid = map_err-eq-ok config_fault (validate env cfg.server cfg.servers) checked in
      let (_, servers) = guard-eq-ok _ negative_history_size _ valid in (_, after, servers, rest)

  upsert_server-inv :
      (env : Env) (cfg cfg' : Config n.Num) (item : McpServer)
      → upsert_server n web env cfg item ≡ ok cfg'
      → (stored : McpServer) × (ids : Identifiers) × (normalized_item item ≡ ok stored)
        × (validate_config n web env cfg' ≡ ok ids)
        × (cfg' ≡ record cfg { servers = replace_server stored cfg.servers })
  unfolding upsert_server
  upsert_server-inv env cfg cfg' item h =
      let (stored, normal, h') = bind-eq-ok (map_err config_fault (normalized_item item)) _ h in
      let (ids, valid, h'') =
        bind-eq-ok
          (validate_config n web env (record cfg { servers = replace_server stored cfg.servers })) _
          h' in
      (
        stored,
        ids,
        map_err-eq-ok config_fault (normalized_item item) normal,
        ground arith,
        ground arith,
      )

  -- A configuration that UpsertServer writes passes validate again; in it every server is found by
  -- its name and by its alias, and the new one is among them, in the place of the one that had its
  -- name.
  pub upsert_server-valid :
      (env : Env) (cfg cfg' : Config n.Num) (item : McpServer)
      → upsert_server n web env cfg item ≡ ok cfg'
      → (stored : McpServer) × (ids : Identifiers) × (normalized_item item ≡ ok stored)
        × (validate_config n web env cfg' ≡ ok ids)
        × (cfg' ≡ record cfg { servers = replace_server stored cfg.servers })
        × All (IsFound cfg'.servers) cfg'.servers
        × IsFound cfg'.servers stored
  upsert_server-valid env cfg cfg' item h =
      let (stored, ids, normal, valid, same) = upsert_server-inv env cfg cfg' item h in
      let (start, after, servers, _) = validate_config-servers env cfg' ids valid in
      let found = validate_servers-IsFound env cfg'.servers start after servers in
      (
        stored,
        ids,
        normal,
        valid,
        same,
        found,
        All-replace_server (IsFound cfg'.servers) stored cfg.servers
            (subst (All (IsFound cfg'.servers)) (ap (λ c. c.servers) same) found),
      )
