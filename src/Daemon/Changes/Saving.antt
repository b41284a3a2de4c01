-- ===== src/Daemon/Changes/Saving.antt =====
-- What a change of internal/server/server.go saves, and how it may end.
use mcpshim.Prelude.{
  ◌≡◌, refl, sym, ap, subst, true, ◌&&◌, is_some, Text, Result, ok, err, ◌>>=◌, map_err,
  map_err-eq-ok, bind-eq-ok, guard-eq-ok, arith, inl, inr, Bool-cases, Option-cases,
}
use mcpshim.Value.{Numbers}
use mcpshim.Web.{Web}
use mcpshim.Config.Types.{McpServer, Config}
use mcpshim.Config.Expand.{Env}
use mcpshim.Config.Servers.{Identifiers}
use mcpshim.Config.Servers
use mcpshim.Config.Services.{validate_config, upsert_server, remove_config_server}
use mcpshim.Config.Services.Updating.{upsert_server-valid}
use mcpshim.Store.Tokens.{OAuthTables}
use mcpshim.Daemon.Changes.{
  Action, is_reload, ChangeRequest, ChangeError, config_refused, file_not_written, Daemon, Outcomes,
  Changed, is_client_lost, save_config, install, finish, or_not_found, set_server_headers,
  with_headers,
}

module _ (n : Numbers) (web : Web n.Num) (env : Env) where
  abbrev pub IsAccepted : Config n.Num → Type 0
  IsAccepted cfg = (ids : Identifiers) × (validate_config n web env cfg ≡ ok ids)

  -- A configuration that differs in its servers only.
  abbrev pub SameServices : Config n.Num → Config n.Num → Type 0
  SameServices cfg cfg' = (cfg'.server ≡ cfg.server) × (cfg'.http_services ≡ cfg.http_services)

  -- How a change may end: refused, with what the daemon serves as it was; or with a configuration
  -- that is accepted and installed, of which a client may choose no more than the servers, and that
  -- only where the configuration in force lets clients write.
  pub data IsChange (d : Daemon n.Num) (action : Action) : Changed n.Num → Type 0 where
    refused :
        (e : ChangeError) (d' : Daemon n.Num)
        → d'.cfg ≡ d.cfg
        → d'.registry ≡ d.registry
        → IsChange d action (err e, d')
    written :
        (cfg : Config n.Num) (d' : Daemon n.Num)
        → d.cfg.server.allow_registry_writes ≡ true
        → IsAccepted cfg
        → SameServices d.cfg cfg
        → IsChange d action (ok tt, install cfg d')
    reloaded :
        (cfg : Config n.Num) (d' : Daemon n.Num)
        → is_reload action ≡ true
        → IsAccepted cfg
        → IsChange d action (ok tt, install cfg d')

  save_config-inv :
      (out : Outcomes n.Num) (candidate cfg : Config n.Num)
      → save_config n web env out candidate ≡ ok cfg
      → IsAccepted cfg × (cfg ≡ candidate)
  unfolding save_config
  save_config-inv out candidate cfg h =
      let (ids, valid, rest) =
        bind-eq-ok (map_err config_refused (validate_config n web env candidate)) _ h in
      let (_, same) = guard-eq-ok out.written file_not_written (ok candidate) rest in
      let equal : candidate ≡ cfg = ground arith in
      (
        subst IsAccepted equal
            (ids, map_err-eq-ok config_refused (validate_config n web env candidate) valid),
        sym equal,
      )

  pub finish-IsChange :
      (action : Action) (out : Outcomes n.Num) (req : ChangeRequest)
      (forget : OAuthTables → OAuthTables) (cfg : Config n.Num) (d : Daemon n.Num)
      → d.cfg.server.allow_registry_writes ≡ true
      → IsAccepted cfg
      → SameServices d.cfg cfg
      → IsChange d action (finish out req forget cfg d)
  unfolding finish
  finish-IsChange action out req forget cfg d allowed valid same =
      elim (Bool-cases (is_some d.store && is_client_lost req out.client_saved)) [
        | inl lost ↦ rw (lost, finish) (refused _ _ refl refl)
        | inr stored ↦ rw (stored, finish) (written _ _ allowed valid same)
      ]

  pub set_auth-SameServices :
      (req : ChangeRequest) (cfg cfg' : Config n.Num)
      → with_headers req cfg ≡ ok cfg'
      → SameServices cfg cfg'
  unfolding with_headers
  set_auth-SameServices req cfg cfg' h =
      let (servers, _, rest) =
        bind-eq-ok (or_not_found (set_server_headers req.name req.headers cfg.servers)) _ h in
      (ground arith, ground arith)

  pub remove_config_server-SameServices :
      (cfg cfg' : Config n.Num) (name : Text)
      → or_not_found (remove_config_server cfg name) ≡ ok cfg'
      → SameServices cfg cfg'
  unfolding remove_config_server
  remove_config_server-SameServices cfg cfg' name h =
      elim (Option-cases (Servers.remove_server cfg.servers name)) [
        | inl absent ↦ let broken = rw (absent, remove_config_server) at h in cc
        | inr (left, present) ↦
            let same = rw (present, remove_config_server) at h in (ground arith, ground arith)
      ]

  pub upsert_server-SameServices :
      (cfg cfg' : Config n.Num) (item : McpServer)
      → map_err config_refused (upsert_server n web env cfg item) ≡ ok cfg'
      → SameServices cfg cfg'
  upsert_server-SameServices cfg cfg' item h =
      let valid = map_err-eq-ok config_refused (upsert_server n web env cfg item) h in
      let (_, _, _, _, same, _, _) = upsert_server-valid n web env cfg cfg' item valid in
      (ap (λ c. c.server) same, ap (λ c. c.http_services) same)

  -- The candidate of a change that writes the file, once it is saved.
  pub saved-SameServices :
      (out : Outcomes n.Num) (start : Config n.Num) (candidate : Result ChangeError (Config n.Num))
      (cfg : Config n.Num)
      → ((c : Config n.Num) → candidate ≡ ok c → SameServices start c)
      → candidate >>= save_config n web env out ≡ ok cfg
      → IsAccepted cfg × SameServices start cfg
  saved-SameServices out start candidate cfg same h =
      let (c, found, saved) = bind-eq-ok candidate (save_config n web env out) h in
      let (accepted, equal) = save_config-inv out c cfg saved in
      (accepted, subst (SameServices start) (sym equal) (same c found))
