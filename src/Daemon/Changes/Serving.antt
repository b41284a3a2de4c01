-- ===== src/Daemon/Changes/Serving.antt =====
-- The configuration that the daemon of internal/server/server.go serves, over the requests that
-- change it and the refreshes of its registry.
use mcpshim.Prelude.{
  if◌then◌else◌, ◌≡◌, refl, subst, Bool, true, false, is_empty, ok, ◌>>=◌, map_err, map_err-eq-ok,
  bind-eq-ok, Result-cases, arith, inl, inr, Bool-cases, Option-cases,
}
use mcpshim.Value.{Numbers}
use mcpshim.Web.{Web}
use mcpshim.Config.Types.{Config}
use mcpshim.Config.Expand.{Env}
use mcpshim.Config.Servers.{normalize_servers}
use mcpshim.Config.Services.{
  config_fault, normalize_http_services, validate_config, upsert_server, remove_config_server,
}
use mcpshim.Config.Loading.{Files, default_server, load_decoded}
use mcpshim.Daemon.{Digest}
use mcpshim.Daemon.Changes.{
  Action, add_server, remove_server, set_auth, reload, ChangeRequest, config_refused,
  writes_disabled, Daemon, Outcomes, Changed, requested_server, save_config, apply_add,
  or_not_found, apply_remove, with_headers, apply_set_auth, load_config, with_store, apply_reload,
  refuse, gate, apply_action, apply_change,
}
use mcpshim.Daemon.Changes.Saving.{
  IsAccepted, IsChange, refused, written, reloaded, finish-IsChange, set_auth-SameServices,
  remove_config_server-SameServices, upsert_server-SameServices, saved-SameServices,
}

module _ (n : Numbers) (web : Web n.Num) (files : Files) (env : Env) (digest : Digest) where
  apply_add-IsChange :
      (out : Outcomes n.Num) (req : ChangeRequest) (d : Daemon n.Num)
      → d.cfg.server.allow_registry_writes ≡ true
      → IsChange n web env d add_server (apply_add n web files env digest out req d)
  unfolding apply_add
  apply_add-IsChange out req d allowed =
      let candidate =
        map_err config_refused (upsert_server n web env d.cfg (requested_server req)) in
      elim (Bool-cases (is_empty req.name)) [
        | inl unnamed ↦ rw (unnamed, apply_add) (refused _ _ refl refl)
        | inr named ↦ elim (Result-cases (candidate >>= save_config n web env out)) [
          | inl (e, bad) ↦ rw (named, bad, apply_add) (refused _ _ refl refl)
          | inr (cfg, good) ↦
              let (accepted, same) =
                saved-SameServices n web env out d.cfg candidate cfg
                  (λ c. upsert_server-SameServices n web env d.cfg c (requested_server req)) good in
              rw (named, good, apply_add)
                (finish-IsChange n web env add_server out req _ cfg d allowed accepted same)
        ]
      ]

  apply_remove-IsChange :
      (out : Outcomes n.Num) (req : ChangeRequest) (d : Daemon n.Num)
      → d.cfg.server.allow_registry_writes ≡ true
      → IsChange n web env d remove_server (apply_remove n web files env digest out req d)
  unfolding apply_remove
  apply_remove-IsChange out req d allowed =
      let candidate = or_not_found (remove_config_server d.cfg req.name) in
      elim (Bool-cases (is_empty req.name)) [
        | inl unnamed ↦ rw (unnamed, apply_remove) (refused _ _ refl refl)
        | inr named ↦ elim (Result-cases (candidate >>= save_config n web env out)) [
          | inl (e, bad) ↦ rw (named, bad, apply_remove) (refused _ _ refl refl)
          | inr (cfg, good) ↦
              let (accepted, same) =
                saved-SameServices n web env out d.cfg candidate cfg
                  (λ c. remove_config_server-SameServices n web env d.cfg c req.name) good in
              rw (named, good, apply_remove) (written cfg _ allowed accepted same)
        ]
      ]

  apply_set_auth-IsChange :
      (out : Outcomes n.Num) (req : ChangeRequest) (d : Daemon n.Num)
      → d.cfg.server.allow_registry_writes ≡ true
      → IsChange n web env d set_auth (apply_set_auth n web files env digest out req d)
  unfolding apply_set_auth
  apply_set_auth-IsChange out req d allowed =
      let candidate = with_headers req d.cfg in
      elim (Bool-cases (is_empty req.name)) [
        | inl unnamed ↦ rw (unnamed, apply_set_auth) (refused _ _ refl refl)
        | inr named ↦ elim (Result-cases (candidate >>= save_config n web env out)) [
          | inl (e, bad) ↦ rw (named, bad, apply_set_auth) (refused _ _ refl refl)
          | inr (cfg, good) ↦
              let (accepted, same) =
                saved-SameServices n web env out d.cfg candidate cfg
                  (λ c. set_auth-SameServices n web env req d.cfg c) good in
              rw (named, good, apply_set_auth)
                (finish-IsChange n web env set_auth out req _ cfg d allowed accepted same)
        ]
      ]

  load_decoded-IsAccepted :
      (decoded cfg : Config n.Num)
      → load_decoded n web files env decoded ≡ ok cfg
      → IsAccepted n web env cfg
  unfolding load_decoded
  load_decoded-IsAccepted decoded cfg h =
      let (servers, _, checked) =
        bind-eq-ok (map_err config_fault (normalize_servers decoded.servers)) _ h in
      let (ids, valid, rest) =
        bind-eq-ok
          (validate_config n web env (record {
            server = default_server files env decoded.server;
            servers = servers;
            http_services = normalize_http_services decoded.http_services;
          }))
          _ checked in
      subst (IsAccepted n web env) (ground arith) (ids, valid)

  load_config-IsAccepted :
      (out : Outcomes n.Num) (cfg : Config n.Num)
      → load_config n web files env out ≡ ok cfg
      → IsAccepted n web env cfg
  unfolding load_config
  load_config-IsAccepted out cfg h = elim (Option-cases out.decoded) [
    | inl absent ↦ let broken = rw (absent, load_config) at h in cc
    | inr (decoded, present) ↦ load_decoded-IsAccepted decoded cfg (
        map_err-eq-ok config_refused (load_decoded n web files env decoded)
          (rw (present, load_config) at h))
  ]

  apply_reload-IsChange :
      (out : Outcomes n.Num) (d : Daemon n.Num)
      → IsChange n web env d reload (apply_reload n web files env digest out d)
  unfolding apply_reload
  apply_reload-IsChange out d = elim (Result-cases (load_config n web files env out)) [
    | inl (e, bad) ↦ rw (bad, apply_reload) (refused _ _ refl refl)
    | inr (cfg, good) ↦ elim (Result-cases (with_store out cfg d)) [
      | inl (e, bad) ↦ rw (good, bad, apply_reload) (refused _ _ refl refl)
      | inr (d', opened) ↦
          rw (good, opened, apply_reload)
            (reloaded cfg _ refl (load_config-IsAccepted out cfg good))
    ]
  ]

  gate-IsChange :
      (action : Action) (d : Daemon n.Num) (changed : Changed n.Num)
      → (d.cfg.server.allow_registry_writes ≡ true → IsChange n web env d action changed)
      → IsChange n web env d action (gate d changed)
  unfolding gate
  gate-IsChange action d changed change =
      chosen action d d.cfg.server.allow_registry_writes changed (refuse writes_disabled d) change
        (refused writes_disabled d refl refl)
    where
      chosen :
          (action : Action) (d : Daemon n.Num) (test : Bool) (first second : Changed n.Num)
          → (test ≡ true → IsChange n web env d action first)
          → IsChange n web env d action second
          → IsChange n web env d action (if test then first else second)
      chosen action d true first second a b = a refl
      chosen action d false first second a b = b

  apply_action-IsChange :
      (action : Action) (out : Outcomes n.Num) (req : ChangeRequest) (d : Daemon n.Num)
      → IsChange n web env d action (apply_action n web files env digest action out req d)
  unfolding apply_action
  apply_action-IsChange add_server out req d =
      gate-IsChange add_server d _ (apply_add-IsChange out req d)
  apply_action-IsChange remove_server out req d =
      gate-IsChange remove_server d _ (apply_remove-IsChange out req d)
  apply_action-IsChange set_auth out req d =
      gate-IsChange set_auth d _ (apply_set_auth-IsChange out req d)
  apply_action-IsChange reload out req d = apply_reload-IsChange out d

  -- Every answer of applyRegistryChange leaves what the daemon serves as it was, or installs a
  -- configuration that validate accepts. A request other than a reload installs one only where
  -- allow_registry_writes is set, and changes neither the server section nor the HTTP services.
  pub apply_change-IsChange :
      (out : Outcomes n.Num) (req : ChangeRequest) (d : Daemon n.Num)
      → IsChange n web env d req.action (apply_change n web files env digest out req d)
  unfolding apply_change
  apply_change-IsChange out req d = apply_action-IsChange req.action out req d
