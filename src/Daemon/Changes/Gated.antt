-- ===== src/Daemon/Changes/Gated.antt =====
-- The requests to change the configuration that internal/server/server.go refuses where
-- allow_registry_writes is not set.
use mcpshim.Prelude.{◌≡◌, refl, ap, Bool, true, false, if◌then◌else◌, List, err}
use mcpshim.Value.{Numbers}
use mcpshim.Web.{Web}
use mcpshim.Config.Expand.{Env}
use mcpshim.Config.Loading.{Files}
use mcpshim.HttpBinding.Listing.{ToolInfo}
use mcpshim.Mcp.State.{Time}
use mcpshim.Mcp.Registry.{Network}
use mcpshim.Daemon.{Digest}
use mcpshim.Daemon.Changes.{
  Action, is_reload, add_server, remove_server, set_auth, reload, ChangeRequest, writes_disabled,
  Daemon, Outcomes, Changed, gate, refresh_changed, apply_action, apply_change, handle_change,
}

module _ (n : Numbers) (web : Web n.Num) (files : Files) (env : Env) (digest : Digest) where
  gate_shut :
      (d : Daemon n.Num) (changed : Changed n.Num)
      → d.cfg.server.allow_registry_writes ≡ false
      → gate d changed ≡ (err writes_disabled, d)
  unfolding gate
  gate_shut d changed disabled = shut d d.cfg.server.allow_registry_writes changed disabled
    where
      shut :
          (d : Daemon n.Num) (test : Bool) (changed : Changed n.Num)
          → test ≡ false
          → (if test then changed else (err writes_disabled, d)) ≡ (err writes_disabled, d)
      shut d false changed e = refl
      shut d true changed e = cc

  apply_action_shut :
      (action : Action) (out : Outcomes n.Num) (req : ChangeRequest) (d : Daemon n.Num)
      → d.cfg.server.allow_registry_writes ≡ false
      → is_reload action ≡ false
      → apply_action n web files env digest action out req d ≡ (err writes_disabled, d)
  unfolding apply_action
  apply_action_shut add_server out req d disabled write = gate_shut d _ disabled
  apply_action_shut remove_server out req d disabled write = gate_shut d _ disabled
  apply_action_shut set_auth out req d disabled write = gate_shut d _ disabled
  apply_action_shut reload out req d disabled write = cc

  -- Where allow_registry_writes is not set, a request other than a reload changes nothing.
  pub handle_change_shut :
      (out : Outcomes n.Num) (req : ChangeRequest) (answers : Network (List ToolInfo)) (now : Time)
      (d : Daemon n.Num)
      → d.cfg.server.allow_registry_writes ≡ false
      → is_reload req.action ≡ false
      → handle_change n web files env digest out req answers now d ≡ (err writes_disabled, d)
  unfolding handle_change refresh_changed apply_change
  handle_change_shut out req answers now d disabled write =
      ap (refresh_changed req.action answers now)
        (apply_action_shut req.action out req d disabled write)
