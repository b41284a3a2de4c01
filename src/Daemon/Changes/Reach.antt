-- ===== src/Daemon/Changes/Reach.antt =====
-- The daemon of internal/server/server.go over any sequence of changes, refreshes, ticks and
-- retries: what it serves, and what clients may change of it.
use mcpshim.Prelude.{◌≡◌, Bool, false, ◌||◌, List}
use mcpshim.Value.{Numbers}
use mcpshim.Web.{Web}
use mcpshim.Config.Types.{Config}
use mcpshim.Config.Expand.{Env}
use mcpshim.Config.Loading.{Files}
use mcpshim.HttpBinding.Listing.{ToolInfo}
use mcpshim.Mcp.State.{Time}
use mcpshim.Mcp.Registry.{Retry, Answer, Network}
use mcpshim.Daemon.{Digest}
use mcpshim.Daemon.Changes.{
  is_reload, ChangeRequest, Daemon, Outcomes, service_tools, refresh_daemon, tick_daemon,
  retry_daemon, handle_change,
}
use mcpshim.Daemon.Changes.Saving.{IsAccepted, SameServices}

-- The registry is that of the configuration.
abbrev pub IsInstalled : {N : Type 0} → Daemon N → Type 0
IsInstalled d = (d.registry.servers ≡ d.cfg.servers) × (d.registry.http_tools ≡ service_tools d.cfg)

module _ (n : Numbers) (web : Web n.Num) (env : Env) where
  abbrev pub IsServing : Daemon n.Num → Type 0
  IsServing d = IsAccepted n web env d.cfg × IsInstalled d

  -- What clients may have changed between two daemons: of the configuration the servers only, and
  -- nothing of the configuration, the file and the store where they may not write.
  abbrev pub IsGuarded : Daemon n.Num → Daemon n.Num → Type 0
  IsGuarded start d =
      SameServices n web env start.cfg d.cfg
      × (start.cfg.server.allow_registry_writes ≡ false
          → (d.cfg ≡ start.cfg) × (d.saved ≡ start.saved) × (d.store ≡ start.store))

module _ (n : Numbers) (web : Web n.Num) (files : Files) (env : Env) (digest : Digest) where
  -- A request that changes the configuration, the first refresh, a tick, or a retry; the Boolean
  -- says whether it is a reload.
  pub data Step (d : Daemon n.Num) : Bool → Daemon n.Num → Type 0 where
    changed :
        (out : Outcomes n.Num) (req : ChangeRequest) (answers : Network (List ToolInfo))
        (now : Time)
        → Step d
            (is_reload req.action)
            (handle_change n web files env digest out req answers now d).1
    refreshed :
        (answers : Network (List ToolInfo)) (now : Time)
        → Step d false (refresh_daemon answers now d)
    ticked :
        (answers : Network (List ToolInfo)) (now : Time) → Step d false (tick_daemon answers now d)
    fired :
        (g : Retry) (answer : Answer (List ToolInfo)) (now : Time)
        → Step d false (retry_daemon g answer now d)

  -- Any number of steps; the Boolean says whether a reload is among them.
  pub data Reach (d : Daemon n.Num) : Bool → Daemon n.Num → Type 0 where
    here : Reach d false d
    next :
        {a b : Bool} {d' d'' : Daemon n.Num} → Reach d a d' → Step d' b d'' → Reach d (a || b) d''
