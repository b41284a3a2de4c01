-- ===== src/Examples/Daemons.antt =====
-- Requests that change the configuration of a daemon.
use mcpshim.Prelude.{ℕ, true, false, none, List, [], ◌∷◌, codes}
use mcpshim.Value.{natural}
use mcpshim.Config.Types.{Config}
use mcpshim.Config.Loading.{Files}
use mcpshim.Config.Servers.{Identifiers}
use mcpshim.Mcp.State.{default_backoff}
use mcpshim.Mcp.Registry.{failure, Network, new_registry}
use mcpshim.HttpBinding.Listing.{ToolInfo}
use mcpshim.Daemon.Changes.{
  remove_server, ChangeRequest, Daemon, Outcomes, service_tools, handle_change,
}
use mcpshim.Examples.Requests.{plain_web}
use mcpshim.Examples.Configs.{one_variable}
use mcpshim.Examples.Services.{example_config}

abbrev plain_files : Files
plain_files = record { join = λ parts. []; dir = λ path. path; uid = codes "1" }

abbrev removal : ChangeRequest
removal = record {
  action = remove_server;
  name = codes "notes";
  alias = [];
  url = [];
  transport = [];
  headers = [];
  headers_helper = [];
  command = [];
  cmd_args = [];
  env = [];
  client_id = [];
  client_secret = [];
}

abbrev all_well : Outcomes ℕ
all_well = record {
  written = true;
  client_saved = true;
  decoded = none;
  opened = none;
  deletions = λ s. record { tokens = true; client = true };
}

abbrev unanswered : Network (List ToolInfo)
unanswered = λ s. failure [] false

abbrev daemon_of : Config ℕ → Daemon ℕ
daemon_of cfg = record {
  cfg = cfg;
  registry = new_registry cfg.servers (service_tools cfg) default_backoff;
  store = none;
  saved = none;
}

abbrev example_ids : Identifiers
example_ids = record {
  names = codes "web" ∷ codes "notes" ∷ [];
  aliases = codes "w" ∷ codes "n" ∷ [];
}

abbrev after_removal : Daemon ℕ
after_removal =
    (handle_change natural plain_web plain_files one_variable (λ t. t) all_well removal unanswered 1
      (daemon_of example_config)).1
