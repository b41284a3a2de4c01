-- ===== src/Config/Loading.antt =====
-- The default paths of internal/config/config.go, and what Load makes of a file that is decoded.
use mcpshim.Prelude.{
  zero, suc, false, List, [], ◌∷◌, ◌++◌, if◌then◌else◌, is_empty, Text, codes, trim_space, Result,
  ok, ◌>>=◌, map_err, ℤ, pos, negsuc,
}
use mcpshim.Value.{Numbers}
use mcpshim.Web.{Web}
use mcpshim.Config.Types.{ServerConfig, Config}
use mcpshim.Config.Expand.{Env, getenv}
use mcpshim.Config.Servers.{normalize_servers}
use mcpshim.Config.Services.{ServiceError, config_fault, normalize_http_services, validate_config}

-- filepath.Join, filepath.Dir and the text of os.Getuid().
pub record Files : Type 0 where
  pub join : List Text → Text
  pub dir : Text → Text
  pub uid : Text

abbrev pub default_history_size : ℤ
default_history_size = pos 1000

-- strings.TrimSpace(os.Getenv(name))
abbrev pub trimmed_env : Env → Text → Text
trimmed_env env name = trim_space (getenv env name)

module _ (files : Files) (env : Env) where
  unfoldable pub home_dir : Text
  home_dir =
      let home = trimmed_env env (codes "HOME") in
      if is_empty home then codes "/tmp/mcpshim-" ++ files.uid else home

  unfoldable pub xdg_config_home : Text
  xdg_config_home =
      let dir = trimmed_env env (codes "XDG_CONFIG_HOME") in
      if is_empty dir then files.join (home_dir ∷ codes ".config" ∷ []) else dir

  unfoldable pub default_config_path : Text
  default_config_path =
      let path = trimmed_env env (codes "MCPSHIM_CONFIG") in
      if is_empty path
      then files.join (xdg_config_home ∷ codes "mcpshim" ∷ codes "config.yaml" ∷ [])
      else path

  unfoldable pub default_socket_path : Text
  default_socket_path =
      let dir = trimmed_env env (codes "XDG_RUNTIME_DIR") in
      if is_empty dir
      then codes "/tmp/mcpshim-" ++ files.uid ++ codes ".sock"
      else files.join (dir ∷ codes "mcpshim.sock" ∷ [])

  -- A file of the data directory.
  abbrev data_path : Text → Text
  data_path name =
      let dir = trimmed_env env (codes "XDG_DATA_HOME") in
      if is_empty dir
      then files.join (home_dir ∷ codes ".local" ∷ codes "share" ∷ codes "mcpshim" ∷ name ∷ [])
      else files.join (dir ∷ codes "mcpshim" ∷ name ∷ [])

  unfoldable pub default_db_path : Text
  default_db_path = data_path (codes "mcpshim.db")

  unfoldable pub default_manifest_path : Text → Text
  default_manifest_path db_path =
      if is_empty db_path
      then data_path (codes "manifest.md")
      else files.join (files.dir db_path ∷ codes "manifest.md" ∷ [])

  -- The defaults of the server section in Load.
  unfoldable pub default_server : ServerConfig → ServerConfig
  default_server server =
      let db_path = if is_empty server.db_path then default_db_path else server.db_path in
      record server {
        socket_path =
            if is_empty server.socket_path then default_socket_path else server.socket_path;
        db_path = db_path;
        manifest_path =
            if is_empty server.manifest_path
            then default_manifest_path db_path
            else server.manifest_path;
        history_size = elim server.history_size [
          | pos k ↦ elim k [ zero ↦ default_history_size | suc j ↦ pos (suc j) ]
          | negsuc k ↦ negsuc k
        ];
      }

module _ (n : Numbers) (web : Web n.Num) (files : Files) (env : Env) where
  -- Load, behind the decoder
  unfoldable pub load_decoded : Config n.Num → Result ServiceError (Config n.Num)
  load_decoded decoded = do
    servers ← map_err config_fault (normalize_servers decoded.servers)
    _ ← validate_config n web env (record {
      server = default_server files env decoded.server;
      servers = servers;
      http_services = normalize_http_services decoded.http_services;
    })
    ok (record {
      server = default_server files env decoded.server;
      servers = servers;
      http_services = normalize_http_services decoded.http_services;
    })

  -- The configuration that LoadOrInit writes where there is none.
  unfoldable pub initial_config : Config n.Num
  initial_config = record {
    server = record {
      socket_path = default_socket_path files env;
      db_path = default_db_path files env;
      manifest_path = default_manifest_path files env (default_db_path files env);
      history_size = default_history_size;
      allow_registry_writes = false;
    };
    servers = [];
    http_services = [];
  }
