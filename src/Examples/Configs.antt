-- ===== src/Examples/Configs.antt =====
-- References that are expanded, and the servers of a configuration.
use mcpshim.Prelude.{
  ◌≡◌, ◌≢◌, refl, sym, ◌∙◌, false, none, some, [], ◌∷◌, ◌++◌, is_empty, if◌then◌else◌, has_byte,
  codes, All, ok, text_eq, arith, is_one_of, to_lower, trim_space,
}
use mcpshim.Config.Types.{McpServer}
use mcpshim.Config.Expand.{Env, expand_env_strict, expand_loop, expand_env, write, getenv}
use mcpshim.Config.Expand.Laws.{
  escape, expand_env_strict-escape, expand_env_strict-default, expand_loop_fuel,
}
use mcpshim.Config.Servers.{
  Identifiers, validate_servers, check_transport, claim_identifiers, normalize_transport,
}
use mcpshim.Config.Servers.Resolving.{IsFound, validate_servers-IsFound}

abbrev pub one_variable : Env
one_variable = λ name. if text_eq name (codes "A") then some (codes "v") else none

expand_escape_example : expand_env_strict one_variable (escape (codes "a$b")) ≡ (codes "a$b", [])
expand_escape_example = expand_env_strict-escape one_variable (codes "a$b")

expand_fuel_example :
    expand_loop one_variable ([], []) 2 (codes "$A") []
    ≡ expand_loop one_variable (codes "?", []) 5 (codes "$A") []
expand_fuel_example =
    expand_loop_fuel one_variable ([], []) (codes "?", []) 2 5 (codes "$A") [] (omega arith)
      (omega arith)

no_dollar : has_byte b'$' (codes "a") ≡ false
unfolding has_byte
no_dollar = refl

no_colon : has_byte b':' (codes "B") ≡ false
unfolding has_byte
no_colon = refl

no_brace : has_byte b'}' (codes "B" ++ b':' ∷ b'-' ∷ codes "f") ≡ false
unfolding has_byte
no_brace = refl

expand_default_example :
    expand_env_strict one_variable
      (codes "a" ++ b'$' ∷ b'{' ∷ ((codes "B" ++ b':' ∷ b'-' ∷ codes "f") ++ b'}' ∷ codes "$A"))
    ≡ write (codes "a") (
        write
          (if is_empty (getenv one_variable (codes "B"))
            then codes "f"
            else getenv one_variable (codes "B"))
          (expand_env_strict one_variable (codes "$A")))
expand_default_example =
    expand_env_strict-default one_variable (codes "a") (codes "B") (codes "f") (codes "$A")
      no_dollar no_colon no_brace

missing_named : (expand_env_strict one_variable (codes "x${C}")).1 ≡ codes "C"
unfolding expand_env_strict text_eq
missing_named = refl

missing_run : (expand_env_strict one_variable (codes "x${C}")).1 ≢ []
missing_run e = let named = sym missing_named ∙ e in cc

abbrev pub notes_server : McpServer
notes_server = record {
  name = codes "notes";
  alias = codes "n";
  url = codes "https://a";
  transport = codes "http";
  headers = [];
  headers_helper = [];
  command = [];
  args = [];
  env = [];
}

abbrev local_server : McpServer
local_server = record {
  name = codes "local";
  alias = [];
  url = [];
  transport = codes "stdio";
  headers = [];
  headers_helper = [];
  command = codes "run";
  args = [];
  env = [];
}

abbrev no_identifiers : Identifiers
no_identifiers = record { names = []; aliases = [] }

abbrev both_identifiers : Identifiers
both_identifiers = record {
  names = codes "local" ∷ codes "notes" ∷ [];
  aliases = codes "local" ∷ codes "n" ∷ [];
}

servers_run :
    validate_servers one_variable (notes_server ∷ local_server ∷ []) no_identifiers
    ≡ ok both_identifiers
unfolding validate_servers normalize_transport is_one_of trim_space to_lower check_transport
    expand_env claim_identifiers
servers_run = refl

validate_servers_example :
    All (IsFound (notes_server ∷ local_server ∷ [])) (notes_server ∷ local_server ∷ [])
validate_servers_example =
    validate_servers-IsFound one_variable (notes_server ∷ local_server ∷ []) no_identifiers
      both_identifiers servers_run
