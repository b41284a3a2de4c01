-- ===== src/Mcp/Registry/Lookups.antt =====
-- What update_config does to the state and the retry of each server.
use mcpshim.Prelude.{
  ◌≡◌, refl, ◌∙◌, Bool, none, some, List, [], ◌∷◌, if◌then◌else◌, Text, text_eq, text_eq_iff, Map,
  lookup, insert, lookup-insert, any, arith,
}
use mcpshim.Config.Types.{McpServer}
use mcpshim.Mcp.State.{ServerState}
use mcpshim.Mcp.Registry.{Registry, state_or_new, kept_states, update_config}

-- The configuration has a server of this name.
abbrev pub is_configured : List McpServer → Text → Bool
is_configured servers name = any servers (λ s. text_eq s.name name)

lookup-kept_states :
    (states : Map ServerState) (servers : List McpServer) (keeping : Map ServerState) (name : Text)
    → lookup name (kept_states states servers keeping) ≡ (
        if is_configured servers name then some (state_or_new name states) else lookup name keeping)
unfolding kept_states
lookup-kept_states states [] keeping name = refl
lookup-kept_states states (s ∷ servers) keeping name =
    let ih =
      lookup-kept_states states servers (insert s.name (state_or_new s.name states) keeping) name in
    let one = lookup-insert s.name name (state_or_new s.name states) keeping in
    ground (arith, ih, one, text_eq_iff s.name name)

-- After the configuration is replaced, a server that is configured has the state that it had, or a
-- new one if it had none, and no other name has a state.
pub lookup-update_config :
    {A : Type 0} (servers : List McpServer) (http_tools : Map A) (r : Registry A) (name : Text)
    → lookup name (update_config servers http_tools r).states
      ≡ (if is_configured servers name then some (state_or_new name r.states) else none)
unfolding update_config
lookup-update_config servers http_tools r name =
    lookup-kept_states r.states servers [] name ∙ (unfold lookup in refl)
