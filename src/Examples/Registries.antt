-- ===== src/Examples/Registries.antt =====
-- The health of servers, and the steps of a registry.
use mcpshim.Prelude.{ℕ, ◌≤◌, ◌≡◌, refl, true, false, some, [], ◌∷◌, codes, text_eq, lookup}
use mcpshim.Mcp.State.{ServerState, auth_required, new_server_state, default_backoff, skip_periodic}
use mcpshim.Mcp.Registry.{Registry, tools, failure, new_registry, refresh_server, refresh_due}
use mcpshim.Mcp.Registry.Refreshing.{refresh_due-skips}
use mcpshim.Mcp.Registry.Steps.{here, next, asked, open_retries, open_retries-le-one}
use mcpshim.Examples.Configs.{notes_server}

abbrev fresh_registry : Registry ℕ
fresh_registry = new_registry (notes_server ∷ []) [] default_backoff

abbrev pub twice_failed : Registry ℕ
twice_failed =
    refresh_server notes_server (failure (codes "e") false) 9
      (refresh_server notes_server (failure (codes "e") false) 2 fresh_registry)

open_retries_example : open_retries twice_failed.closed (codes "notes") twice_failed.retries ≤ 1
open_retries_example = open_retries-le-one (notes_server ∷ []) [] default_backoff (codes "notes") (
    next (next here (asked notes_server (failure (codes "e") false) 2))
      (asked notes_server (failure (codes "e") false) 9))

abbrev waiting_state : ServerState
waiting_state = record new_server_state { status = auth_required }

abbrev waiting_registry : Registry ℕ
waiting_registry = record fresh_registry { states = (codes "notes", waiting_state) ∷ [] }

waiting_found : lookup (codes "notes") waiting_registry.states ≡ some waiting_state
unfolding lookup text_eq
waiting_found = refl

waiting_skipped : skip_periodic waiting_state 5 ≡ true
unfolding skip_periodic
waiting_skipped = refl

refresh_due_example :
    (lookup
        (codes "notes")
        (refresh_due (notes_server ∷ []) (λ s. tools 4) 5 waiting_registry).states
      ≡ some waiting_state)
    × (lookup
          (codes "notes")
          (refresh_due (notes_server ∷ []) (λ s. tools 4) 5 waiting_registry).tool_cache
        ≡ lookup (codes "notes") waiting_registry.tool_cache)
refresh_due_example =
    refresh_due-skips (notes_server ∷ []) (λ s. tools 4) 5 waiting_registry (codes "notes")
      waiting_state waiting_found waiting_skipped
