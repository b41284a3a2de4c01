-- ===== src/Mcp/Overview/Counting.antt =====
-- The counts of Health in internal/mcp/mcp.go.
use mcpshim.Prelude.{ℕ, ◌+◌, ◌≡◌, refl, ◌∙◌, List, [], ◌∷◌, length, Text, Map, arith}
use mcpshim.Config.Types.{McpServer}
use mcpshim.Mcp.State.{ServerState}
use mcpshim.Mcp.Registry.{Registry}
use mcpshim.Mcp.Overview.{bump, status_text, status_of, health_of, health}

abbrev pub total : Map ℕ → ℕ
total [] = 0
total ((k, n) ∷ m) = n + total m

total-bump : (k : Text) (m : Map ℕ) → total (bump k m) ≡ total m + 1
unfolding bump
total-bump k [] = refl
total-bump k ((j, n) ∷ m) = ground (arith, total-bump k m)

total-health_of :
    (states : Map ServerState) (servers : List McpServer) (counts : Map ℕ) (blocked : List Text)
    → total (health_of states servers counts blocked).0 ≡ total counts + length servers
unfolding health_of
total-health_of states [] counts blocked = omega arith
total-health_of states (s ∷ servers) counts blocked =
    let k = status_text (status_of states s.name) in
    let first = total-bump k counts in
    total-health_of states servers (bump k counts) _ ∙ omega (arith, first)

-- Health counts every configured server once: the counts of all statuses add up to the number of
-- the servers.
pub total-health : {A : Type 0} → (r : Registry A) → total (health r).0 ≡ length r.servers
unfolding health
total-health r = let counted = total-health_of r.states r.servers [] [] in omega (arith, counted)
