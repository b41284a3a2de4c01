-- ===== src/Mcp/Registry/Configured.antt =====
-- The refreshes of internal/mcp/mcp.go leave the configuration of the registry alone.
use mcpshim.Prelude.{
  ℕ, ◌≡◌, refl, ◌∙◌, Bool, true, false, not, ◌==◌, List, [], ◌∷◌, if◌then◌else◌, is_empty, Text,
  insert, pos, inl, inr, Bool-cases, Option-cases, keep,
}
use mcpshim.Config.Types.{McpServer}
use mcpshim.Mcp.State.{ServerState, Time, backoff_delay, skip_periodic}
use mcpshim.Mcp.Registry.{
  Registry, Retry, Answer, tools, failure, Network, state_or_new, schedule_backoff_retry,
  refresh_failed, refresh_succeeded, refresh_server, refresh_all, refresh, refresh_due,
  refresh_periodic, cache_http_services, fire_retry, find_server,
}

module _ {A : Type 0} where
  abbrev pub SameConfig : Registry A → Registry A → Type 0
  SameConfig r r' = (r'.servers ≡ r.servers) × (r'.http_tools ≡ r.http_tools)

  pub SameConfig-trans :
      (r r' r'' : Registry A) → SameConfig r r' → SameConfig r' r'' → SameConfig r r''
  SameConfig-trans r r' r'' a b = (b.0 ∙ a.0, b.1 ∙ a.1)

  schedule_backoff_retry-SameConfig :
      (name : Text) (attempt : ℕ) (now : Time) (r : Registry A)
      → SameConfig r (schedule_backoff_retry name attempt now r)
  unfolding schedule_backoff_retry
  schedule_backoff_retry-SameConfig name attempt now r =
      elim (Bool-cases (backoff_delay r.backoff (pos attempt) == 0)) [
        | inl never ↦ rw never (refl, refl)
        | inr later ↦ rw later (refl, refl)
      ]

  refresh_failed-SameConfig :
      (name : Text) (st : ServerState) (message : Text) (authorize : Bool) (now : Time)
      (r : Registry A)
      → SameConfig r (refresh_failed name st message authorize now r)
  unfolding refresh_failed
  refresh_failed-SameConfig name st message true now r = (refl, refl)
  refresh_failed-SameConfig name st message false now r =
      schedule_backoff_retry-SameConfig name _ now _

  pub refresh_server-SameConfig :
      (s : McpServer) (answer : Answer A) (now : Time) (r : Registry A)
      → SameConfig r (refresh_server s answer now r)
  unfolding refresh_server refresh_succeeded
  refresh_server-SameConfig s (failure message authorize) now r =
      refresh_failed-SameConfig s.name _ message authorize now r
  refresh_server-SameConfig s (tools items) now r = (refl, refl)

  refresh_all-SameConfig :
      (servers : List McpServer) (answers : Network A) (now : Time) (r : Registry A)
      → SameConfig r (refresh_all servers answers now r)
  unfolding refresh_all
  refresh_all-SameConfig [] answers now r = (refl, refl)
  refresh_all-SameConfig (s ∷ servers) answers now r =
      SameConfig-trans r (refresh_server s (answers s) now r)
        (refresh_all servers answers now (refresh_server s (answers s) now r))
        (refresh_server-SameConfig s (answers s) now r)
        (refresh_all-SameConfig servers answers now (refresh_server s (answers s) now r))

  cached : (now : Time) (r : Registry A) → SameConfig r (cache_http_services now r)
  unfolding cache_http_services
  cached now r = elim (Bool-cases (is_empty r.http_tools)) [
    | inl none_left ↦ rw none_left (refl, refl)
    | inr some_left ↦ rw some_left (refl, refl)
  ]

  pub refresh-SameConfig :
      (answers : Network A) (now : Time) (r : Registry A) → SameConfig r (refresh answers now r)
  unfolding refresh
  refresh-SameConfig answers now r =
      let middle = refresh_all r.servers answers now r in
      SameConfig-trans r middle (cache_http_services now middle)
        (refresh_all-SameConfig r.servers answers now r) (cached now middle)

  -- One round of the loop over the servers.
  abbrev round : McpServer → Network A → Time → Registry A → Registry A
  round s answers now r =
      let st = state_or_new s.name r.states in
      let stored = record r { states = insert s.name st r.states } in
      if skip_periodic st now then stored else refresh_server s (answers s) now stored

  round-SameConfig :
      (s : McpServer) (answers : Network A) (now : Time) (r : Registry A)
      → SameConfig r (round s answers now r)
  round-SameConfig s answers now r =
      let st = state_or_new s.name r.states in
      elim (Bool-cases (skip_periodic st now)) [
        | inl skipped ↦ rw skipped (refl, refl)
        | inr due ↦ rw due (
            refresh_server-SameConfig s (answers s) now
              (record r { states = insert s.name st r.states }))
      ]

  refresh_due-SameConfig :
      (servers : List McpServer) (answers : Network A) (now : Time) (r : Registry A)
      → SameConfig r (refresh_due servers answers now r)
  unfolding refresh_due
  refresh_due-SameConfig [] answers now r = (refl, refl)
  refresh_due-SameConfig (s ∷ servers) answers now r =
      let next = round s answers now r in
      SameConfig-trans r next (refresh_due servers answers now next)
        (round-SameConfig s answers now r) (refresh_due-SameConfig servers answers now next)

  pub refresh_periodic-SameConfig :
      (answers : Network A) (now : Time) (r : Registry A)
      → SameConfig r (refresh_periodic answers now r)
  unfolding refresh_periodic
  refresh_periodic-SameConfig answers now r =
      let middle = refresh_due r.servers answers now r in
      SameConfig-trans r middle (cache_http_services now middle)
        (refresh_due-SameConfig r.servers answers now r) (cached now middle)

  pub fire_retry-SameConfig :
      (g : Retry) (answer : Answer A) (now : Time) (r : Registry A)
      → SameConfig r (fire_retry g answer now r)
  unfolding fire_retry
  fire_retry-SameConfig g answer now r = elim (Option-cases (find_server r.servers g.server)) [
    | inl absent ↦ rw (absent, fire_retry) (refl, refl)
    | inr (s, present) ↦
        rw (present, fire_retry)
          (refresh_server-SameConfig s answer now
            (record r { retries = keep (λ h. not (h.channel == g.channel)) r.retries }))
  ]
