-- ===== src/Mcp/Registry.antt =====
-- The Registry of internal/mcp/mcp.go: the configuration, the tools of each server and the health
-- of each server, with the retries that wait. One refresh is one step: what the network answers is
-- an argument, and refreshes of one server do not interleave.
pub mod Retries
pub mod Steps
pub mod Lookups
pub mod Refreshing
pub mod Configured
use mcpshim.Prelude.{
  ℕ, zero, suc, ◌+◌, ◌≤◌, Bool, true, false, not, ◌||◌, Option, none, some, List, [], ◌∷◌, ◌++◌,
  ◌==◌, if◌then◌else◌, length, is_empty, Text, codes, text_eq, ℤ, pos, Map, lookup, insert, delete,
  is_some, any, keep,
}
use mcpshim.Config.Types.{McpServer}
use mcpshim.Mcp.State.{
  Status, unknown, healthy, degraded, failed, auth_required, is_auth_required, ServerState,
  new_server_state, Time, Channel, skip_periodic, cancel_retry, record_success, record_failure,
  schedule_retry, backoff_delay,
}

-- A goroutine of scheduleBackoffRetry that waits for its timer or its channel.
pub record Retry : Type 0 where
  pub server : Text
  pub channel : Channel
  pub due : Time

-- `A` is the type of what a server answers with, its tools.
pub record Registry (A : Type 0) : Type 0 where
  pub servers : List McpServer
  pub http_tools : Map A
  pub tool_cache : Map A
  pub cache_stamp : Time
  pub states : Map ServerState
  pub backoff : List ℕ
  pub next_channel : Channel
  pub closed : List Channel
  pub retries : List Retry

-- fetchToolsForServer: the tools, or the text of an error and whether it asks for a login.
pub data Answer (A : Type 0) : Type 0 where
  tools : A → Answer A
  failure : Text → Bool → Answer A

-- findServer
unfoldable pub find_server : List McpServer → Text → Option McpServer
find_server [] name_or_alias = none
find_server (s ∷ servers) name_or_alias =
    if text_eq s.name name_or_alias || text_eq s.alias name_or_alias
    then some s
    else find_server servers name_or_alias

-- The states of a new registry.
unfoldable pub new_states : List McpServer → Map ServerState → Map ServerState
new_states [] states = states
new_states (s ∷ servers) states = new_states servers (insert s.name new_server_state states)

-- `states[name]`, or the state that stateFor would create.
unfoldable pub state_or_new : Text → Map ServerState → ServerState
state_or_new name states = elim (lookup name states) [ none ↦ new_server_state | some st ↦ st ]

-- The loop that fills `keep` in UpdateConfig.
unfoldable pub kept_states : Map ServerState → List McpServer → Map ServerState → Map ServerState
kept_states states [] keeping = keeping
kept_states states (s ∷ servers) keeping =
    kept_states states servers (insert s.name (state_or_new s.name states) keeping)

-- The loop that cancels the retries of removed servers.
unfoldable pub cancel_removed : Map ServerState → Map ServerState → List Channel
cancel_removed keeping [] = []
cancel_removed keeping ((name, st) ∷ states) =
    let rest = cancel_removed keeping states in
    if is_some (lookup name keeping) then rest else (cancel_retry st).1 ++ rest

-- The answers of the servers, each by the server that is asked.
abbrev pub Network : Type 0 → Type 0
Network A = McpServer → Answer A

module _ {A : Type 0} where
  unfoldable pub new_registry : List McpServer → Map A → List ℕ → Registry A
  new_registry servers http_tools backoff = record {
    servers = servers;
    http_tools = http_tools;
    tool_cache = [];
    cache_stamp = 0;
    states = new_states servers [];
    backoff = backoff;
    next_channel = 0;
    closed = [];
    retries = [];
  }

  unfoldable pub update_config : List McpServer → Map A → Registry A → Registry A
  update_config servers http_tools r =
      let keeping = kept_states r.states servers [] in
      record r {
        servers = servers;
        http_tools = http_tools;
        tool_cache = [];
        cache_stamp = 0;
        states = keeping;
        closed = cancel_removed keeping r.states ++ r.closed;
      }

  -- scheduleBackoffRetry; `none` is the index of no retry.
  unfoldable pub schedule_backoff_retry : Text → ℕ → Time → Registry A → Registry A
  schedule_backoff_retry name attempt now r =
      let delay = backoff_delay r.backoff (pos attempt) in
      if delay == 0
      then r
      else let (st, closing) =
          schedule_retry (state_or_new name r.states) delay r.next_channel now in
        record r {
          states = insert name st r.states;
          next_channel = suc r.next_channel;
          closed = closing ++ r.closed;
          retries =
              record { server = name; channel = r.next_channel; due = now + delay } ∷ r.retries;
        }

  -- The failure branch of refreshServer; `st` is the state with the attempt noted.
  unfoldable pub refresh_failed : Text → ServerState → Text → Bool → Time → Registry A → Registry A
  refresh_failed name st message authorize now r =
      let (st', index) = record_failure st (some message) authorize now in
      let noted = record r {
        states = insert name st' r.states;
        tool_cache = delete name r.tool_cache;
      } in
      if authorize then noted else schedule_backoff_retry name index now noted

  unfoldable pub refresh_succeeded : Text → ServerState → A → Time → Registry A → Registry A
  refresh_succeeded name st items now r =
      let (st', closing) = record_success st now in
      record r {
        states = insert name st' r.states;
        tool_cache = insert name items r.tool_cache;
        cache_stamp = now;
        closed = closing ++ r.closed;
      }

  -- refreshServer
  unfoldable pub refresh_server : McpServer → Answer A → Time → Registry A → Registry A
  refresh_server s (failure message authorize) now r =
      refresh_failed s.name (record (state_or_new s.name r.states) { last_attempt_at = now })
        message authorize now r
  refresh_server s (tools items) now r =
      refresh_succeeded s.name (record (state_or_new s.name r.states) { last_attempt_at = now })
        items now r

  -- cacheHTTPServices
  unfoldable pub cache_http_tools : Map A → Map A → Map A
  cache_http_tools [] cache = cache
  cache_http_tools ((name, items) ∷ services) cache =
      cache_http_tools services (insert name items cache)

  unfoldable pub cache_http_services : Time → Registry A → Registry A
  cache_http_services now r =
      if is_empty r.http_tools
      then r
      else record r { tool_cache = cache_http_tools r.http_tools r.tool_cache; cache_stamp = now }

  -- Refresh, over the configuration that it read
  unfoldable pub refresh_all : List McpServer → Network A → Time → Registry A → Registry A
  refresh_all [] answers now r = r
  refresh_all (s ∷ servers) answers now r =
      refresh_all servers answers now (refresh_server s (answers s) now r)

  unfoldable pub refresh : Network A → Time → Registry A → Registry A
  refresh answers now r = cache_http_services now (refresh_all r.servers answers now r)

  -- The loop of RefreshPeriodic. stateFor also stores the state that it creates.
  unfoldable pub refresh_due : List McpServer → Network A → Time → Registry A → Registry A
  refresh_due [] answers now r = r
  refresh_due (s ∷ servers) answers now r =
      let st = state_or_new s.name r.states in
      let stored = record r { states = insert s.name st r.states } in
      refresh_due servers answers now
        (if skip_periodic st now then stored else refresh_server s (answers s) now stored)

  unfoldable pub refresh_periodic : Network A → Time → Registry A → Registry A
  refresh_periodic answers now r = cache_http_services now (refresh_due r.servers answers now r)

  -- The timer of a waiting goroutine fires: it leaves the waiting ones, and refreshes its server if
  -- that is still configured. The select may take the timer only if the channel is open.
  unfoldable pub fire_retry : Retry → Answer A → Time → Registry A → Registry A
  fire_retry g answer now r =
      let left = record r { retries = keep (λ h. not (h.channel == g.channel)) r.retries } in
      elim (find_server r.servers g.server) [
        | none ↦ left
        | some s ↦ refresh_server s answer now left
      ]
