-- ===== src/Mcp/Registry/Refreshing.antt =====
-- What one refresh does to the state and the tools of a server, and what the ticker leaves alone.
use mcpshim.Prelude.{
  ℕ, ◌≡◌, refl, ap, ◌∙◌, Bool, true, false, inl, inr, none, some, List, [], ◌∷◌, ◌==◌, Text,
  text_eq, text_eq_iff, text_eq_refl, lookup, insert, delete, lookup-insert, lookup-delete, arith,
  Bool-cases, pos,
}
use mcpshim.Config.Types.{McpServer}
use mcpshim.Mcp.State.{
  healthy, ServerState, Time, record_success, record_failure, skip_periodic, backoff_delay,
}
use mcpshim.Mcp.Registry.{
  Registry, Answer, tools, failure, state_or_new, schedule_backoff_retry, refresh_failed,
  refresh_succeeded, refresh_server, refresh_due,
}
use mcpshim.Mcp.Registry.Retries.{state_or_new-insert, state_or_new-some}

-- A server that is up: no failures count against it, and no retry waits.
pub record IsHealthy (st : ServerState) (now : Time) : Type 0 where
  pub status_is : st.status ≡ healthy
  pub no_failures : st.attempt_count ≡ 0
  pub no_error : st.last_error ≡ []
  pub succeeded_now : st.last_success_at ≡ now
  pub no_retry : st.retry_cancel ≡ none

record_success-IsHealthy : (st : ServerState) (now : Time) → IsHealthy (record_success st now).0 now
unfolding record_success
record_success-IsHealthy st now = ground arith

module _ {A : Type 0} where
  -- A refresh that gets an answer makes the server healthy, cancels its retry and caches its
  -- tools.
  pub refresh_server-IsHealthy :
      (s : McpServer) (items : A) (now : Time) (r : Registry A)
      → IsHealthy (state_or_new s.name (refresh_server s (tools items) now r).states) now
        × (lookup s.name (refresh_server s (tools items) now r).tool_cache ≡ some items)
  unfolding refresh_server refresh_succeeded
  refresh_server-IsHealthy s items now r = (
    rw (state_or_new-insert, text_eq_refl) (record_success-IsHealthy _ now),
    rw (lookup-insert, text_eq_refl) refl,
  )

  schedule_backoff_retry-other :
      (name other : Text) (attempt : ℕ) (now : Time) (r : Registry A)
      → text_eq other name ≡ false
      → (lookup name (schedule_backoff_retry other attempt now r).states ≡ lookup name r.states)
        × ((schedule_backoff_retry other attempt now r).tool_cache ≡ r.tool_cache)
  unfolding schedule_backoff_retry
  schedule_backoff_retry-other name other attempt now r h =
      elim (Bool-cases (backoff_delay r.backoff (pos attempt) == 0)) [
        | inl never ↦ rw never (refl, refl)
        | inr later ↦ rw later (rw (lookup-insert, h) refl, refl)
      ]

  refresh_failed-other :
      (name other : Text) (st : ServerState) (message : Text) (authorize : Bool) (now : Time)
      (r : Registry A)
      → text_eq other name ≡ false
      → (lookup name (refresh_failed other st message authorize now r).states
          ≡ lookup name r.states)
        × (lookup name (refresh_failed other st message authorize now r).tool_cache
            ≡ lookup name r.tool_cache)
  unfolding refresh_failed
  refresh_failed-other name other st message true now r h =
      (rw (lookup-insert, h) refl, rw (lookup-delete, h) refl)
  refresh_failed-other name other st message false now r h =
      let st' = (record_failure st (some message) false now).0 in
      let noted = record r {
        states = insert other st' r.states;
        tool_cache = delete other r.tool_cache;
      } in
      let (same_states, same_cache) =
        schedule_backoff_retry-other name other (record_failure st (some message) false now).1 now
          noted h in
      (
        same_states ∙ rw (lookup-insert, h) refl,
        ap (lookup name) same_cache ∙ rw (lookup-delete, h) refl,
      )

  -- A refresh touches the state and the tools of its own server only.
  pub refresh_server-other :
      (name : Text) (s : McpServer) (answer : Answer A) (now : Time) (r : Registry A)
      → text_eq s.name name ≡ false
      → (lookup name (refresh_server s answer now r).states ≡ lookup name r.states)
        × (lookup name (refresh_server s answer now r).tool_cache ≡ lookup name r.tool_cache)
  unfolding refresh_server refresh_succeeded
  refresh_server-other name s (failure message authorize) now r h =
      refresh_failed-other name s.name _ message authorize now r h
  refresh_server-other name s (tools items) now r h =
      (rw (lookup-insert, h) refl, rw (lookup-insert, h) refl)

  schedule_backoff_retry-cache :
      (name : Text) (attempt : ℕ) (now : Time) (r : Registry A)
      → (schedule_backoff_retry name attempt now r).tool_cache ≡ r.tool_cache
  unfolding schedule_backoff_retry
  schedule_backoff_retry-cache name attempt now r =
      elim (Bool-cases (backoff_delay r.backoff (pos attempt) == 0)) [
        | inl never ↦ rw never refl
        | inr later ↦ rw later refl
      ]

  -- A refresh that fails drops the tools of the server, whatever the error.
  pub refresh_server-drops :
      (s : McpServer) (message : Text) (authorize : Bool) (now : Time) (r : Registry A)
      → lookup s.name (refresh_server s (failure message authorize) now r).tool_cache ≡ none
  unfolding refresh_server refresh_failed
  refresh_server-drops s message true now r = rw (lookup-delete, text_eq_refl) refl
  refresh_server-drops s message false now r =
      rw schedule_backoff_retry-cache (rw (lookup-delete, text_eq_refl) refl)

  -- The ticker leaves a server alone that waits for a login or whose retry is due later: its state
  -- and its tools stay as they are, whatever the other servers answer.
  pub refresh_due-skips :
      (servers : List McpServer) (answers : McpServer → Answer A) (now : Time) (r : Registry A)
      (name : Text) (st : ServerState)
      → lookup name r.states ≡ some st
      → skip_periodic st now ≡ true
      → (lookup name (refresh_due servers answers now r).states ≡ some st)
        × (lookup name (refresh_due servers answers now r).tool_cache ≡ lookup name r.tool_cache)
  unfolding refresh_due
  refresh_due-skips [] answers now r name st e skip = (e, refl)
  refresh_due-skips (s ∷ servers) answers now r name st e skip =
      let found = state_or_new s.name r.states in
      let stored = record r { states = insert s.name found r.states } in
      elim (Bool-cases (text_eq s.name name)) [
        | inl same ↦
            let here = (text_eq_iff s.name name).0 same in
            let is_st : found ≡ st = state_or_new-some s.name r.states st (rw here e) in
            let skipped : skip_periodic found now ≡ true = rw is_st skip in
            let kept : lookup name stored.states ≡ some st =
              rw (lookup-insert, same) (ap some is_st) in
            rw (skipped, refresh_due)
              (refresh_due-skips servers answers now stored name st kept skip)
        | inr other ↦
            let kept : lookup name stored.states ≡ some st = rw (lookup-insert, other) e in
            elim (Bool-cases (skip_periodic found now)) [
              | inl skipped ↦
                  rw (skipped, refresh_due)
                    (refresh_due-skips servers answers now stored name st kept skip)
              | inr due ↦
                  let asked = refresh_server s (answers s) now stored in
                  let (same_states, same_cache) =
                    refresh_server-other name s (answers s) now stored other in
                  let (after, cache) =
                    refresh_due-skips servers answers now asked name st (same_states ∙ kept) skip in
                  rw (due, refresh_due) (after, cache ∙ same_cache)
            ]
      ]
