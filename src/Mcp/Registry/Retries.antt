-- ===== src/Mcp/Registry/Retries.antt =====
-- The retries of a registry that wait, and the channels of its states.
use mcpshim.Prelude.{
  ℕ, suc, ◌<◌, ◌≡◌, ◌≢◌, refl, ◌∙◌, Bool, true, ◌||◌, ◌⊎◌, inl, inr, Option, some, List, [], ◌∷◌,
  ◌++◌, ◌==◌, if◌then◌else◌, Text, is_empty, text_eq, text_eq_iff, text_eq_refl, Map, lookup,
  insert, delete, lookup-insert, any, All, arith, Bool-cases, pos,
}
use mcpshim.Config.Types.{McpServer}
use mcpshim.Mcp.State.{
  ServerState, Time, Channel, cancel_retry, record_success, record_failure, schedule_retry,
  skip_periodic, backoff_delay,
}
use mcpshim.Mcp.Registry.{
  Retry, Registry, Answer, tools, failure, state_or_new, schedule_backoff_retry, refresh_failed,
  refresh_succeeded, refresh_server, refresh_all, refresh, refresh_due, refresh_periodic,
  cache_http_services,
}

abbrev pub is_closed : List Channel → Channel → Bool
is_closed closed c = any closed (λ d. d == c)

-- A waiting retry is cancelled, or it is the one that the state of its server knows.
abbrev pub IsOwned : List Channel → Map ServerState → Retry → Type 0
IsOwned closed states g =
    (is_closed closed g.channel ≡ true)
    ⊎ ((state_or_new g.server states).retry_cancel ≡ some g.channel)

-- No two retries wait on one channel.
abbrev pub Distinct : List Retry → Type 0
Distinct [] = Unit
Distinct (g ∷ gs) = All (λ h. h.channel ≢ g.channel) gs × Distinct gs

-- Every waiting retry is owned, and has a channel of its own that this registry made.
pub record IsLive {A : Type 0} (r : Registry A) : Type 0 where
  pub owned : All (IsOwned r.closed r.states) r.retries
  pub made : All (λ g. g.channel < r.next_channel) r.retries
  pub distinct : Distinct r.retries

-- Owned retries stay owned where each is kept by its server or closed.
pub All-IsOwned :
    (closed closed' : List Channel) (states states' : Map ServerState) (gs : List Retry)
    → ((g : Retry) → IsOwned closed states g → IsOwned closed' states' g)
    → All (IsOwned closed states) gs
    → All (IsOwned closed' states') gs
All-IsOwned closed closed' states states' [] step h = tt
All-IsOwned closed closed' states states' (g ∷ gs) step h =
    (step g h.0, All-IsOwned closed closed' states states' gs step h.1)

pub is_closed-append :
    (new closed : List Channel) (c : Channel)
    → is_closed (new ++ closed) c ≡ (is_closed new c || is_closed closed c)
is_closed-append [] closed c = refl
is_closed-append (d ∷ new) closed c = ground (arith, is_closed-append new closed c)

-- A new state of one server, and the channels that the change closes, give up no open retry of it.
abbrev Hands : ServerState → ServerState × List Channel → Type 0
Hands st out =
    (c : Channel)
    → st.retry_cancel ≡ some c
    → (is_closed out.1 c ≡ true) ⊎ (out.0.retry_cancel ≡ some c)

pub state_or_new-some :
    (name : Text) (states : Map ServerState) (st : ServerState)
    → lookup name states ≡ some st
    → state_or_new name states ≡ st
unfolding state_or_new
state_or_new-some name states st e = ground arith

pub state_or_new-insert :
    (name k : Text) (st : ServerState) (states : Map ServerState)
    → state_or_new k (insert name st states)
      ≡ (if text_eq name k then st else state_or_new k states)
unfolding state_or_new
state_or_new-insert name k st states = ground (arith, lookup-insert name k st states)

-- Storing such a state keeps every retry owned.
insert-IsOwned :
    (closed : List Channel) (states : Map ServerState) (name : Text)
    (out : ServerState × List Channel)
    → Hands (state_or_new name states) out
    → (g : Retry) → IsOwned closed states g
    → IsOwned (out.1 ++ closed) (insert name out.0 states) g
insert-IsOwned closed states name out hands g (inl h) = inl (rw is_closed-append (ground arith))
insert-IsOwned closed states name out hands g (inr h) = elim (Bool-cases (text_eq name g.server)) [
  | inl same ↦
      let here = (text_eq_iff name g.server).0 same in handed same (hands g.channel (rw here h))
  | inr other ↦ inr (rw (state_or_new-insert, other) h)
]
  where
    handed :
        text_eq name g.server ≡ true
        → (is_closed out.1 g.channel ≡ true) ⊎ (out.0.retry_cancel ≡ some g.channel)
        → IsOwned (out.1 ++ closed) (insert name out.0 states) g
    handed same (inl c) = inl (rw is_closed-append (ground arith))
    handed same (inr k) = inr (rw (state_or_new-insert, same) k)

cancel_retry-Hands : (st : ServerState) → Hands st (cancel_retry st)
unfolding cancel_retry
cancel_retry-Hands st c e = inl (ground arith)

record_success-Hands : (st : ServerState) (now : Time) → Hands st (record_success st now)
unfolding record_success
record_success-Hands st now c e = inl (ground arith)

schedule_retry-Hands :
    (st : ServerState) (delay : ℕ) (channel : Channel) (now : Time)
    → Hands st (schedule_retry st delay channel now)
unfolding schedule_retry
schedule_retry-Hands st delay channel now c e = inl (ground arith)

-- The state that is stored knows the channel that was made for the retry.
scheduled :
    (name : Text) (st : ServerState) (delay : ℕ) (channel : Channel) (now : Time)
    (states : Map ServerState)
    → (state_or_new name (insert name (schedule_retry st delay channel now).0 states)).retry_cancel
      ≡ some channel
scheduled name st delay channel now states =
    rw (state_or_new-insert, text_eq_refl) (unfold schedule_retry in refl)

record_failure-Hands :
    (st : ServerState) (err : Option Text) (authorize : Bool) (now : Time) (c : Channel)
    → st.retry_cancel ≡ some c
    → (record_failure st err authorize now).0.retry_cancel ≡ some c
unfolding record_failure
record_failure-Hands st err authorize now c e = e

All-lt-suc :
    (n : ℕ) (gs : List Retry) → All (λ g. g.channel < n) gs → All (λ g. g.channel < suc n) gs
All-lt-suc n [] h = tt
All-lt-suc n (g ∷ gs) h = (omega arith, All-lt-suc n gs h.1)

All-lt-ne : (n : ℕ) (gs : List Retry) → All (λ g. g.channel < n) gs → All (λ g. g.channel ≢ n) gs
All-lt-ne n [] h = tt
All-lt-ne n (g ∷ gs) h = (omega arith, All-lt-ne n gs h.1)

module _ {A : Type 0} where
  -- A registry whose states and closed channels change so is live.
  stored-IsLive :
      (r r' : Registry A) (name : Text) (out : ServerState × List Channel)
      → IsLive r
      → Hands (state_or_new name r.states) out
      → r'.states ≡ insert name out.0 r.states
      → r'.closed ≡ out.1 ++ r.closed
      → r'.retries ≡ r.retries
      → r'.next_channel ≡ r.next_channel
      → IsLive r'
  stored-IsLive r r' name out live hands es ec er en = record {
    owned =
        rw (es, ec, er)
          (All-IsOwned r.closed (out.1 ++ r.closed) r.states (insert name out.0 r.states) r.retries
            (insert-IsOwned r.closed r.states name out hands) live.owned);
    made = rw (er, en) live.made;
    distinct = rw er live.distinct;
  }

  schedule_backoff_retry-IsLive :
      (name : Text) (attempt : ℕ) (now : Time) (r : Registry A)
      → IsLive r
      → IsLive (schedule_backoff_retry name attempt now r)
  unfolding schedule_backoff_retry
  schedule_backoff_retry-IsLive name attempt now r live =
      let delay = backoff_delay r.backoff (pos attempt) in
      let out = schedule_retry (state_or_new name r.states) delay r.next_channel now in
      elim (Bool-cases (delay == 0)) [
        | inl never ↦ rw never live
        | inr later ↦ rw later (record {
          owned = (
            inr (scheduled name (state_or_new name r.states) delay r.next_channel now r.states),
            All-IsOwned r.closed (out.1 ++ r.closed) r.states (insert name out.0 r.states) r.retries
                (insert-IsOwned r.closed r.states name out
                  (schedule_retry-Hands (state_or_new name r.states) delay r.next_channel now))
                live.owned,
          );
          made = (omega arith, All-lt-suc r.next_channel r.retries live.made);
          distinct = (All-lt-ne r.next_channel r.retries live.made, live.distinct);
        })
      ]

  refresh_failed-IsLive :
      (name : Text) (st : ServerState) (message : Text) (authorize : Bool) (now : Time)
      (r : Registry A)
      → IsLive r
      → st.retry_cancel ≡ (state_or_new name r.states).retry_cancel
      → IsLive (refresh_failed name st message authorize now r)
  unfolding refresh_failed
  refresh_failed-IsLive name st message authorize now r live same =
      let st' = (record_failure st (some message) authorize now).0 in
      let noted = record r {
        states = insert name st' r.states;
        tool_cache = delete name r.tool_cache;
      } in
      let noted_live : IsLive noted =
        stored-IsLive r noted name (st', []) live
          (λ c e. inr (record_failure-Hands st (some message) authorize now c (same ∙ e))) refl refl
          refl refl in
      elim (Bool-cases authorize) [
        | inl login ↦ rw login (rw login at noted_live)
        | inr retry ↦ rw retry (schedule_backoff_retry-IsLive name _ now _ (rw retry at noted_live))
      ]

  refresh_succeeded-IsLive :
      (name : Text) (st : ServerState) (items : A) (now : Time) (r : Registry A)
      → IsLive r
      → st.retry_cancel ≡ (state_or_new name r.states).retry_cancel
      → IsLive (refresh_succeeded name st items now r)
  unfolding refresh_succeeded
  refresh_succeeded-IsLive name st items now r live same =
      stored-IsLive r _ name (record_success st now) live
        (λ c e. record_success-Hands st now c (same ∙ e)) refl refl refl refl

  pub refresh_server-IsLive :
      (s : McpServer) (answer : Answer A) (now : Time) (r : Registry A)
      → IsLive r
      → IsLive (refresh_server s answer now r)
  unfolding refresh_server
  refresh_server-IsLive s (failure message authorize) now r live =
      refresh_failed-IsLive s.name _ message authorize now r live refl
  refresh_server-IsLive s (tools items) now r live =
      refresh_succeeded-IsLive s.name _ items now r live refl

  refresh_all-IsLive :
      (servers : List McpServer) (answers : McpServer → Answer A) (now : Time) (r : Registry A)
      → IsLive r
      → IsLive (refresh_all servers answers now r)
  unfolding refresh_all
  refresh_all-IsLive [] answers now r live = live
  refresh_all-IsLive (s ∷ servers) answers now r live =
      refresh_all-IsLive servers answers now _ (refresh_server-IsLive s (answers s) now r live)

  cache_http_services-IsLive :
      (now : Time) (r : Registry A) → IsLive r → IsLive (cache_http_services now r)
  unfolding cache_http_services
  cache_http_services-IsLive now r live = elim (Bool-cases (is_empty r.http_tools)) [
    | inl bare ↦ rw bare live
    | inr some_services ↦
        rw some_services (record { owned = live.owned; made = live.made; distinct = live.distinct })
  ]

  pub refresh-IsLive :
      (answers : McpServer → Answer A) (now : Time) (r : Registry A)
      → IsLive r
      → IsLive (refresh answers now r)
  unfolding refresh
  refresh-IsLive answers now r live =
      cache_http_services-IsLive now _ (refresh_all-IsLive r.servers answers now r live)

  refresh_due-IsLive :
      (servers : List McpServer) (answers : McpServer → Answer A) (now : Time) (r : Registry A)
      → IsLive r
      → IsLive (refresh_due servers answers now r)
  unfolding refresh_due
  refresh_due-IsLive [] answers now r live = live
  refresh_due-IsLive (s ∷ servers) answers now r live =
      let st = state_or_new s.name r.states in
      let stored = record r { states = insert s.name st r.states } in
      let stored_live : IsLive stored =
        stored-IsLive r stored s.name (st, []) live (λ c e. inr e) refl refl refl refl in
      elim (Bool-cases (skip_periodic st now)) [
        | inl skip ↦ rw skip (refresh_due-IsLive servers answers now stored stored_live)
        | inr go ↦ rw go (
            refresh_due-IsLive servers answers now _
              (refresh_server-IsLive s (answers s) now stored stored_live))
      ]

  pub refresh_periodic-IsLive :
      (answers : McpServer → Answer A) (now : Time) (r : Registry A)
      → IsLive r
      → IsLive (refresh_periodic answers now r)
  unfolding refresh_periodic
  refresh_periodic-IsLive answers now r live =
      cache_http_services-IsLive now _ (refresh_due-IsLive r.servers answers now r live)
