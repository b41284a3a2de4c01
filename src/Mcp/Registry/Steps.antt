-- ===== src/Mcp/Registry/Steps.antt =====
-- The registry over time: refreshes, retries that fire and replaced configurations, in any order.
use mcpshim.Prelude.{
  ℕ, ◌+◌, ◌≤◌, ◌<◌, ◌≡◌, ◌≢◌, refl, sym, ap, ◌∙◌, Bool, true, false, not, ◌&&◌, inl, inr, Option,
  none, some, List, [], ◌∷◌, ◌==◌, if◌then◌else◌, Text, text_eq, text_eq_iff, Map, lookup, is_some,
  keep, All, arith, Bool-cases, Option-cases,
}
use mcpshim.Config.Types.{McpServer}
use mcpshim.Mcp.State.{ServerState, Time, Channel, cancel_retry}
use mcpshim.Mcp.Registry.{
  Retry, Registry, Answer, state_or_new, cancel_removed, kept_states, update_config, new_registry,
  refresh_server, refresh, refresh_periodic, fire_retry, find_server,
}
use mcpshim.Mcp.Registry.Lookups.{is_configured, lookup-update_config}
use mcpshim.Mcp.Registry.Retries.{
  is_closed, IsOwned, IsLive, Distinct, state_or_new-some, All-IsOwned, is_closed-append,
  refresh_server-IsLive, refresh-IsLive, refresh_periodic-IsLive,
}

abbrev retry_of : ServerState → Option Channel
retry_of st = st.retry_cancel

closes_own :
    (w : ServerState) (c : Channel)
    → w.retry_cancel ≡ some c
    → is_closed (cancel_retry w).1 c ≡ true
unfolding cancel_retry
closes_own w c h = ground arith

no_retry :
    (name : Text) (states : Map ServerState) (c : Channel)
    → lookup name states ≡ none
    → (state_or_new name states).retry_cancel ≡ some c
    → ⊥
unfolding state_or_new
no_retry name states c e h = ground arith

cancel_removed-closes :
    (keeping states : Map ServerState) (name : Text) (st : ServerState) (c : Channel)
    → lookup name keeping ≡ none
    → lookup name states ≡ some st
    → st.retry_cancel ≡ some c
    → is_closed (cancel_removed keeping states) c ≡ true
unfolding cancel_removed lookup cancel_retry
cancel_removed-closes keeping [] name st c k e h = cc
cancel_removed-closes keeping ((j, w) ∷ states) name st c k e h =
    let ih = cancel_removed-closes keeping states name st c k in
    let joined = is_closed-append (cancel_retry w).1 (cancel_removed keeping states) c in
    elim (Bool-cases (text_eq j name)) [
      | inl same ↦
          let here = (text_eq_iff j name).0 same in
          let gone : is_some (lookup j keeping) ≡ false = rw (here, k) refl in
          let holds : w ≡ st = ground arith in
          rw gone (joined ∙ rw (closes_own w c (ap retry_of holds ∙ h)) refl)
      | inr other ↦ elim (Bool-cases (is_some (lookup j keeping))) [
        | inl kept ↦ rw kept (ih (rw other at e) h)
        | inr gone ↦ rw gone (joined ∙ ground (arith, ih (rw other at e) h))
      ]
    ]

module _ {A : Type 0} where
  closed_by :
      (servers : List McpServer) (http_tools : Map A) (r : Registry A) (g : Retry)
      → is_closed (cancel_removed (update_config servers http_tools r).states r.states) g.channel
        ≡ true
      → is_closed (update_config servers http_tools r).closed g.channel ≡ true
  unfolding update_config
  closed_by servers http_tools r g h =
      is_closed-append (cancel_removed (kept_states r.states servers []) r.states) r.closed
        g.channel
      ∙ rw h refl

  still_closed :
      (servers : List McpServer) (http_tools : Map A) (r : Registry A) (g : Retry)
      → is_closed r.closed g.channel ≡ true
      → is_closed (update_config servers http_tools r).closed g.channel ≡ true
  unfolding update_config
  still_closed servers http_tools r g h =
      is_closed-append (cancel_removed (kept_states r.states servers []) r.states) r.closed
        g.channel
      ∙ ground arith

  update_config-IsOwned :
      (servers : List McpServer) (http_tools : Map A) (r : Registry A) (g : Retry)
      → IsOwned r.closed r.states g
      → IsOwned
          (update_config servers http_tools r).closed
          (update_config servers http_tools r).states
          g
  update_config-IsOwned servers http_tools r g (inl h) = inl (still_closed servers http_tools r g h)
  update_config-IsOwned servers http_tools r g (inr h) =
      let found = lookup-update_config servers http_tools r g.server in
      elim (Bool-cases (is_configured servers g.server)) [
        | inl configured ↦ inr (
            ap retry_of (
              state_or_new-some g.server (update_config servers http_tools r).states
                (state_or_new g.server r.states) (found ∙ rw configured refl))
            ∙ h)
        | inr removed ↦ elim (Option-cases (lookup g.server r.states)) [
          | inl fresh ↦ absurd (no_retry g.server r.states g.channel fresh h)
          | inr (st, e) ↦ inl (
              closed_by servers http_tools r g (
                cancel_removed-closes (update_config servers http_tools r).states r.states g.server
                  st g.channel (found ∙ rw removed refl) e
                  (ap retry_of (sym (state_or_new-some g.server r.states st e)) ∙ h)))
        ]
      ]

  update_config-IsLive :
      (servers : List McpServer) (http_tools : Map A) (r : Registry A)
      → IsLive r
      → IsLive (update_config servers http_tools r)
  update_config-IsLive servers http_tools r live = record {
    owned =
        unfold update_config in
        All-IsOwned r.closed (update_config servers http_tools r).closed r.states
          (update_config servers http_tools r).states r.retries
          (update_config-IsOwned servers http_tools r) live.owned;
    made = unfold update_config in live.made;
    distinct = unfold update_config in live.distinct;
  }

  new_registry-IsLive :
      (servers : List McpServer) (http_tools : Map A) (backoff : List ℕ)
      → IsLive (new_registry servers http_tools backoff)
  unfolding new_registry
  new_registry-IsLive servers http_tools backoff = record { owned = tt; made = tt; distinct = tt }

All-keep : (P : Retry → Type 0) (p : Retry → Bool) (gs : List Retry) → All P gs → All P (keep p gs)
All-keep P p [] h = tt
All-keep P p (g ∷ gs) h = ground (arith, All-keep P p gs h.1)

Distinct-keep : (p : Retry → Bool) (gs : List Retry) → Distinct gs → Distinct (keep p gs)
Distinct-keep p [] h = tt
Distinct-keep p (g ∷ gs) h =
    ground (arith, All-keep (λ k. k.channel ≢ g.channel) p gs h.0, Distinct-keep p gs h.1)

module _ {A : Type 0} where
  fire_retry-IsLive :
      (g : Retry) (answer : Answer A) (now : Time) (r : Registry A)
      → IsLive r
      → IsLive (fire_retry g answer now r)
  unfolding fire_retry
  fire_retry-IsLive g answer now r live =
      let stays = λ (k : Retry). not (k.channel == g.channel) in
      let left = record r { retries = keep stays r.retries } in
      let left_live : IsLive left = record {
        owned = All-keep (IsOwned r.closed r.states) stays r.retries live.owned;
        made = All-keep (λ k. k.channel < r.next_channel) stays r.retries live.made;
        distinct = Distinct-keep stays r.retries live.distinct;
      } in
      elim (Option-cases (find_server r.servers g.server)) [
        | inl gone ↦ rw (gone, fire_retry) left_live
        | inr (s, found) ↦
            rw (found, fire_retry) (refresh_server-IsLive s answer now left left_live)
      ]

  -- What may happen to a registry. A retry fires only while its channel is open.
  pub data Step (r : Registry A) : Registry A → Type 0 where
    asked :
        (s : McpServer) (answer : Answer A) (now : Time) → Step r (refresh_server s answer now r)
    refreshed : (answers : McpServer → Answer A) (now : Time) → Step r (refresh answers now r)
    ticked : (answers : McpServer → Answer A) (now : Time) → Step r (refresh_periodic answers now r)
    fired :
        (g : Retry) (answer : Answer A) (now : Time)
        → is_closed r.closed g.channel ≡ false
        → Step r (fire_retry g answer now r)
    configured :
        (servers : List McpServer) (http_tools : Map A)
        → Step r (update_config servers http_tools r)

  pub data Reach (r : Registry A) : Registry A → Type 0 where
    here : Reach r r
    next : {t u : Registry A} → Reach r t → Step t u → Reach r u

  Step-IsLive : {t u : Registry A} → Step t u → IsLive t → IsLive u
  Step-IsLive (asked s answer now) h = refresh_server-IsLive s answer now _ h
  Step-IsLive (refreshed answers now) h = refresh-IsLive answers now _ h
  Step-IsLive (ticked answers now) h = refresh_periodic-IsLive answers now _ h
  Step-IsLive (fired g answer now open_channel) h = fire_retry-IsLive g answer now _ h
  Step-IsLive (configured servers http_tools) h = update_config-IsLive servers http_tools _ h

  Reach-IsLive : {r t : Registry A} → IsLive r → Reach r t → IsLive t
  Reach-IsLive h here = h
  Reach-IsLive h (next reach step) = Step-IsLive step (Reach-IsLive h reach)

-- The retries of a server that can still fire.
abbrev pub open_retries : List Channel → Text → List Retry → ℕ
open_retries closed name [] = 0
open_retries closed name (g ∷ gs) =
    (if text_eq g.server name && not (is_closed closed g.channel) then 1 else 0)
    + open_retries closed name gs

abbrev is_open : List Channel → Text → Retry → Bool
is_open closed name g = text_eq g.server name && not (is_closed closed g.channel)

-- An open retry of the server holds the channel that the state of the server knows.
open_channel :
    (closed : List Channel) (states : Map ServerState) (name : Text) (g : Retry)
    → IsOwned closed states g
    → is_open closed name g ≡ true
    → (state_or_new name states).retry_cancel ≡ some g.channel
open_channel closed states name g (inl c) h = absurd (ground arith)
open_channel closed states name g (inr k) h =
    let here : text_eq g.server name ≡ true = ground arith in
    rw (← (text_eq_iff g.server name).0 here) k

none_open :
    (closed : List Channel) (states : Map ServerState) (name : Text) (c : Channel) (gs : List Retry)
    → (state_or_new name states).retry_cancel ≡ some c
    → All (IsOwned closed states) gs
    → All (λ g. g.channel ≢ c) gs
    → open_retries closed name gs ≡ 0
none_open closed states name c [] k h d = refl
none_open closed states name c (g ∷ gs) k h d = elim (Bool-cases (is_open closed name g)) [
  | inl holds ↦
      let known = open_channel closed states name g h.0 holds in absurd (d.0 (cc (k, known)))
  | inr idle ↦ rw idle (omega (arith, none_open closed states name c gs k h.1 d.1))
]

one_open :
    (closed : List Channel) (states : Map ServerState) (name : Text) (gs : List Retry)
    → All (IsOwned closed states) gs
    → Distinct gs
    → open_retries closed name gs ≤ 1
one_open closed states name [] h d = omega arith
one_open closed states name (g ∷ gs) h d = elim (Bool-cases (is_open closed name g)) [
  | inl holds ↦
      let known = open_channel closed states name g h.0 holds in
      rw holds (omega (arith, none_open closed states name g.channel gs known h.1 d.0))
  | inr idle ↦ rw idle (omega (arith, one_open closed states name gs h.1 d.1))
]

-- From a new registry, whatever happens in whatever order, at most one retry of a server can still
-- fire.
pub open_retries-le-one :
    {A : Type 0} (servers : List McpServer) (http_tools : Map A) (backoff : List ℕ) {r : Registry A}
    (name : Text)
    → Reach (new_registry servers http_tools backoff) r
    → open_retries r.closed name r.retries ≤ 1
open_retries-le-one servers http_tools backoff {r} name reach =
    let live = Reach-IsLive (new_registry-IsLive servers http_tools backoff) reach in
    one_open r.closed r.states name r.retries live.owned live.distinct
