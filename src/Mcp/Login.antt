-- ===== src/Mcp/Login.antt =====
-- The login of internal/mcp/oauth.go: runWithOAuthFallback, completeOAuthFlow and
-- readManualOAuthInput. What the MCP client library, the user and the browser answer are arguments;
-- what a run does towards them is a list of events.
pub mod Matching
pub mod Quiet
use mcpshim.Prelude.{
  Bool, true, false, not, ◌&&◌, ◌||◌, Option, none, some, List, [], ◌∷◌, ◌++◌, if◌then◌else◌,
  is_empty, Text, codes, text_eq, has_prefix, trim_space, Map, lookup, Result, ok, err, ◌>>=◌, ◌>>◌,
  guard,
}
use mcpshim.Config.Types.{McpServer}
use mcpshim.Web.{ParsedUrl}
use mcpshim.Mcp.Resources.{Urls, Metadata, Resolver, resolve, with_resource_param}
use mcpshim.Mcp.Overview.{has_authorization_header, should_try_oauth_fallback}

pub data FlowError : Type 0 where
  not_generated not_registered no_url : FlowError
  not_read empty_input bad_url state_mismatch : FlowError
  no_callback not_answered refused no_code not_exchanged : FlowError

-- What a run does, in order; the code goes with the state and the verifier.
pub data Event : Type 0 where
  direct_operation listened client_operation : Event
  opened : Text → Event
  exchanged : Text → Text → Text → Event
  saved_client : Event

-- The answers in a flow: GenerateCodeVerifier, GenerateState, the client id of the handler,
-- RegisterClient, GetAuthorizationURL, what the callback waits for, the line that is read, and
-- ProcessAuthorizationResponse.
pub record Answers : Type 0 where
  pub verifier : Option Text
  pub state : Option Text
  pub client_id : Text
  pub is_registered : Bool
  pub authorization_url : Option Text
  pub callback : Option (Map Text)
  pub line : Option Text
  pub is_exchanged : Bool

-- params[key]
unfoldable pub param : Text → Map Text → Text
unfolding lookup
param key params = elim (lookup key params) [ none ↦ [] | some value ↦ value ]

-- strings.Contains(s, sub)
unfoldable pub contains : Text → Text → Bool
unfolding has_prefix
contains s sub =
    has_prefix s sub || elim s [ [] ↦ false | ◌∷◌ c (rest → inner) ↦ has_prefix rest sub || inner ]

abbrev pub or_fail : {A : Type 0} → Option A → FlowError → Result FlowError A
or_fail none e = err e
or_fail (some a) e = ok a

-- readManualOAuthInput; `query` gives the first value of each key of a query
unfoldable pub read_manual_input :
    Urls → (Text → Map Text) → Option Text → Text → Result FlowError (Map Text)
unfolding contains param
read_manual_input urls query line expected_state = elim line [
  | none ↦ err not_read
  | some raw ↦
      let input = trim_space raw in
      if is_empty input
      then err empty_input
      else if contains input (codes "://")
      then elim (urls.parse input) [
        | none ↦ err bad_url
        | some url ↦
            let params = query url.raw_query in
            let st = param (codes "state") params in
            if not (is_empty st) && not (text_eq st expected_state)
            then err state_mismatch
            else ok params
      ]
      else ok ((codes "code", input) ∷ [])
]

unfoldable pub take_code : Map Text → Result FlowError Text
unfolding param
take_code params =
    let code = param (codes "code") params in
    if not (is_empty code)
    then ok code
    else if not (is_empty (param (codes "error") params))
    then err refused
    else err no_code

-- The end of completeOAuthFlow, up to the code.
unfoldable pub answered_code :
    Urls → (Text → Map Text) → Bool → Bool → Answers → Text → Result FlowError Text
answered_code urls query manual has_callback answers state =
    if manual
    then read_manual_input urls query answers.line state >>= take_code
    else if not has_callback
    then err no_callback
    else elim answers.callback [
      | none ↦ err not_answered
      | some params ↦
          if text_eq (param (codes "state") params) state
          then take_code params
          else err state_mismatch
    ]

-- The start of completeOAuthFlow: the state, the verifier and the URL to open.
unfoldable pub prepared_flow :
    Urls → Metadata → Answers → Resolver → Result FlowError (Text × Text × Text)
unfolding resolve with_resource_param
prepared_flow urls metadata answers r = do
  verifier ← or_fail answers.verifier not_generated
  state ← or_fail answers.state not_generated
  _ ← guard (not (is_empty answers.client_id) || answers.is_registered) not_registered
  auth_url ← or_fail answers.authorization_url no_url
  url ← or_fail (with_resource_param urls auth_url (resolve urls metadata r).0) no_url
  ok (state, verifier, url)

-- completeOAuthFlow with a handler, and what it does
unfoldable pub complete_flow :
    Urls
    → (Text → Map Text)
    → Metadata
    → Bool
    → Bool
    → Answers
    → Resolver
    → List Event × Result FlowError (Unit {0})
complete_flow urls query metadata manual has_callback answers r =
    elim (prepared_flow urls metadata answers r) [
      | err e ↦ ([], err e)
      | ok (state, verifier, url) ↦
          elim (answered_code urls query manual has_callback answers state) [
            | err e ↦ (opened url ∷ [], err e)
            | ok code ↦ (
              opened url ∷ exchanged code state verifier ∷ [],
              if answers.is_exchanged then ok tt else err not_exchanged,
            )
          ]
    ]

-- An error of an operation: whether it is ErrUnauthorized, and whether it asks for a login.
pub record OperationError : Type 0 where
  pub is_unauthorized : Bool
  pub is_login_required : Bool

pub data RunError : Type 0 where
  operation_failed : OperationError → RunError
  no_listener no_client login_needed : RunError
  flow_failed : FlowError → RunError

-- What the calls of runWithOAuthFallback give: the operation without a client for OAuth, the
-- listener, the client, the operation with it, the flow, whether a client is saved, and the
-- operation after the flow.
pub record Calls (T : Type 0) : Type 0 where
  pub direct : Result OperationError T
  pub is_listening : Bool
  pub is_made : Bool
  pub first : Result OperationError T
  pub flow : List Event × Result FlowError (Unit {0})
  pub is_saved : Bool
  pub again : Result OperationError T

module _ {T : Type 0} where
  abbrev or_operation_failed : Result OperationError T → Result RunError T
  or_operation_failed (ok a) = ok a
  or_operation_failed (err e) = err (operation_failed e)

  -- After the operation with a client asks for a login.
  unfoldable pub log_in : Calls T → List Event × Result RunError T
  log_in calls =
      let (events, flowed) = calls.flow in
      elim flowed [
        | err e ↦ (events, err (flow_failed e))
        | ok _ ↦ (
          events
              ++ (if calls.is_saved
                  then saved_client ∷ client_operation ∷ []
                  else client_operation ∷ []),
          or_operation_failed calls.again,
        )
      ]

  -- The operation with a client for OAuth.
  unfoldable pub run_with_client : Bool → Calls T → List Event × Result RunError T
  unfolding log_in
  run_with_client interactive calls =
      if not calls.is_made then ([], err no_client) else elim calls.first [
        | ok a ↦ (client_operation ∷ [], ok a)
        | err e ↦
            if not e.is_login_required
            then (client_operation ∷ [], err (operation_failed e))
            else if not interactive
            then (client_operation ∷ [], err login_needed)
            else let (events, result) = log_in calls in (client_operation ∷ events, result)
      ]

  unfoldable pub fall_back : Bool → Calls T → List Event × Result RunError T
  unfolding run_with_client
  fall_back interactive calls =
      let (events, result) = run_with_client interactive calls in
      if interactive
      then if calls.is_listening then (listened ∷ events, result) else ([], err no_listener)
      else (events, result)

  -- runWithOAuthFallback; `has_state` is hasOAuthState
  unfoldable pub run_with_oauth_fallback :
      (Text → Text) → McpServer → Bool → Bool → Calls T → List Event × Result RunError T
  unfolding fall_back has_authorization_header should_try_oauth_fallback
  run_with_oauth_fallback canonical_header_key s has_state interactive calls =
      let (events, result) = fall_back interactive calls in
      if text_eq s.transport (codes "stdio") || not (is_empty s.headers_helper)
      then (direct_operation ∷ [], or_operation_failed calls.direct)
      else if has_authorization_header canonical_header_key s.headers || not has_state
      then elim calls.direct [
        | ok a ↦ (direct_operation ∷ [], ok a)
        | err e ↦
            if not (should_try_oauth_fallback canonical_header_key s (some e.is_unauthorized))
            then (direct_operation ∷ [], err (operation_failed e))
            else (direct_operation ∷ events, result)
      ]
      else (events, result)
