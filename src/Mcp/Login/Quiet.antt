-- ===== src/Mcp/Login/Quiet.antt =====
-- A run in the background of internal/mcp/oauth.go asks nothing of the user.
use mcpshim.Prelude.{
  ◌≡◌, refl, Bool, true, false, not, ◌||◌, all, is_empty, Text, codes, text_eq, inl, inr,
  Bool-cases, Result-cases, some,
}
use mcpshim.Config.Types.{McpServer}
use mcpshim.Mcp.Overview.{has_authorization_header, should_try_oauth_fallback}
use mcpshim.Mcp.Login.{
  Event, direct_operation, listened, client_operation, opened, exchanged, saved_client, Calls,
  run_with_client, fall_back, run_with_oauth_fallback,
}

-- An operation, which asks nothing of the user and stores nothing of a login.
abbrev pub is_quiet : Event → Bool
is_quiet direct_operation = true
is_quiet client_operation = true
is_quiet listened = false
is_quiet (opened url) = false
is_quiet (exchanged code state verifier) = false
is_quiet saved_client = false

module _ {T : Type 0} (calls : Calls T) where
  run_with_client-quiet : all (run_with_client false calls).0 is_quiet ≡ true
  unfolding run_with_client
  run_with_client-quiet = elim (Bool-cases calls.is_made) [
    | inr h ↦ rw h refl
    | inl made ↦ elim (Result-cases calls.first) [
      | inr (a, h) ↦ rw (made, h) refl
      | inl (e, h) ↦ elim (Bool-cases e.is_login_required) [
        | inl g ↦ rw (made, h, g) refl
        | inr g ↦ rw (made, h, g) refl
      ]
    ]
  ]

  -- A run that is not interactive only tries the operation: it listens for no callback, opens no
  -- browser, exchanges no code and saves no client.
  pub run_with_oauth_fallback-quiet :
      (canonical_header_key : Text → Text) (s : McpServer) (has_state : Bool)
      → all (run_with_oauth_fallback canonical_header_key s has_state false calls).0 is_quiet ≡ true
  unfolding run_with_oauth_fallback fall_back
  run_with_oauth_fallback-quiet canonical_header_key s has_state =
      let quiet = run_with_client-quiet in
      elim (Bool-cases (text_eq s.transport (codes "stdio") || not (is_empty s.headers_helper))) [
        | inl h ↦ rw h refl
        | inr remote ↦
            elim (Bool-cases
              (has_authorization_header canonical_header_key s.headers || not has_state)) [
                | inr h ↦ rw (remote, h) quiet
                | inl probed ↦ elim (Result-cases calls.direct) [
                  | inr (a, h) ↦ rw (remote, probed, h) refl
                  | inl (e, h) ↦
                      elim (Bool-cases (
                        should_try_oauth_fallback canonical_header_key s
                          (some e.is_unauthorized))) [
                            | inl g ↦ rw (remote, probed, h, g) quiet
                            | inr g ↦ rw (remote, probed, h, g) refl
                          ]
                ]
              ]
      ]
