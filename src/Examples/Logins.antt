-- ===== src/Examples/Logins.antt =====
-- A login whose callback carries the state of the flow, and a run in the background.
use mcpshim.Prelude.{◌≡◌, true, false, none, some, [], ◌∷◌, all, Text, codes, All, ok, err}
use mcpshim.Mcp.Resources.{new_resource_resolver}
use mcpshim.Mcp.Login.{
  Answers, Calls, OperationError, opened, exchanged, complete_flow, run_with_oauth_fallback,
}
use mcpshim.Mcp.Login.Matching.{IsMatching, complete_flow-IsMatching}
use mcpshim.Mcp.Login.Quiet.{is_quiet, run_with_oauth_fallback-quiet}
use mcpshim.Examples.Configs.{notes_server}
use mcpshim.Examples.Sessions.{plain_urls, published}

abbrev called_back : Answers
called_back = record {
  verifier = some (codes "v");
  state = some (codes "s1");
  client_id = codes "c";
  is_registered = false;
  authorization_url = some (codes "https://a.io/auth");
  callback = some ((codes "state", codes "s1") ∷ (codes "code", codes "k") ∷ []);
  line = none;
  is_exchanged = true;
}

complete_flow-IsMatching_example :
    All
      (IsMatching plain_urls (λ query. []) false called_back)
      (complete_flow plain_urls
        (λ query. [])
        published
        false
        true
        called_back
        (new_resource_resolver (codes "https://n.io/mcp"))).0
complete_flow-IsMatching_example =
    complete_flow-IsMatching plain_urls (λ query. []) published false true called_back
      (new_resource_resolver (codes "https://n.io/mcp"))

abbrev unauthorized : OperationError
unauthorized = record { is_unauthorized = true; is_login_required = true }

abbrev login_wanted : Calls Text
login_wanted = record {
  direct = err unauthorized;
  is_listening = true;
  is_made = true;
  first = err unauthorized;
  flow =
      (opened (codes "https://a.io") ∷ exchanged (codes "k") (codes "s1") (codes "v") ∷ [], ok tt);
  is_saved = true;
  again = ok (codes "answer");
}

run_with_oauth_fallback-quiet_example :
    all (run_with_oauth_fallback (λ key. key) notes_server false false login_wanted).0 is_quiet
    ≡ true
run_with_oauth_fallback-quiet_example =
    run_with_oauth_fallback-quiet login_wanted (λ key. key) notes_server false
