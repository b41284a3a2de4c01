-- ===== src/Examples/Sessions.antt =====
-- The resource of a login, and the connection of a request.
use mcpshim.Prelude.{
  ℕ, ◌≡◌, refl, true, false, none, not, ◌&&◌, if◌then◌else◌, some, List, [], ◌∷◌, ◌++◌, map, codes,
}
use mcpshim.Value.{null}
use mcpshim.Web.{ParsedUrl}
use mcpshim.Mcp.Resources.{Urls, Metadata, new_resource_resolver, resolve}
use mcpshim.Mcp.Resources.Covered.{IsChosen, resolve-IsChosen}
use mcpshim.Mcp.Sessions.{
  ElicitationRequest, envelope, response, new_session, finish, delivered, unmarshalled, unwritten,
  request_elicitation,
}
use mcpshim.Mcp.Sessions.Wire.{
  Elicitation, carried, is_cut_off, is_delivered, after_elicitations, finish-written,
}

abbrev pub notes_url : ParsedUrl
notes_url = record {
  scheme = codes "https";
  host = codes "n.io";
  has_user = false;
  path = codes "/mcp";
  escaped_path = codes "/mcp";
  raw_query = [];
  fragment = [];
}

abbrev pub plain_urls : Urls
plain_urls = record {
  parse = λ raw. some notes_url;
  print = λ url. url.scheme ++ codes "://" ++ url.host ++ url.path;
  equal_fold = λ a b. true;
  resource_of = λ query. [];
  set_resource = λ query resource. query;
}

abbrev pub published : Metadata
published = λ location. some (codes "https://n.io")

resolve_example :
    IsChosen plain_urls published
      (codes "https://N.io/mcp")
      (resolve plain_urls published (new_resource_resolver (codes "https://N.io/mcp"))).0
    × (resolve plain_urls
          (λ location. none)
          (resolve plain_urls published (new_resource_resolver (codes "https://N.io/mcp"))).1
        ≡ resolve plain_urls published (new_resource_resolver (codes "https://N.io/mcp")))
resolve_example =
    resolve-IsChosen plain_urls published (λ location. none) (codes "https://N.io/mcp")

abbrev question : ElicitationRequest ℕ
question = record {
  server = codes "notes";
  mode = codes "form";
  message = codes "which?";
  requested_schema = null;
  url = [];
  elicitation_id = [];
}

abbrev asked_twice : List (Elicitation ℕ)
asked_twice =
    record { request = question; sending = delivered; inbound = none }
    ∷ record { request = question; sending = unmarshalled; inbound = none }
    ∷ []

finish-written_example :
    (after_elicitations asked_twice
      (finish delivered (codes "ok") (after_elicitations asked_twice new_session))).written
    ≡ map envelope (carried asked_twice)
      ++ (if not (is_cut_off asked_twice) && is_delivered delivered
          then response (codes "ok") ∷ []
          else [])
finish-written_example = finish-written asked_twice asked_twice delivered (codes "ok")

broken_run :
    finish delivered (codes "ok") (
      after_elicitations
        (record { request = question; sending = unwritten; inbound = none } ∷ [])
        (new_session {N = ℕ}))
    ≡ record { finished = true; broken = true; written = [] }
unfolding finish after_elicitations request_elicitation new_session
broken_run = refl
