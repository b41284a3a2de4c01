-- ===== src/HttpBinding/Listing.antt =====
-- ListTools and InspectTool of internal/httpbinding/httpbinding.go, with the types of
-- internal/protocol/protocol.go that they fill. The fields of these that only other parts of the
-- program set are not modelled.
pub mod Inspected
use mcpshim.Prelude.{
  ◌≡◌, refl, ℕ, Bool, true, false, Option, none, some, List, [], ◌∷◌, ◌++◌, map, keep,
  if◌then◌else◌, is_empty, Text, codes, text_eq, Map, join, sort_by,
}
use mcpshim.Config.Types.{HttpInput, rule, HttpTool, HttpRawTool, HttpService}
use mcpshim.HttpBinding.Requests.{normalized_methods}
use mcpshim.HttpBinding.Calls.{raw_tool_name, raw_tool_named, find_tool}

-- protocol.ToolInfo
pub record ToolInfo : Type 0 where
  pub server : Text
  pub name : Text
  pub description : Text
  pub required : List Text
  pub properties : List Text

-- protocol.PropertyDetail
pub record PropertyDetail : Type 0 where
  pub name : Text
  pub kind : Text
  pub enum : List Text
  pub description : Text
  pub required : Bool

-- protocol.ToolDetail
pub record ToolDetail : Type 0 where
  pub server : Text
  pub name : Text
  pub description : Text
  pub properties : List PropertyDetail

abbrev sort_texts : List Text → List Text
sort_texts texts = sort_by (λ t. t) texts

-- strings.Join(texts, ", ")
unfoldable pub join_listed : List Text → Text
join_listed [] = []
join_listed (t ∷ []) = t
join_listed (t ∷ u ∷ rest) = t ++ codes ", " ++ join_listed (u ∷ rest)

abbrev required_text : Text → Text → Text → PropertyDetail
required_text name kind description = record {
  name = name;
  kind = kind;
  enum = [];
  description = description;
  required = true;
}

abbrev optional : Text → Text → Text → PropertyDetail
optional name kind description = record {
  name = name;
  kind = kind;
  enum = [];
  description = description;
  required = false;
}

-- The properties of the raw tool in InspectTool.
unfoldable pub raw_properties : HttpRawTool → List PropertyDetail
raw_properties raw =
    optional (codes "body") [] (codes "Optional JSON or text request body")
    ∷ optional (codes "content_type") (codes "string") (codes "Request body content type")
    ∷ optional (codes "headers") (codes "object") (
        if is_empty raw.request_headers
        then codes "No caller-provided request headers are allowed"
        else codes "Allowlisted request headers: " ++ join_listed raw.request_headers)
    ∷ record (required_text (codes "method") (codes "string") (codes "HTTP method")) {
      enum = normalized_methods raw.methods;
    }
    ∷ required_text (codes "path") (codes "string") (
        codes "Relative path under the configured base URL. Allowed patterns: "
        ++ join_listed raw.paths)
    ∷ optional (codes "query") (codes "object") (codes "Query parameters")
    ∷ []

module _ {N : Type 0} where
  -- toolProperties
  unfoldable pub tool_properties : HttpTool N → List Text × List Text
  tool_properties tool = (
    sort_texts
        (map (λ (name, input). name) (keep (λ (name, input). (rule input).required) tool.inputs)),
    sort_texts (map (λ (name, input). name) tool.inputs),
  )

  unfoldable pub raw_info : HttpService N → HttpRawTool → ToolInfo
  raw_info service raw = record {
    server = service.name;
    name = raw_tool_name raw;
    description = raw.description;
    required = codes "method" ∷ codes "path" ∷ [];
    properties =
        codes "body"
        ∷ codes "content_type"
        ∷ codes "headers"
        ∷ codes "method"
        ∷ codes "path"
        ∷ codes "query"
        ∷ [];
  }

  unfoldable pub tool_info : HttpService N → HttpTool N → ToolInfo
  unfolding tool_properties
  tool_info service tool = record {
    server = service.name;
    name = tool.name;
    description = tool.description;
    required = (tool_properties tool).0;
    properties = (tool_properties tool).1;
  }

  -- The list that ListTools sorts.
  unfoldable pub unsorted_tools : HttpService N → List ToolInfo
  unfolding raw_info tool_info
  unsorted_tools service = elim service.raw_tool [
    | none ↦ map (tool_info service) service.tools
    | some raw ↦ raw_info service raw ∷ map (tool_info service) service.tools
  ]

  unfoldable pub list_tools : HttpService N → List ToolInfo
  list_tools service = sort_by (λ info. info.name) (unsorted_tools service)

  unfoldable pub property_detail : Text × HttpInput N → PropertyDetail
  property_detail (name, input) = record {
    name = name;
    kind = (rule input).kind;
    enum = (rule input).enum;
    description = (rule input).description;
    required = (rule input).required;
  }

  -- The detail of a typed tool.
  unfoldable pub tool_detail : HttpService N → HttpTool N → ToolDetail
  unfolding property_detail
  tool_detail service tool = record {
    server = service.name;
    name = tool.name;
    description = tool.description;
    properties = map property_detail (sort_by (λ (name, input). name) tool.inputs);
  }

  -- `none` is the error that there is no such tool.
  unfoldable pub inspect_tool : HttpService N → Text → Option ToolDetail
  inspect_tool service name = elim (raw_tool_named service name) [
    | some raw ↦ some (record {
      server = service.name;
      name = name;
      description = raw.description;
      properties = raw_properties raw;
    })
    | none ↦ elim (find_tool service.tools name) [
      | none ↦ none
      | some tool ↦ some (tool_detail service tool)
    ]
  ]
