-- ===== src/Mcp/Resources.antt =====
-- internal/mcp/resource.go: the resource indicator that the login to a server sends. The network's
-- answers are arguments. A URL is printed by its own function; the escaped path of a parsed URL is
-- both its EscapedPath and the RawPath that is written.
pub mod Covered
use mcpshim.Prelude.{
  ℕ, Bool, true, false, not, ◌&&◌, ◌||◌, Option, none, some, List, [], ◌∷◌, ◌++◌, if◌then◌else◌,
  is_empty, is_one_of, Text, codes, text_eq, has_prefix, to_lower, trim_space,
}
use mcpshim.Web.{ParsedUrl}
use mcpshim.HttpBinding.Paths.{trim_suffix_byte}

-- url.Parse, URL.String, strings.EqualFold, and on a query Get of "resource" and Set of it with
-- Encode.
pub record Urls : Type 0 where
  pub parse : Text → Option ParsedUrl
  pub print : ParsedUrl → Text
  pub equal_fold : Text → Text → Bool
  pub resource_of : Text → Text
  pub set_resource : Text → Text → Text

-- An answer of the network for a metadata URL: the `resource` field, trimmed; `none` is a failure.
abbrev pub Metadata : Type 0
Metadata = Text → Option Text

-- The fields `resolved` and `value` of resourceResolver.
pub record Resolver : Type 0 where
  pub server_url : Text
  pub resolved : Bool
  pub value : Text

unfoldable pub new_resource_resolver : Text → Resolver
new_resource_resolver server_url = record { server_url = server_url; resolved = false; value = [] }

abbrev pub well_known : Text
well_known = codes "/.well-known/oauth-protected-resource"

-- A path of "/" is dropped where the URL has no query.
abbrev pub drop_root : ParsedUrl → ParsedUrl
drop_root url =
    if text_eq url.path (codes "/") && is_empty url.raw_query
    then record url { path = []; escaped_path = [] }
    else url

module _ (urls : Urls) where
  -- canonicalResourceURI; `none` is its error
  unfoldable pub canonical_resource_uri : Text → Option Text
  canonical_resource_uri raw = elim (urls.parse (trim_space raw)) [
    | none ↦ none
    | some url ↦
        if is_empty url.scheme || is_empty url.host
        then none
        else some (
            urls.print (
              drop_root (record url {
                scheme = to_lower url.scheme;
                host = to_lower url.host;
                fragment = [];
              })))
  ]

  unfoldable pub protected_resource_metadata_urls : Text → List Text
  unfolding trim_suffix_byte
  protected_resource_metadata_urls server_url = elim (urls.parse server_url) [
    | none ↦ []
    | some url ↦
        let origin = url.scheme ++ codes "://" ++ url.host in
        let path = trim_suffix_byte b'/' url.escaped_path in
        if is_empty path
        then (origin ++ well_known) ∷ []
        else (origin ++ well_known ++ path) ∷ (origin ++ well_known) ∷ []
  ]

  -- The test of resourceCoversServer on parsed URLs.
  unfoldable pub covers : ParsedUrl → ParsedUrl → Bool
  unfolding trim_suffix_byte
  covers resource server =
      let resource_path = trim_suffix_byte b'/' resource.escaped_path in
      let server_path = trim_suffix_byte b'/' server.escaped_path in
      is_empty resource.fragment
      && urls.equal_fold resource.scheme server.scheme
      && urls.equal_fold resource.host server.host
      && (is_empty resource_path
          || text_eq resource_path server_path
          || has_prefix server_path (resource_path ++ codes "/"))

  unfoldable pub resource_covers_server : Text → Text → Bool
  unfolding covers
  resource_covers_server resource server_url = elim (urls.parse resource) [
    | none ↦ false
    | some parsed ↦ elim (urls.parse server_url) [
      | none ↦ false
      | some server ↦ covers parsed server
    ]
  ]

  -- The loop of fetchPublishedResource; an empty text is no resource.
  unfoldable pub published_from : Metadata → Text → List Text → Text
  published_from metadata canonical [] = []
  published_from metadata canonical (location ∷ locations) =
      let rest = published_from metadata canonical locations in
      elim (metadata location) [
        | none ↦ rest
        | some resource ↦
            if is_empty resource
            then []
            else if not (resource_covers_server resource canonical)
            then []
            else resource
      ]

  unfoldable pub fetch_published_resource : Metadata → Text → Text
  unfolding published_from
  fetch_published_resource metadata canonical =
      published_from metadata canonical (protected_resource_metadata_urls canonical)

  -- resolve: the resource indicator, and the resolver after it
  unfoldable pub resolve : Metadata → Resolver → Text × Resolver
  resolve metadata r =
      if r.resolved then (r.value, r) else elim (canonical_resource_uri r.server_url) [
        | none ↦ ([], record r { resolved = true })
        | some fallback ↦
            let published = fetch_published_resource metadata fallback in
            let value = if is_empty published then fallback else published in
            (value, record r { resolved = true; value = value })
      ]

  -- withResourceParam; `none` is its error
  unfoldable pub with_resource_param : Text → Text → Option Text
  with_resource_param auth_url resource =
      if is_empty resource then some auth_url else elim (urls.parse auth_url) [
        | none ↦ none
        | some url ↦
            if not (is_empty (urls.resource_of url.raw_query))
            then some auth_url
            else some
                (urls.print (record url { raw_query = urls.set_resource url.raw_query resource }))
      ]

-- What RoundTrip reads of a request; `body` is none for a nil body.
pub record TokenRequest : Type 0 where
  pub method : Text
  pub content_type : Text
  pub body : Option Text

-- A form: url.ParseQuery, Get, and Set with Encode.
pub record Forms : Type 0 where
  pub is_form : Text → Bool
  pub field : Text → Text → Text
  pub set : Text → Text → Text → Text

-- The form of a token request that names no resource.
unfoldable pub lacks_resource : Forms → Text → Bool
lacks_resource forms body =
    forms.is_form body
    && is_empty (forms.field (codes "resource") body)
    && is_one_of (codes "authorization_code" ∷ codes "refresh_token" ∷ [])
        (forms.field (codes "grant_type") body)

-- RoundTrip: the body that is sent, and the resolver after it.
unfoldable pub round_trip :
    Urls → Forms → Metadata → TokenRequest → Resolver → Option Text × Resolver
unfolding lacks_resource
round_trip urls forms metadata req r = elim req.body [
  | none ↦ (none, r)
  | some body ↦
      let (resource, r') = resolve urls metadata r in
      if not (text_eq req.method (codes "POST"))
        || not (has_prefix req.content_type (codes "application/x-www-form-urlencoded"))
        || not (lacks_resource forms body)
      then (some body, r)
      else if is_empty resource
      then (some body, r')
      else (some (forms.set (codes "resource") resource body), r')
]
