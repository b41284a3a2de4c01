-- ===== src/HttpBinding/Requests.antt =====
-- compileRawRequest of internal/httpbinding/httpbinding.go, with what it calls: the request that a
-- raw tool sends for the arguments of a caller. A map of Go is walked in the order of its fields.
pub mod Gate
use mcpshim.Prelude.{
  ℕ, Bool, true, false, not, ◌&&◌, ◌||◌, ◌==◌, ltb, Option, none, some, List, [], ◌∷◌, ◌++◌, map,
  any, if◌then◌else◌, length, is_empty, Text, codes, text_eq, is_one_of, to_upper, to_lower,
  trim_space, has_prefix, has_suffix, take, Map, insert, Result, ok, err, guard, ◌>>=◌, ◌>>◌, ℤ,
  pos, negsuc,
}
use mcpshim.Value.{
  Value, null, bool, num, str, arr, obj, Items, nil, cons, Fields, end, field, Numbers, get,
  scalar_string,
}
pub use mcpshim.Web.{Web}
use mcpshim.Config.Types.{HttpPolicy, HttpRawTool}
use mcpshim.HttpBinding.Paths.{PathError, canonicalize_raw_path, trim_suffix_byte}
use mcpshim.HttpBinding.Segments.{matches_any_path}

pub data RequestError : Type 0 where
  unknown_argument header_not_allowed header_not_scalar query_not_scalar query_not_encoded :
      Text → RequestError
  method_required method_not_allowed path_required path_not_allowed : RequestError
  query_not_object headers_not_object content_type_not_string content_type_requires_body :
      RequestError
  body_not_encoded body_not_text body_type_unsupported : RequestError
  body_too_large body_type_not_allowed body_not_accepted : RequestError
  path_refused : PathError → RequestError

-- requestPlan; the query is the list of what Add adds, and a body of `none` is nil.
pub record RequestPlan : Type 0 where
  pub method : Text
  pub escaped_path : Text
  pub decoded_path : Text
  pub query : List (Text × Text)
  pub headers : Map Text
  pub body : Option Text
  pub content_type : Text

unfoldable pub normalized_methods : List Text → List Text
normalized_methods methods =
    if is_empty methods
    then codes "GET" ∷ codes "HEAD" ∷ []
    else map (λ m. to_upper (trim_space m)) methods

abbrev pub or_default : ℤ → ℕ → ℤ
or_default (pos n) d = if n == 0 then pos d else pos n
or_default (negsuc n) d = negsuc n

unfoldable pub effective_policy : HttpPolicy → HttpPolicy
effective_policy policy = record policy {
  timeout_seconds = or_default policy.timeout_seconds 20;
  max_request_bytes = or_default policy.max_request_bytes 1048576;
  max_response_bytes = or_default policy.max_response_bytes 2097152;
  redirects = if is_empty policy.redirects then codes "same-origin" else policy.redirects;
}

-- int64(size) > limit
abbrev pub exceeds : ℕ → ℤ → Bool
exceeds size (pos n) = ltb n size
exceeds size (negsuc n) = true

abbrev pub body_size : Option Text → ℕ
body_size none = 0
body_size (some b) = length b

-- Whether an argument is one of those of a raw request.
unfoldable pub check_raw_arguments : {N : Type 0} → Fields N → Result RequestError (Unit {0})
check_raw_arguments end = ok tt
check_raw_arguments (field name v args) =
    let rest = check_raw_arguments args in
    if is_one_of
      (codes "method"
        ∷ codes "path"
        ∷ codes "query"
        ∷ codes "headers"
        ∷ codes "body"
        ∷ codes "content_type"
        ∷ [])
      name
    then rest
    else err (unknown_argument name)

module _ (n : Numbers) (web : Web n.Num) where
  unfoldable pub normalized_content_type : Text → Text
  normalized_content_type value =
      let trimmed = trim_space value in
      if is_empty trimmed
      then []
      else elim (web.media_type trimmed) [ none ↦ to_lower trimmed | some t ↦ to_lower t ]

  unfoldable pub is_json_content_type : Text → Bool
  is_json_content_type value =
      let t = normalized_content_type value in
      text_eq t (codes "application/json") || has_suffix t (codes "+json")

  -- One candidate of contentTypeAllowed, normalized.
  unfoldable pub allows_type : Text → Text → Bool
  allows_type value candidate =
      text_eq candidate (codes "*/*")
      || text_eq candidate value
      || (has_suffix candidate (codes "/*") && has_prefix value (trim_suffix_byte b'*' candidate))

  unfoldable pub content_type_allowed : Text → List Text → Bool
  unfolding allows_type
  content_type_allowed value allowed =
      is_empty allowed
      || any allowed (λ c. allows_type (normalized_content_type value) (normalized_content_type c))

  unfoldable pub validate_request_policy :
      HttpPolicy → Text → Text → ℕ → Result RequestError (Unit {0})
  validate_request_policy policy method content_type size =
      let method' = to_upper (trim_space method) in
      let has_body = not (size == 0) in
      guard (not (exceeds size (effective_policy policy).max_request_bytes)) body_too_large
      >> guard
          (not has_body || content_type_allowed content_type policy.allowed_request_content_types)
          body_type_not_allowed
      >> guard (not (has_body && (text_eq method' (codes "GET") || text_eq method' (codes "HEAD"))))
          body_not_accepted

  -- The case of a slice in addQueryValue.
  unfoldable pub query_items : Text → Items n.Num → Result RequestError (List (Text × Text))
  query_items name nil = ok []
  query_items name (cons v items) =
      let rest = query_items name items in
      elim (scalar_string n v) [
        | none ↦ err (query_not_scalar name)
        | some text ↦ rest >>= λ later. ok ((name, text) ∷ later)
      ]

  -- What addQueryValue adds.
  unfoldable pub query_value : Text → Value n.Num → Result RequestError (List (Text × Text))
  unfolding query_items
  query_value name null = ok ((name, []) ∷ [])
  query_value name (arr items) = query_items name items
  query_value name (obj fs) = elim (web.marshal (obj fs)) [
    | none ↦ err (query_not_encoded name)
    | some text ↦ ok ((name, text) ∷ [])
  ]
  query_value name v = elim (scalar_string n v) [
    | none ↦ err (query_not_scalar name)
    | some text ↦ ok ((name, text) ∷ [])
  ]

  -- addQueryMap
  unfoldable pub query_map : Fields n.Num → Result RequestError (List (Text × Text))
  unfolding query_value
  query_map end = ok []
  query_map (field name v fs) =
      let rest = query_map fs in
      query_value name v >>= λ first. rest >>= λ later. ok (first ++ later)

  unfoldable pub encode_body : Value n.Num → Text → Result RequestError Text
  encode_body value content_type =
      if is_json_content_type content_type
      then (elim (web.marshal value) [ none ↦ err body_not_encoded | some encoded ↦ ok encoded ])
      else if has_prefix content_type (codes "text/")
      then (elim value [ str text ↦ ok text | _ ↦ err body_not_text ])
      else err body_type_unsupported

  unfoldable pub service_headers : Map Text → Map Text → Map Text
  service_headers [] headers = headers
  service_headers ((name, value) ∷ configured) headers =
      service_headers configured (insert (web.canonical_header_key name) value headers)

  unfoldable pub protected_header : Text → Bool
  protected_header name =
      is_one_of
        (codes "Authorization"
          ∷ codes "Proxy-Authorization"
          ∷ codes "Host"
          ∷ codes "Content-Length"
          ∷ codes "Connection"
          ∷ codes "Transfer-Encoding"
          ∷ [])
        (web.canonical_header_key (trim_space name))

  unfoldable pub is_allowed_header : List Text → Text → Bool
  is_allowed_header allowed canonical =
      any allowed (λ name. text_eq (web.canonical_header_key name) canonical)

  -- The loop over the headers that the caller gives.
  unfoldable pub set_headers : List Text → Fields n.Num → Map Text → Result RequestError (Map Text)
  set_headers allowed end headers = ok headers
  set_headers allowed (field name value fs) headers =
      let canonical = web.canonical_header_key name in
      guard (not (protected_header canonical) && is_allowed_header allowed canonical)
        (header_not_allowed name)
      >> (elim (scalar_string n value) [
        | none ↦ err (header_not_scalar name)
        | some text ↦
            set_headers allowed fs (insert (web.canonical_header_key canonical) text headers)
      ])

  unfoldable pub raw_method : HttpRawTool → Fields n.Num → Result RequestError Text
  raw_method raw args = elim (get (codes "method") args) [
    | none ↦ err method_required
    | some v ↦ elim v [
      | str given ↦
          let method = to_upper (trim_space given) in
          guard (not (is_empty (trim_space given))) method_required
          >> guard (any (normalized_methods raw.methods) (λ m. web.equal_fold m method))
              method_not_allowed
          >> ok method
      | _ ↦ err method_required
    ]
  ]

  -- The path that was given, escaped and decoded.
  unfoldable pub checked_path : HttpRawTool → Text → Result RequestError (Text × Text)
  checked_path raw given =
      guard (not (is_empty (trim_space given))) path_required
      >> (elim (canonicalize_raw_path given) [
        | err e ↦ err (path_refused e)
        | ok paths ↦ guard (matches_any_path raw.paths paths.1) path_not_allowed >> ok paths
      ])

  unfoldable pub raw_path : HttpRawTool → Fields n.Num → Result RequestError (Text × Text)
  unfolding checked_path
  raw_path raw args = elim (get (codes "path") args) [
    | none ↦ err path_required
    | some v ↦ elim v [ str given ↦ checked_path raw given | _ ↦ err path_required ]
  ]

  unfoldable pub raw_query : Fields n.Num → Result RequestError (List (Text × Text))
  unfolding query_map
  raw_query args = elim (get (codes "query") args) [
    | none ↦ ok []
    | some v ↦ elim v [ obj fs ↦ query_map fs | _ ↦ err query_not_object ]
  ]

  unfoldable pub given_headers :
      HttpRawTool → Value n.Num → Map Text → Result RequestError (Map Text)
  given_headers raw (obj fs) headers = set_headers raw.request_headers fs headers
  given_headers raw _ headers = err headers_not_object

  unfoldable pub raw_headers :
      Map Text → HttpRawTool → Fields n.Num → Result RequestError (Map Text)
  raw_headers configured raw args =
      let headers = service_headers configured [] in
      elim (get (codes "headers") args) [ none ↦ ok headers | some v ↦ given_headers raw v headers ]

  unfoldable pub raw_content_type : Fields n.Num → Result RequestError Text
  unfolding normalized_content_type
  raw_content_type args = elim (get (codes "content_type") args) [
    | none ↦ ok []
    | some v ↦ elim v [ str t ↦ ok (normalized_content_type t) | _ ↦ err content_type_not_string ]
  ]

  -- The content type and the body.
  unfoldable pub raw_body : Fields n.Num → Text → Result RequestError (Text × Option Text)
  unfolding encode_body
  raw_body args content_type = elim (get (codes "body") args) [
    | none ↦ guard (is_empty content_type) content_type_requires_body >> ok (content_type, none)
    | some v ↦
        let chosen = if is_empty content_type then codes "application/json" else content_type in
        encode_body v chosen >>= λ b. ok (chosen, some b)
  ]

  unfoldable pub compile_raw_request :
      HttpPolicy → Map Text → HttpRawTool → Fields n.Num → Result RequestError RequestPlan
  compile_raw_request policy configured raw args =
      check_raw_arguments args
      >> (raw_method raw args >>= λ method. raw_path raw args >>= λ paths.
          raw_query args >>= λ query. raw_headers configured raw args >>= λ headers.
          raw_content_type args >>= λ given_type. raw_body args given_type >>= λ content.
          validate_request_policy policy method content.0 (body_size content.1)
          >> ok (record {
            method = method;
            escaped_path = paths.0;
            decoded_path = paths.1;
            query = query;
            headers = headers;
            body = content.1;
            content_type = content.0;
          }))
