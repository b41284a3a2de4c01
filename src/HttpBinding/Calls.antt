-- ===== src/HttpBinding/Calls.antt =====
-- Call and compileTypedRequest of internal/httpbinding/httpbinding.go, the listing of a service's
-- tools, and what execute decides before it sends. A map of Go is walked in the order of its
-- fields.
pub mod Compiled
pub mod Dispatch
use mcpshim.Prelude.{
  ℕ, ◌+◌, Bool, true, false, not, ◌&&◌, Option, none, some, List, [], ◌∷◌, ◌++◌, map, keep,
  if◌then◌else◌, is_empty, Text, codes, text_eq, to_upper, trim_space, Map, insert, Result, ok, err,
  guard, ◌>>=◌, ◌>>◌, map_err,
}
use mcpshim.Value.{Value, Fields, end, field, Numbers, scalar_string}
use mcpshim.Web.{Web, ParsedUrl}
use mcpshim.Config.Types.{HttpInput, rule, HttpBody, HttpTool, HttpRawTool, HttpPolicy, HttpService}
use mcpshim.Config.Expand.{Env}
use mcpshim.Config.Services.{resolve_http_service}
use mcpshim.HttpBinding.Arguments.{ArgumentError, validate_typed_arguments}
use mcpshim.HttpBinding.Template.{RenderError, render_template, render_root, max_template_depth}
use mcpshim.HttpBinding.Paths.{PathError, render_typed_path, trim_suffix_byte}
use mcpshim.HttpBinding.Requests.{
  RequestError, RequestPlan, body_size, normalized_content_type, query_value, encode_body,
  service_headers, validate_request_policy, compile_raw_request,
}

pub data CallError : Type 0 where
  argument_fault : ArgumentError → CallError
  path_fault : PathError → CallError
  query_fault header_fault : Text → RenderError → CallError
  header_not_scalar tool_not_found : Text → CallError
  body_fault : RenderError → CallError
  request_fault : RequestError → CallError

-- rawToolName
unfoldable pub raw_tool_name : HttpRawTool → Text
raw_tool_name raw = if is_empty (trim_space raw.name) then codes "request" else raw.name

module _ {N : Type 0} where
  -- The loop over the tools in Call and in InspectTool.
  unfoldable pub find_tool : List (HttpTool N) → Text → Option (HttpTool N)
  find_tool [] name = none
  find_tool (tool ∷ tools) name = if text_eq tool.name name then some tool else find_tool tools name

  -- The test of Call and of InspectTool for the raw tool.
  unfoldable pub raw_tool_named : HttpService N → Text → Option HttpRawTool
  unfolding raw_tool_name
  raw_tool_named service name = elim service.raw_tool [
    | none ↦ none
    | some raw ↦ if text_eq (raw_tool_name raw) name then some raw else none
  ]

module _ (n : Numbers) (web : Web n.Num) where
  -- One value of a query template that is present.
  abbrev pub rendered_query : Text → Option (Value n.Num) → Result CallError (List (Text × Text))
  rendered_query name none = ok []
  rendered_query name (some value) = map_err request_fault (query_value n web name value)

  -- renderQuery
  unfoldable pub render_query : Fields n.Num → Fields n.Num → Result CallError (List (Text × Text))
  render_query end args = ok []
  render_query (field name template templates) args =
      let rest = render_query templates args in
      do
        value ←
            map_err (query_fault name) (render_template n (max_template_depth + 1) args template)
        first ← rendered_query name value
        later ← rest
        ok (first ++ later)

  -- headers.Set for a value that is present.
  abbrev pub set_rendered : Text → Option (Value n.Num) → Map Text → Result CallError (Map Text)
  set_rendered name none headers = ok headers
  set_rendered name (some value) headers = elim (scalar_string n value) [
    | none ↦ err (header_not_scalar name)
    | some text ↦ ok (insert (web.canonical_header_key name) text headers)
  ]

  -- The loop over the header templates.
  unfoldable pub render_headers :
      Fields n.Num → Fields n.Num → Map Text → Result CallError (Map Text)
  render_headers end args headers = ok headers
  render_headers (field name template templates) args headers = do
    value ← map_err (header_fault name) (render_template n (max_template_depth + 1) args template)
    headers' ← set_rendered name value headers
    render_headers templates args headers'

  -- The content type and the body.
  unfoldable pub typed_body :
      Option (HttpBody n.Num) → Fields n.Num → Result CallError (Text × Option Text)
  typed_body none args = ok ([], none)
  typed_body (some body) args = do
    rendered ← map_err body_fault (render_root n body.template args)
    encoded ←
        map_err request_fault
          (encode_body n web rendered (normalized_content_type n web body.content_type))
    ok (normalized_content_type n web body.content_type, some encoded)

  unfoldable pub compile_typed_request :
      HttpPolicy → Map Text → HttpTool n.Num → Fields n.Num → Result CallError RequestPlan
  compile_typed_request policy configured tool args = do
    effective ← map_err argument_fault (validate_typed_arguments n tool args)
    paths ← map_err path_fault (render_typed_path n tool.request.path effective)
    query ← render_query tool.request.query effective
    headers ← render_headers tool.request.headers effective (service_headers n web configured [])
    content ← typed_body tool.request.body effective
    map_err request_fault
        (validate_request_policy n web policy tool.request.method content.0 (body_size content.1))
    ok (record {
      method = to_upper tool.request.method;
      escaped_path = paths.0;
      decoded_path = paths.1;
      query = query;
      headers = headers;
      body = content.1;
      content_type = content.0;
    })

  -- Call up to execute, on a service that is resolved.
  unfoldable pub compile_call :
      HttpService n.Num → Text → Fields n.Num → Result CallError RequestPlan
  compile_call service name args = elim (raw_tool_named service name) [
    | some raw ↦
        map_err request_fault (compile_raw_request n web service.policy service.headers raw args)
    | none ↦ elim (find_tool service.tools name) [
      | none ↦ err (tool_not_found name)
      | some tool ↦ compile_typed_request service.policy service.headers tool args
    ]
  ]

  -- Call, up to its call of execute
  unfoldable pub call : Env → HttpService n.Num → Text → Fields n.Num → Result CallError RequestPlan
  call env service name args = compile_call (resolve_http_service env service) name args

-- buildTargetURL, with url.Values.Encode of the query: the decoded path, the escaped path and the
-- query.
unfoldable pub build_target_url :
    {N : Type 0} → Web N → (List (Text × Text) → Text) → Text → RequestPlan → Option ParsedUrl
unfolding trim_suffix_byte
build_target_url web encode base plan = elim (web.parse_url base) [
  | none ↦ none
  | some url ↦ some (record url {
    path = trim_suffix_byte b'/' url.path ++ plan.decoded_path;
    escaped_path = trim_suffix_byte b'/' url.escaped_path ++ plan.escaped_path;
    raw_query = encode plan.query;
    fragment = [];
  })
]

-- What a client does with an answer that redirects.
pub data Redirected : Type 0 where
  followed answered refused : Redirected

-- CheckRedirect, by the policy: the origin is that of the target. With `any` the client has none.
unfoldable pub check_redirect : Text → ParsedUrl → ParsedUrl → Redirected
check_redirect redirects target next =
    if text_eq redirects (codes "disabled")
    then answered
    else if text_eq redirects (codes "same-origin")
    then (if text_eq next.scheme target.scheme && text_eq next.host target.host
        then followed
        else refused)
    else followed
