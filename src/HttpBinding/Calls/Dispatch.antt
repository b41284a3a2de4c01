-- ===== src/HttpBinding/Calls/Dispatch.antt =====
-- Which tool Call of internal/httpbinding/httpbinding.go compiles, in a service that
-- internal/config/http.go accepted.
use mcpshim.Prelude.{
  ◌≡◌, refl, false, not, none, some, List, [], ◌∷◌, is_empty, Text, text_eq_refl, text_eq_comm,
  is_one_of, trim_space, ok, guard, check_all, then-eq-ok, refused-eq-ok, guard-eq-ok, bind-eq-ok,
  map_err, Option-cases, map_err-eq-ok, All, arith, inl, inr,
}
use mcpshim.Value.{Fields, Numbers}
use mcpshim.Web.{Web}
use mcpshim.Config.Types.{HttpTool, HttpRawTool, HttpService}
use mcpshim.Config.Tools.{
  validate_http_tool, validate_http_raw_tool, raw_name_required, raw_paths_required,
  invalid_pattern, check_raw_header,
}
use mcpshim.Config.Services.{
  service_name_required, config_fault, service_alias, tool_name_required, duplicate_tool,
  tool_fault, check_tools, check_service_tools, validate_http_service, check_service,
  resolve_http_service,
}
use mcpshim.Config.Expand.{Env}
use mcpshim.Config.Servers.{Identifiers, expand_map, claim_identifiers}
use mcpshim.HttpBinding.Paths.{valid_http_path_pattern}
use mcpshim.HttpBinding.Calls.{
  raw_tool_name, find_tool, raw_tool_named, compile_typed_request, compile_call, call,
}

not_among :
    (name : Text) (names : List Text) (x : Text)
    → is_one_of (name ∷ names) x ≡ false
    → is_one_of names x ≡ false
unfolding is_one_of
not_among name names x h = ground arith

module _ (n : Numbers) (web : Web n.Num) where
  check_tools-inv :
      (names : List Text) (tool : HttpTool n.Num) (tools : List (HttpTool n.Num))
      → check_tools n web names (tool ∷ tools) ≡ ok tt
      → (is_one_of names tool.name ≡ false)
        × (validate_http_tool n web tool ≡ ok tt)
        × (check_tools n web (tool.name ∷ names) tools ≡ ok tt)
  unfolding check_tools
  check_tools-inv names tool tools h =
      let (front, rest) = then-eq-ok _ _ h in
      let (guards, valid) =
        then-eq-ok _ (map_err tool_fault (validate_http_tool n web tool)) front in
      let (_, free) =
        then-eq-ok (guard (not (is_empty (trim_space tool.name))) tool_name_required)
          (guard (not (is_one_of names tool.name)) (duplicate_tool tool.name)) guards in
      (
        refused-eq-ok (is_one_of names tool.name) (duplicate_tool tool.name) free,
        map_err-eq-ok tool_fault (validate_http_tool n web tool) valid,
        rest,
      )

  -- A tool whose name is none of `names`, and that the validation of one tool accepts.
  abbrev pub IsOwn : List Text → HttpTool n.Num → Type 0
  IsOwn names tool = (is_one_of names tool.name ≡ false) × (validate_http_tool n web tool ≡ ok tt)

  IsOwn-weaker :
      (name : Text) (names : List Text) (tools : List (HttpTool n.Num))
      → All (IsOwn (name ∷ names)) tools
      → All (IsOwn names) tools
  IsOwn-weaker name names [] h = tt
  IsOwn-weaker name names (tool ∷ tools) h =
      ((not_among name names tool.name h.0.0, h.0.1), IsOwn-weaker name names tools h.1)

  check_tools-IsOwn :
      (names : List Text) (tools : List (HttpTool n.Num))
      → check_tools n web names tools ≡ ok tt
      → All (IsOwn names) tools
  check_tools-IsOwn names [] h = tt
  check_tools-IsOwn names (tool ∷ tools) h =
      let (free, valid, rest) = check_tools-inv names tool tools h in
      (
        (free, valid),
        IsOwn-weaker tool.name names tools (check_tools-IsOwn (tool.name ∷ names) tools rest),
      )

  find_tool-cons :
      (names : List Text) (tool : HttpTool n.Num) (tools ts : List (HttpTool n.Num))
      → All (IsOwn (tool.name ∷ names)) ts
      → All (λ t. find_tool tools t.name ≡ some t) ts
      → All (λ t. find_tool (tool ∷ tools) t.name ≡ some t) ts
  unfolding find_tool is_one_of
  find_tool-cons names tool tools [] own found = tt
  find_tool-cons names tool tools (t ∷ ts) own found = (
    ground (arith, text_eq_comm tool.name t.name),
    find_tool-cons names tool tools ts own.1 found.1,
  )

  check_tools-found :
      (names : List Text) (tools : List (HttpTool n.Num))
      → check_tools n web names tools ≡ ok tt
      → All (λ t. find_tool tools t.name ≡ some t) tools
  unfolding find_tool
  check_tools-found names [] h = tt
  check_tools-found names (tool ∷ tools) h =
      let (free, valid, rest) = check_tools-inv names tool tools h in
      (
        rw (text_eq_refl tool.name) refl,
        find_tool-cons names tool tools tools (check_tools-IsOwn (tool.name ∷ names) tools rest)
            (check_tools-found (tool.name ∷ names) tools rest),
      )

  chosen :
      (service : HttpService n.Num) (tool : HttpTool n.Num) (args : Fields n.Num)
      → raw_tool_named service tool.name ≡ none
      → find_tool service.tools tool.name ≡ some tool
      → compile_call n web service tool.name args
        ≡ compile_typed_request n web service.policy service.headers tool args
  unfolding compile_call
  chosen service tool args raw found = rw (raw, compile_call, found) refl

  chosen_resolved :
      (env : Env) (service : HttpService n.Num) (tool : HttpTool n.Num) (args : Fields n.Num)
      → raw_tool_named service tool.name ≡ none
      → find_tool service.tools tool.name ≡ some tool
      → call n web env service tool.name args
        ≡ compile_typed_request n web service.policy (expand_map env service.headers) tool args
  unfolding call resolve_http_service raw_tool_named
  chosen_resolved env service tool args raw found =
      chosen (resolve_http_service env service) tool args raw found

  -- What the checks show of one tool: it is the one that is compiled under its name.
  abbrev pub IsCompiled : Env → HttpService n.Num → Fields n.Num → HttpTool n.Num → Type 0
  IsCompiled env service args tool =
      (call n web env service tool.name args
        ≡ compile_typed_request n web service.policy (expand_map env service.headers) tool args)
      × (validate_http_tool n web tool ≡ ok tt)

  All-IsCompiled :
      (env : Env) (service : HttpService n.Num) (args : Fields n.Num) (names : List Text)
      (tools : List (HttpTool n.Num))
      → ((t : HttpTool n.Num)
          → is_one_of names t.name ≡ false
          → raw_tool_named service t.name ≡ none)
      → All (IsOwn names) tools
      → All (λ t. find_tool service.tools t.name ≡ some t) tools
      → All (IsCompiled env service args) tools
  All-IsCompiled env service args names [] other own found = tt
  All-IsCompiled env service args names (t ∷ tools) other own found = (
    (chosen_resolved env service t args (other t own.0.0) found.0, own.0.1),
    All-IsCompiled env service args names tools other own.1 found.1,
  )

  without_raw :
      (service : HttpService n.Num) (name : Text)
      → service.raw_tool ≡ none
      → raw_tool_named service name ≡ none
  unfolding raw_tool_named
  without_raw service name absent = rw absent refl

  raw_other :
      (service : HttpService n.Num) (raw : HttpRawTool) (name : Text)
      → service.raw_tool ≡ some raw
      → is_empty (trim_space raw.name) ≡ false
      → is_one_of (raw.name ∷ []) name ≡ false
      → raw_tool_named service name ≡ none
  unfolding raw_tool_named raw_tool_name is_one_of
  raw_other service raw name present named other =
      rw (present, named) ground (arith, text_eq_comm raw.name name)

  raw_name :
      (raw : HttpRawTool)
      → validate_http_raw_tool web raw ≡ ok tt
      → is_empty (trim_space raw.name) ≡ false
  unfolding validate_http_raw_tool
  raw_name raw h =
      let (h1, _) = then-eq-ok _ (check_all (check_raw_header web) raw.request_headers) h in
      let (h2, _) =
        then-eq-ok _
          (check_all (λ p. guard (valid_http_path_pattern p) (invalid_pattern p)) raw.paths) h1 in
      let (h3, _) = then-eq-ok _ (guard (not (is_empty raw.paths)) raw_paths_required) h2 in
      let (h4, _) =
        then-eq-ok (guard (not (is_empty (trim_space raw.name))) raw_name_required) _ h3 in
      refused-eq-ok (is_empty (trim_space raw.name)) raw_name_required h4

  tools-IsCompiled :
      (env : Env) (service : HttpService n.Num) (args : Fields n.Num)
      → check_service_tools n web service ≡ ok tt
      → All (IsCompiled env service args) service.tools
  unfolding check_service_tools
  tools-IsCompiled env service args h = elim (Option-cases service.raw_tool) [
    | inl absent ↦
        let checked = rw absent at h in
        All-IsCompiled env service args [] service.tools (λ t _. without_raw service t.name absent)
          (check_tools-IsOwn [] service.tools checked) (check_tools-found [] service.tools checked)
    | inr (raw, present) ↦
        let checked = rw present at h in
        let (first, rest) =
          then-eq-ok (map_err tool_fault (validate_http_raw_tool web raw)) _ checked in
        let named =
          raw_name raw (map_err-eq-ok tool_fault (validate_http_raw_tool web raw) first) in
        All-IsCompiled env service args (raw.name ∷ []) service.tools
          (λ t o. raw_other service raw t.name present named o)
          (check_tools-IsOwn (raw.name ∷ []) service.tools rest)
          (check_tools-found (raw.name ∷ []) service.tools rest)
  ]

  validate_http_service-tools :
      (env : Env) (service : HttpService n.Num) (ids ids' : Identifiers)
      → validate_http_service n web env service ids ≡ ok ids'
      → check_service_tools n web service ≡ ok tt
  unfolding validate_http_service check_service
  validate_http_service-tools env service ids ids' h =
      let (_, named) =
        guard-eq-ok (not (is_empty (trim_space service.name))) service_name_required _ h in
      let (ids1, _, claimed) =
        bind-eq-ok
          (map_err config_fault (claim_identifiers service.name (service_alias service) ids)) _
          named in
      let (checked, _) = then-eq-ok (check_service n web env service) (ok ids1) claimed in
      (then-eq-ok _ (check_service_tools n web service) checked).1

  -- In a service that the configuration accepts, a call of a tool that is not the raw tool compiles
  -- the request of that tool, which passed the validation of one tool: no other tool and no raw
  -- tool of the service is called under its name.
  pub call-IsCompiled :
      (env : Env) (service : HttpService n.Num) (ids ids' : Identifiers) (args : Fields n.Num)
      → validate_http_service n web env service ids ≡ ok ids'
      → All (IsCompiled env service args) service.tools
  call-IsCompiled env service ids ids' args h =
      tools-IsCompiled env service args (validate_http_service-tools env service ids ids' h)
