-- ===== src/HttpBinding/Calls/Compiled.antt =====
-- The headers that compileTypedRequest of internal/httpbinding/httpbinding.go sets, for a tool that
-- internal/config/http.go accepted.
use mcpshim.Prelude.{
  ◌≡◌, refl, ◌∙◌, sym, ap, true, false, not, Option, none, some, [], ◌+◌, Text, text_eq,
  text_eq_iff, trim_space, Map, lookup, lookup-insert, ok, guard, ◌++◌, codes, then-eq-ok,
  refused-eq-ok, bind-eq-ok, map_err, arith, inl, inr, Bool-cases, Option-cases,
}
use mcpshim.Value.{Value, Fields, end, field, Numbers, scalar_string}
use mcpshim.Web.{Web}
use mcpshim.Config.Types.{HttpInput, HttpTool, HttpPolicy}
use mcpshim.Config.Headers.{is_protected_http_header}
use mcpshim.Config.Tools.{
  check_header_templates, validate_http_tool, protected_header_named, check_template_of,
}
use mcpshim.HttpBinding.Template.{render_template, max_template_depth}
use mcpshim.HttpBinding.Paths.{render_typed_path}
use mcpshim.HttpBinding.Arguments.{validate_typed_arguments}
use mcpshim.HttpBinding.Requests.{RequestPlan, service_headers}
use mcpshim.HttpBinding.Calls.{
  argument_fault, path_fault, render_query, typed_body, header_fault, render_headers, set_rendered,
  compile_typed_request,
}

module _ (n : Numbers) (web : Web n.Num) where
  protected_by_form :
      (a b : Text)
      → web.canonical_header_key (trim_space a) ≡ web.canonical_header_key (trim_space b)
      → is_protected_http_header web a ≡ is_protected_http_header web b
  unfolding is_protected_http_header
  protected_by_form a b e = rw e refl

  -- The canonical form of a name that is not protected is no protected header.
  differs :
      (name key : Text)
      → ((x : Text)
          → trim_space (web.canonical_header_key x) ≡ web.canonical_header_key x
          → trim_space x ≡ x)
      → trim_space key ≡ key
      → web.canonical_header_key key ≡ key
      → is_protected_http_header web key ≡ true
      → is_protected_http_header web name ≡ false
      → text_eq (web.canonical_header_key name) key ≡ false
  differs name key trims trimmed canonical protected free =
      elim (Bool-cases (text_eq (web.canonical_header_key name) key)) [
        | inr e ↦ e
        | inl e ↦
            let same = (text_eq_iff (web.canonical_header_key name) key).0 e in
            let plain : trim_space name ≡ name = trims name (rw same trimmed) in
            let form : web.canonical_header_key (trim_space name)
                ≡ web.canonical_header_key (trim_space key) =
              ap web.canonical_header_key plain
              ∙ same
              ∙ sym (ap web.canonical_header_key trimmed ∙ canonical) in
            let both = protected_by_form name key form in cc
      ]

  set_rendered-keeps :
      (name key : Text) (value : Option (Value n.Num)) (headers headers' : Map Text)
      → set_rendered n web name value headers ≡ ok headers'
      → text_eq (web.canonical_header_key name) key ≡ false
      → lookup key headers' ≡ lookup key headers
  set_rendered-keeps name key none headers headers' h other = ground arith
  set_rendered-keeps name key (some value) headers headers' h other =
      elim (Option-cases (scalar_string n value)) [
        | inl absent ↦ let broken = rw (absent, set_rendered) at h in cc
        | inr (text, present) ↦
            let stored = rw (present, set_rendered) at h in
            ground (arith, lookup-insert (web.canonical_header_key name) key text headers)
      ]

  check_header_templates-inv :
      (inputs : Map (HttpInput n.Num)) (name : Text) (template : Value n.Num) (fs : Fields n.Num)
      → check_header_templates n web inputs (field name template fs) ≡ ok tt
      → (is_protected_http_header web name ≡ false)
        × (check_header_templates n web inputs fs ≡ ok tt)
  unfolding check_header_templates
  check_header_templates-inv inputs name template fs h =
      let (front, rest) = then-eq-ok _ _ h in
      let (guards, _) =
        then-eq-ok _ (check_template_of (codes "headers." ++ name) inputs template) front in
      let (_, free) =
        then-eq-ok _ (guard (not (is_protected_http_header web name)) (protected_header_named name))
          guards in
      (refused-eq-ok (is_protected_http_header web name) (protected_header_named name) free, rest)

  render_headers-keeps :
      (inputs : Map (HttpInput n.Num)) (templates args : Fields n.Num) (headers headers' : Map Text)
      (key : Text)
      → ((x : Text)
          → trim_space (web.canonical_header_key x) ≡ web.canonical_header_key x
          → trim_space x ≡ x)
      → trim_space key ≡ key
      → web.canonical_header_key key ≡ key
      → is_protected_http_header web key ≡ true
      → check_header_templates n web inputs templates ≡ ok tt
      → render_headers n web templates args headers ≡ ok headers'
      → lookup key headers' ≡ lookup key headers
  unfolding render_headers
  render_headers-keeps inputs end args headers headers' key trims trimmed canonical protected valid
        h =
      ground arith
  render_headers-keeps inputs (field name template fs) args headers headers' key trims trimmed
        canonical protected valid h =
      let (free, valid') = check_header_templates-inv inputs name template fs valid in
      let (value, _, h1) =
        bind-eq-ok
          (map_err (header_fault name) (render_template n (max_template_depth + 1) args template)) _
          h in
      let (headers1, set, h2) = bind-eq-ok (set_rendered n web name value headers) _ h1 in
      render_headers-keeps inputs fs args headers1 headers' key trims trimmed canonical protected
        valid' h2
      ∙ set_rendered-keeps name key value headers headers1 set
          (differs name key trims trimmed canonical protected free)

  validate_http_tool-headers :
      (tool : HttpTool n.Num)
      → validate_http_tool n web tool ≡ ok tt
      → check_header_templates n web tool.inputs tool.request.headers ≡ ok tt
  unfolding validate_http_tool
  validate_http_tool-headers tool h = ground arith

  compile_typed_request-headers_inv :
      (policy : HttpPolicy) (configured : Map Text) (tool : HttpTool n.Num) (args : Fields n.Num)
      (plan : RequestPlan)
      → compile_typed_request n web policy configured tool args ≡ ok plan
      → (effective : Fields n.Num) × (render_headers n web tool.request.headers effective
            (service_headers n web configured [])
          ≡ ok plan.headers)
  unfolding compile_typed_request
  compile_typed_request-headers_inv policy configured tool args plan h =
      let (effective, _, h1) =
        bind-eq-ok (map_err argument_fault (validate_typed_arguments n tool args)) _ h in
      let (paths, _, h2) =
        bind-eq-ok (map_err path_fault (render_typed_path n tool.request.path effective)) _ h1 in
      let (query, _, h3) = bind-eq-ok (render_query n web tool.request.query effective) _ h2 in
      let (headers, rendered, h4) =
        bind-eq-ok
          (render_headers n web tool.request.headers effective
            (service_headers n web configured []))
          _ h3 in
      let (content, _, h5) = bind-eq-ok (typed_body n web tool.request.body effective) _ h4 in
      (effective, rendered ∙ ground arith)

  -- Where a name whose canonical form has no space at its ends has none itself, a typed request
  -- that is compiled for a tool that the configuration accepted has for every protected header, in
  -- canonical form, the value that the service configures, or none: no argument and no template
  -- sets it.
  pub compile_typed_request-headers :
      (policy : HttpPolicy) (configured : Map Text) (tool : HttpTool n.Num) (args : Fields n.Num)
      (plan : RequestPlan) (key : Text)
      → ((x : Text)
          → trim_space (web.canonical_header_key x) ≡ web.canonical_header_key x
          → trim_space x ≡ x)
      → validate_http_tool n web tool ≡ ok tt
      → compile_typed_request n web policy configured tool args ≡ ok plan
      → trim_space key ≡ key
      → web.canonical_header_key key ≡ key
      → is_protected_http_header web key ≡ true
      → lookup key plan.headers ≡ lookup key (service_headers n web configured [])
  compile_typed_request-headers policy configured tool args plan key trims valid h trimmed canonical
        protected =
      let (effective, rendered) =
        compile_typed_request-headers_inv policy configured tool args plan h in
      render_headers-keeps tool.inputs tool.request.headers effective
        (service_headers n web configured []) plan.headers key trims trimmed canonical protected
        (validate_http_tool-headers tool valid) rendered
