-- ===== src/HttpBinding/Requests/Gate.antt =====
-- The steps of compileRawRequest in a request that it compiles.
use mcpshim.Prelude.{
  ℕ, ◌≡◌, refl, ◌∙◌, true, false, not, ◌&&◌, ◌||◌, ◌==◌, some, List, [], any, Text, codes, text_eq,
  text_eq_iff, Map, lookup, insert, lookup-insert, ok, guard-eq-ok, arith, inl, inr, Bool-cases,
  Option-cases,
}
use mcpshim.Value.{Value, str, obj, Fields, end, field, Numbers, get, scalar_string}
use mcpshim.Config.Types.{HttpPolicy, HttpRawTool}
use mcpshim.HttpBinding.Paths.{canonicalize_raw_path}
use mcpshim.HttpBinding.Segments.{matches_any_path}
use mcpshim.HttpBinding.Requests.{
  Web, RequestPlan, normalized_methods, effective_policy, exceeds, body_size, content_type_allowed,
  validate_request_policy, service_headers, protected_header, is_allowed_header, set_headers,
  raw_method, checked_path, raw_path, raw_headers, given_headers, compile_raw_request,
  header_not_allowed,
}

module _ (n : Numbers) (web : Web n.Num) where
  differs :
      (allowed : List Text) (own key : Text)
      → (not (protected_header n web own) && is_allowed_header n web allowed own) ≡ true
      → (not (protected_header n web key) && is_allowed_header n web allowed key) ≡ false
      → text_eq own key ≡ false
  differs allowed own key given refused = elim (Bool-cases (text_eq own key)) [
    | inr e ↦ e
    | inl e ↦ let same = (text_eq_iff own key).0 e in cc
  ]

  set_headers-keeps :
      (allowed : List Text) (fs : Fields n.Num) (headers headers' : Map Text) (key : Text)
      → ((x : Text)
          → web.canonical_header_key (web.canonical_header_key x) ≡ web.canonical_header_key x)
      → set_headers n web allowed fs headers ≡ ok headers'
      → (not (protected_header n web key) && is_allowed_header n web allowed key) ≡ false
      → lookup key headers' ≡ lookup key headers
  unfolding set_headers
  set_headers-keeps allowed end headers headers' key canonical h refused = ground arith
  set_headers-keeps allowed (field name value fs) headers headers' key canonical h refused =
      let own = web.canonical_header_key name in
      let (given, h') =
        guard-eq-ok (not (protected_header n web own) && is_allowed_header n web allowed own)
          (header_not_allowed name) _ h in
      elim (Option-cases (scalar_string n value)) [
        | inl absent ↦ let broken = rw absent at h' in cc
        | inr (text, present) ↦
            let rest = rw (present, canonical name) at h' in
            set_headers-keeps allowed fs (insert own text headers) headers' key canonical rest
              refused
            ∙ lookup-insert own key text headers
            ∙ rw (differs allowed own key given refused) refl
      ]

  raw_method-inv :
      (raw : HttpRawTool) (args : Fields n.Num) (method : Text)
      → raw_method n web raw args ≡ ok method
      → any (normalized_methods raw.methods) (λ m. web.equal_fold m method) ≡ true
  unfolding raw_method
  raw_method-inv raw args method h = ground arith

  raw_path-inv :
      (raw : HttpRawTool) (args : Fields n.Num) (escaped decoded : Text)
      → raw_path n web raw args ≡ ok (escaped, decoded)
      → (given : Text) × (get (codes "path") args ≡ some (str given))
        × (canonicalize_raw_path given ≡ ok (escaped, decoded))
        × (matches_any_path raw.paths decoded ≡ true)
  unfolding raw_path checked_path
  raw_path-inv raw args escaped decoded h = ground arith

  given_headers-keeps :
      (raw : HttpRawTool) (v : Value n.Num) (headers headers' : Map Text) (key : Text)
      → ((x : Text)
          → web.canonical_header_key (web.canonical_header_key x) ≡ web.canonical_header_key x)
      → given_headers n web raw v headers ≡ ok headers'
      → (not (protected_header n web key) && is_allowed_header n web raw.request_headers key)
        ≡ false
      → lookup key headers' ≡ lookup key headers
  unfolding given_headers
  given_headers-keeps raw (obj fs) headers headers' key canonical h refused =
      set_headers-keeps raw.request_headers fs headers headers' key canonical h refused
  given_headers-keeps raw _ headers headers' key canonical h refused = cc

  raw_headers-inv :
      (configured : Map Text) (raw : HttpRawTool) (args : Fields n.Num) (headers : Map Text)
      (key : Text)
      → ((x : Text)
          → web.canonical_header_key (web.canonical_header_key x) ≡ web.canonical_header_key x)
      → raw_headers n web configured raw args ≡ ok headers
      → (not (protected_header n web key) && is_allowed_header n web raw.request_headers key)
        ≡ false
      → lookup key headers ≡ lookup key (service_headers n web configured [])
  unfolding raw_headers
  raw_headers-inv configured raw args headers key canonical h refused =
      let headers0 = service_headers n web configured [] in
      elim (Option-cases (get (codes "headers") args)) [
        | inl absent ↦ let same = rw (absent, raw_headers) at h in ground arith
        | inr (v, present) ↦
            given_headers-keeps raw v headers0 headers key canonical
              (rw (present, raw_headers) at h) refused
      ]

  policy-inv :
      (policy : HttpPolicy) (method content_type : Text) (size : ℕ)
      → validate_request_policy n web policy method content_type size ≡ ok tt
      → (exceeds size (effective_policy policy).max_request_bytes ≡ false)
        × ((size == 0
              || content_type_allowed n web content_type policy.allowed_request_content_types)
            ≡ true)
  unfolding validate_request_policy
  policy-inv policy method content_type size h = (ground arith, ground arith)

  -- What the steps of compileRawRequest have found.
  pub compile_raw_request-inv :
      (policy : HttpPolicy) (configured : Map Text) (raw : HttpRawTool) (args : Fields n.Num)
      (plan : RequestPlan)
      → compile_raw_request n web policy configured raw args ≡ ok plan
      → (raw_method n web raw args ≡ ok plan.method)
        × (raw_path n web raw args ≡ ok (plan.escaped_path, plan.decoded_path))
        × (raw_headers n web configured raw args ≡ ok plan.headers)
        × (validate_request_policy n web policy plan.method plan.content_type (body_size plan.body)
            ≡ ok tt)
  unfolding compile_raw_request
  compile_raw_request-inv policy configured raw args plan h = ground arith

  -- A raw request that is compiled has passed the gate of its tool: its method is one of the
  -- tool's, and its paths are those of the path that was given, of which the decoded one matches a
  -- path of the tool. A body has no more bytes than the policy allows, and a type that it allows.
  pub compile_raw_request-gated :
      (policy : HttpPolicy) (configured : Map Text) (raw : HttpRawTool) (args : Fields n.Num)
      (plan : RequestPlan)
      → compile_raw_request n web policy configured raw args ≡ ok plan
      → (any (normalized_methods raw.methods) (λ m. web.equal_fold m plan.method) ≡ true)
        × ((given : Text) × (get (codes "path") args ≡ some (str given))
            × (canonicalize_raw_path given ≡ ok (plan.escaped_path, plan.decoded_path))
            × (matches_any_path raw.paths plan.decoded_path ≡ true))
        × (exceeds (body_size plan.body) (effective_policy policy).max_request_bytes ≡ false)
        × ((body_size plan.body == 0
              || content_type_allowed n web plan.content_type policy.allowed_request_content_types)
            ≡ true)
  compile_raw_request-gated policy configured raw args plan h =
      let (method, path, _, checked) = compile_raw_request-inv policy configured raw args plan h in
      let (size, type_allowed) =
        policy-inv policy plan.method plan.content_type (body_size plan.body) checked in
      (
        raw_method-inv raw args plan.method method,
        raw_path-inv raw args plan.escaped_path plan.decoded_path path,
        size,
        type_allowed,
      )

  -- Where the canonical form of a header name is its own canonical form, a raw request that is
  -- compiled has for a header that is protected, or not on the list of its tool, the value that
  -- the service configures, or none.
  pub compile_raw_request-headers :
      (policy : HttpPolicy) (configured : Map Text) (raw : HttpRawTool) (args : Fields n.Num)
      (plan : RequestPlan) (key : Text)
      → ((x : Text)
          → web.canonical_header_key (web.canonical_header_key x) ≡ web.canonical_header_key x)
      → compile_raw_request n web policy configured raw args ≡ ok plan
      → (not (protected_header n web key) && is_allowed_header n web raw.request_headers key)
        ≡ false
      → lookup key plan.headers ≡ lookup key (service_headers n web configured [])
  compile_raw_request-headers policy configured raw args plan key canonical h refused =
      let (_, _, headers, _) = compile_raw_request-inv policy configured raw args plan h in
      raw_headers-inv configured raw args plan.headers key canonical headers refused
