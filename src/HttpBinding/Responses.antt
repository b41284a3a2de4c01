-- ===== src/HttpBinding/Responses.antt =====
-- What execute of internal/httpbinding/httpbinding.go makes of a response: the part of it behind
-- client.Do, with what it calls. The limit of a policy that the configuration accepts is not
-- negative, and is a natural number here.
pub mod Withheld
use mcpshim.Prelude.{
  ℕ, suc, Bool, true, false, not, ◌&&◌, Option, none, some, List, [], ◌∷◌, ltb, if◌then◌else◌,
  length, is_empty, take, any, Text, codes, to_lower, Map, insert, ℤ, pos, negsuc, pos_part, ◌==◌,
  leb,
}
use mcpshim.Value.{Value, Numbers}
use mcpshim.Config.Types.{HttpPolicy}
use mcpshim.HttpBinding.Requests.{
  Web, effective_policy, normalized_content_type, is_json_content_type, content_type_allowed,
}

-- http.Response; `header` is Header.Get.
pub record Response : Type 0 where
  pub status : ℤ
  pub header : Text → Text
  pub body : Text

pub data Payload (N : Type 0) : Type 0 where
  parsed : Value N → Payload N
  raw_text : Text → Payload N

-- Result
pub record CallResult (N : Type 0) : Type 0 where
  pub status : ℤ
  pub content_type : Text
  pub headers : Map Text
  pub body : Option (Payload N)
  pub truncated : Bool

-- The texts of CallError.
pub data CallError : Type 0 where
  type_not_allowed response_too_large status_failed : CallError

abbrev pub max_int64 : ℕ
max_int64 = 9223372036854775807

-- What io.LimitReader reads at most: `limit + 1` wraps around to a negative number at the largest
-- limit, and then it reads nothing.
unfoldable pub read_window : ℕ → ℕ
read_window limit = if ltb limit max_int64 then suc limit else 0

-- What is read of the body, and whether there was more.
unfoldable pub read_body : ℕ → Text → Text × Bool
unfolding read_window
read_body limit body =
    let got = take (read_window limit) body in
    let truncated = ltb limit (length got) in (if truncated then take limit got else got, truncated)

abbrev pub same_status : ℤ → ℤ → Bool
same_status (pos a) (pos b) = a == b
same_status (negsuc a) (negsuc b) = a == b
same_status _ _ = false

unfoldable pub successful_status : ℤ → List ℤ → Bool
successful_status status allowed =
    if is_empty allowed
    then (leb 200 (pos_part status) && leb (pos_part status) 299)
    else any allowed (λ candidate. same_status candidate status)

module _ (n : Numbers) (web : Web n.Num) where
  unfoldable pub filtered_headers : (Text → Text) → List Text → Map Text
  filtered_headers header [] = []
  filtered_headers header (name ∷ allowed) =
      let value = header name in
      let rest = filtered_headers header allowed in
      if is_empty value then rest else insert (to_lower (web.canonical_header_key name)) value rest

  -- The body of the result, from the bytes that are read; `unmarshal` is json.Unmarshal.
  unfoldable pub payload : (Text → Option (Value n.Num)) → Text → Text → Option (Payload n.Num)
  payload unmarshal content_type bytes =
      if is_empty bytes
      then none
      else if is_json_content_type n web content_type
      then (elim (unmarshal bytes) [ none ↦ some (raw_text bytes) | some v ↦ some (parsed v) ])
      else some (raw_text bytes)

  unfoldable pub respond :
      (Text → Option (Value n.Num)) → HttpPolicy → Response → CallResult n.Num × Option CallError
  respond unmarshal policy response =
      let limits = effective_policy policy in
      let (bytes, truncated) = read_body (pos_part limits.max_response_bytes) response.body in
      let content_type = normalized_content_type n web (response.header (codes "Content-Type")) in
      let withheld : CallResult n.Num = record {
        status = response.status;
        content_type = content_type;
        headers = filtered_headers response.header limits.response_headers;
        body = none;
        truncated = truncated;
      } in
      let shown : CallResult n.Num = record withheld {
        body = payload unmarshal content_type bytes;
      } in
      if not (is_empty bytes)
        && not (content_type_allowed n web content_type limits.allowed_response_content_types)
      then (withheld, some type_not_allowed)
      else if truncated
      then (shown, some response_too_large)
      else if not (successful_status response.status limits.success_statuses)
      then (shown, some status_failed)
      else (shown, none)
