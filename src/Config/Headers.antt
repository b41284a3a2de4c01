-- ===== src/Config/Headers.antt =====
-- The header names, methods and content types that internal/config/http.go accepts.
use mcpshim.Prelude.{
  ℕ, Bool, false, not, ◌&&◌, ◌||◌, ◌++◌, none, some, [], ◌∷◌, leb, if◌then◌else◌, is_empty, all,
  Text, codes, text_eq, is_one_of, has_byte, has_prefix, has_suffix, to_upper, to_lower, trim_space,
  is_some,
}
use mcpshim.Web.{Web}
use mcpshim.HttpBinding.Paths.{trim_suffix_byte}

unfoldable pub valid_http_method : Text → Bool
valid_http_method method =
    is_one_of
      (codes "GET"
        ∷ codes "HEAD"
        ∷ codes "POST"
        ∷ codes "PUT"
        ∷ codes "PATCH"
        ∷ codes "DELETE"
        ∷ codes "OPTIONS"
        ∷ [])
      (to_upper (trim_space method))

-- A byte of httpHeaderNamePattern.
unfoldable pub is_header_byte : ℕ → Bool
is_header_byte c =
    (leb b'0' c && leb c b'9')
    || (leb b'A' c && leb c b'Z')
    || (leb b'a' c && leb c b'z')
    || has_byte c (codes "!#$%&'*+.^_`|~-")

unfoldable pub valid_http_header_name : Text → Bool
unfolding is_header_byte
valid_http_header_name name =
    not (is_empty (trim_space name)) && all (trim_space name) is_header_byte

module _ {N : Type 0} (web : Web N) where
  unfoldable pub is_protected_http_header : Text → Bool
  is_protected_http_header name =
      is_one_of
        (codes "Authorization"
          ∷ codes "Proxy-Authorization"
          ∷ codes "Host"
          ∷ codes "Content-Length"
          ∷ codes "Connection"
          ∷ codes "Transfer-Encoding"
          ∷ [])
        (web.canonical_header_key (trim_space name))

  unfoldable pub is_sensitive_http_response_header : Text → Bool
  is_sensitive_http_response_header name =
      is_one_of
        (codes "Authorization"
          ∷ codes "Proxy-Authorization"
          ∷ codes "Cookie"
          ∷ codes "Set-Cookie"
          ∷ codes "Proxy-Authenticate"
          ∷ [])
        (web.canonical_header_key (trim_space name))

  unfoldable pub is_unsafe_configured_http_header : Text → Bool
  is_unsafe_configured_http_header name =
      is_one_of
        (codes "Proxy-Authorization"
          ∷ codes "Host"
          ∷ codes "Content-Length"
          ∷ codes "Connection"
          ∷ codes "Transfer-Encoding"
          ∷ [])
        (web.canonical_header_key (trim_space name))

  unfoldable pub supported_http_body_content_type : Text → Bool
  supported_http_body_content_type value = elim (web.media_type value) [
    | none ↦ false
    | some media_type ↦
        let lower = to_lower media_type in
        text_eq lower (codes "application/json")
        || has_suffix lower (codes "+json")
        || has_prefix lower (codes "text/")
  ]

  unfoldable pub valid_http_content_type_pattern : Text → Bool
  valid_http_content_type_pattern value =
      let trimmed = trim_space value in
      if has_suffix trimmed (codes "/*")
      then not (has_byte b';' trimmed)
        && is_some (web.media_type (trim_suffix_byte b'*' trimmed ++ codes "plain"))
      else is_some (web.media_type trimmed)
