-- ===== src/Web.antt =====
-- What internal/config and internal/httpbinding use of Go's net/http, net/url, mime, encoding/json
-- and strings.
use mcpshim.Prelude.{Bool, Option, Text}
use mcpshim.Value.{Value}

-- The parts of a url.URL; `has_user` says that User is not nil.
pub record ParsedUrl : Type 0 where
  pub scheme : Text
  pub host : Text
  pub has_user : Bool
  pub path : Text
  pub escaped_path : Text
  pub raw_query : Text
  pub fragment : Text

-- http.CanonicalHeaderKey, the media type that mime.ParseMediaType finds, json.Marshal,
-- strings.EqualFold and url.Parse.
pub record Web (N : Type 0) : Type 0 where
  pub canonical_header_key : Text → Text
  pub media_type : Text → Option Text
  pub marshal : Value N → Option Text
  pub equal_fold : Text → Text → Bool
  pub parse_url : Text → Option ParsedUrl
