-- ===== src/Config/Types.antt =====
-- The types of internal/config/config.go and internal/config/http.go. A nil map or slice and an
-- empty one are one value here; `null` is the nil interface.
use mcpshim.Prelude.{Bool, Option, List, Text, Map, ℤ}
use mcpshim.Value.{Value, Fields}

pub record ServerConfig : Type 0 where
  pub socket_path : Text
  pub db_path : Text
  pub manifest_path : Text
  pub history_size : ℤ
  pub allow_registry_writes : Bool

pub record McpServer : Type 0 where
  pub name : Text
  pub alias : Text
  pub url : Text
  pub transport : Text
  pub headers : Map Text
  pub headers_helper : Text
  pub command : Text
  pub args : List Text
  pub env : Map Text

-- HTTPInput without its Items.
pub record InputRule (N : Type 0) : Type 0 where
  pub kind : Text
  pub description : Text
  pub required : Bool
  pub default : Value N
  pub enum : List Text
  pub minimum : Option N
  pub maximum : Option N

-- HTTPInput: `plain` is one whose Items is nil.
pub data HttpInput (N : Type 0) : Type 0 where
  plain : InputRule N → HttpInput N
  with_items : InputRule N → HttpInput N → HttpInput N

abbrev pub rule : {N : Type 0} → HttpInput N → InputRule N
rule (plain r) = r
rule (with_items r items) = r

pub record HttpBody (N : Type 0) : Type 0 where
  pub content_type : Text
  pub template : Value N

pub record HttpRequest (N : Type 0) : Type 0 where
  pub method : Text
  pub path : Text
  pub query : Fields N
  pub headers : Fields N
  pub body : Option (HttpBody N)

pub record HttpTool (N : Type 0) : Type 0 where
  pub name : Text
  pub description : Text
  pub request : HttpRequest N
  pub inputs : Map (HttpInput N)

pub record HttpRawTool : Type 0 where
  pub name : Text
  pub description : Text
  pub methods : List Text
  pub paths : List Text
  pub request_headers : List Text

pub record HttpPolicy : Type 0 where
  pub timeout_seconds : ℤ
  pub max_request_bytes : ℤ
  pub max_response_bytes : ℤ
  pub redirects : Text
  pub allowed_request_content_types : List Text
  pub allowed_response_content_types : List Text
  pub success_statuses : List ℤ
  pub response_headers : List Text

pub record HttpService (N : Type 0) : Type 0 where
  pub name : Text
  pub alias : Text
  pub description : Text
  pub base_url : Text
  pub headers : Map Text
  pub policy : HttpPolicy
  pub raw_tool : Option HttpRawTool
  pub tools : List (HttpTool N)

pub record Config (N : Type 0) : Type 0 where
  pub server : ServerConfig
  pub servers : List McpServer
  pub http_services : List (HttpService N)
