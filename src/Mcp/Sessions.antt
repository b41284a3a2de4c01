-- ===== src/Mcp/Sessions.antt =====
-- The connection of one request: session of internal/server/session.go, handleConn of
-- internal/server/server.go, and the elicitations of internal/mcp/session.go. The mutex of the
-- session makes an elicitation one step; what the connection decodes and how a write ends are
-- arguments.
pub mod Wire
use mcpshim.Prelude.{
  Bool, true, false, not, Option, none, some, List, [], ◌∷◌, ◌++◌, if◌then◌else◌, is_empty, Text,
  codes, text_eq, is_one_of, any, ◌||◌, Result, ok, err, ◌>>=◌,
}
use mcpshim.Value.{Value}
use mcpshim.Config.Types.{McpServer}

-- protocol.ElicitationRequest
pub record ElicitationRequest (N : Type 0) : Type 0 where
  pub server : Text
  pub mode : Text
  pub message : Text
  pub requested_schema : Value N
  pub url : Text
  pub elicitation_id : Text

-- Params of mcp-go's elicitation request.
pub record ElicitationParams (N : Type 0) : Type 0 where
  pub mode : Text
  pub message : Text
  pub requested_schema : Value N
  pub url : Text
  pub elicitation_id : Text

-- The request that Elicit puts on the wire for a server.
unfoldable pub wire_request : {N : Type 0} → Text → ElicitationParams N → ElicitationRequest N
wire_request server params = record {
  server = server;
  mode = params.mode;
  message = params.message;
  requested_schema = params.requested_schema;
  url = params.url;
  elicitation_id = params.elicitation_id;
}

-- protocol.ElicitationAnswer
pub record ElicitationAnswer (N : Type 0) : Type 0 where
  pub action : Text
  pub content : Value N

-- The fields of protocol.Request that an answer has.
pub record Inbound (N : Type 0) : Type 0 where
  pub action : Text
  pub elicitation_answer : Option (ElicitationAnswer N)

-- What the daemon writes: an envelope with an elicitation, or the response of type `R`.
pub data Message (N R : Type 0) : Type 0 where
  envelope : ElicitationRequest N → Message N R
  response : R → Message N R

-- How an Encode on the connection ends, with the Flush behind it: the message is on the wire; it
-- has no JSON; the write fails; or the flush fails, which the code does not see.
pub data Sending : Type 0 where
  delivered unmarshalled unwritten unflushed : Sending

-- The field `finished` of session, and the connection: what is on the wire, and whether a write has
-- failed, after which the encoder and the buffered writer fail for good.
pub record Session (N R : Type 0) : Type 0 where
  pub finished : Bool
  pub broken : Bool
  pub written : List (Message N R)

pub data SessionError : Type 0 where
  session_finished not_sent not_read not_an_answer unknown_action : SessionError

-- mcp.ElicitationResponseAction
pub data ResponseAction : Type 0 where
  accept decline cancel : ResponseAction

unfoldable pub map_elicitation_action : Text → Result SessionError ResponseAction
map_elicitation_action s =
    if text_eq s (codes "accept")
    then ok accept
    else if text_eq s (codes "decline")
    then ok decline
    else if is_one_of (codes "cancel" ∷ [] ∷ []) s
    then ok cancel
    else err unknown_action

-- serverConfigured
unfoldable pub server_configured : List McpServer → Text → Bool
server_configured servers name_or_alias =
    any servers (λ s. text_eq s.name name_or_alias || text_eq s.alias name_or_alias)

-- The answer that a decoded message holds.
unfoldable pub read_answer :
    {N : Type 0} → Option (Inbound N) → Result SessionError (ElicitationAnswer N)
read_answer none = err not_read
read_answer (some inbound) =
    if not (text_eq inbound.action (codes "elicitation_response"))
    then err not_an_answer
    else elim inbound.elicitation_answer [ none ↦ err not_an_answer | some answer ↦ ok answer ]

-- The answer as mcp-go's result.
unfoldable pub response_of :
    {N : Type 0}
    → Result SessionError (ElicitationAnswer N)
    → Result SessionError (ResponseAction × Option (Value N))
unfolding map_elicitation_action
response_of answered = do
  answer ← answered
  action ← map_elicitation_action answer.action
  ok (action, some answer.content)

module _ {N R : Type 0} where
  unfoldable pub new_session : Session N R
  new_session = record { finished = false; broken = false; written = [] }

  -- enc.Encode and the flush: whether Encode succeeds, and the session.
  unfoldable pub encode : Sending → Message N R → Session N R → Bool × Session N R
  encode sending message s = if s.broken then (false, s) else elim sending [
    | delivered ↦ (true, record s { written = s.written ++ (message ∷ []) })
    | unmarshalled ↦ (false, s)
    | unwritten ↦ (false, record s { broken = true })
    | unflushed ↦ (true, record s { broken = true })
  ]

  -- RequestElicitation; `inbound` is what is decoded.
  unfoldable pub request_elicitation :
      Sending
      → Option (Inbound N)
      → ElicitationRequest N
      → Session N R
      → Result SessionError (ElicitationAnswer N) × Session N R
  unfolding read_answer encode
  request_elicitation sending inbound req s =
      let (is_encoded, s') = encode sending (envelope req) s in
      if s.finished
      then (err session_finished, s)
      else if not is_encoded
      then (err not_sent, s')
      else (read_answer inbound, s')

  unfoldable pub mark_finished : Session N R → Session N R
  mark_finished s = record s { finished = true }

  -- Elicit; without a session it declines.
  unfoldable pub elicit :
      Sending
      → Option (Inbound N)
      → Text
      → ElicitationParams N
      → Option (Session N R)
      → Result SessionError (ResponseAction × Option (Value N)) × Option (Session N R)
  unfolding request_elicitation response_of wire_request
  elicit sending inbound server params none = (ok (decline, none), none)
  elicit sending inbound server params (some s) =
      let (answered, s') = request_elicitation sending inbound (wire_request server params) s in
      (response_of answered, some s')

  -- The end of handleConn: the session is finished, and the response is encoded behind it; an error
  -- is dropped.
  unfoldable pub finish : Sending → R → Session N R → Session N R
  unfolding mark_finished encode
  finish sending resp s = (encode sending (response resp) (mark_finished s)).1
