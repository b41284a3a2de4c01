-- ===== src/Mcp/Sessions/Wire.antt =====
-- What a connection of internal/server/server.go carries, whatever elicitations a server makes
-- before and after the response.
use mcpshim.Prelude.{
  ◌≡◌, refl, sym, ap, ◌∙◌, Bool, true, false, not, ◌&&◌, ◌||◌, any, Option, List, [], ◌∷◌, ◌++◌,
  append-nil, append_assoc, map, if◌then◌else◌,
}
use mcpshim.Mcp.Sessions.{
  ElicitationRequest, Inbound, Message, envelope, response, Session, new_session, Sending,
  delivered, unmarshalled, unwritten, unflushed, encode, request_elicitation, mark_finished, finish,
}

-- An elicitation: the request, how its envelope is sent, and what is decoded behind it.
pub record Elicitation (N : Type 0) : Type 0 where
  pub request : ElicitationRequest N
  pub sending : Sending
  pub inbound : Option (Inbound N)

-- A write or a flush that fails.
abbrev pub is_failure : Sending → Bool
is_failure delivered = false
is_failure unmarshalled = false
is_failure unwritten = true
is_failure unflushed = true

abbrev pub is_delivered : Sending → Bool
is_delivered delivered = true
is_delivered _ = false

-- The requests whose envelopes are delivered, up to the first write or flush that fails.
unfoldable pub carried : {N : Type 0} → List (Elicitation N) → List (ElicitationRequest N)
carried [] = []
carried (e ∷ es) =
    if is_failure e.sending
    then []
    else if is_delivered e.sending
    then e.request ∷ carried es
    else carried es

unfoldable pub is_cut_off : {N : Type 0} → List (Elicitation N) → Bool
is_cut_off es = any es (λ e. is_failure e.sending)

module _ {N R : Type 0} where
  -- The session after several elicitations.
  unfoldable pub after_elicitations : List (Elicitation N) → Session N R → Session N R
  after_elicitations [] s = s
  after_elicitations (e ∷ es) s =
      after_elicitations es (request_elicitation e.sending e.inbound e.request s).1

  abbrev session_of : Bool → Bool → List (Message N R) → Session N R
  session_of finished broken written = record {
    finished = finished;
    broken = broken;
    written = written;
  }

  -- A step on a session that is open.
  step_open :
      (sending : Sending) (inbound : Option (Inbound N)) (req : ElicitationRequest N)
      (w : List (Message N R))
      → (request_elicitation sending inbound req (session_of false false w)).1
        ≡ session_of false
            (is_failure sending)
            (w ++ (if is_delivered sending then envelope req ∷ [] else []))
  unfolding request_elicitation encode
  step_open delivered inbound req w = refl
  step_open unmarshalled inbound req w = ap (session_of false false) (sym (append-nil w))
  step_open unwritten inbound req w = ap (session_of false true) (sym (append-nil w))
  step_open unflushed inbound req w = ap (session_of false true) (sym (append-nil w))

  broken_writes :
      (es : List (Elicitation N)) (w : List (Message N R))
      → after_elicitations es (session_of false true w) ≡ session_of false true w
  unfolding after_elicitations request_elicitation encode
  broken_writes [] w = refl
  broken_writes (e ∷ es) w = broken_writes es w

  -- What a list of elicitations does to an open session.
  abbrev IsCarried : List (Elicitation N) → List (Message N R) → Type 0
  IsCarried es w =
      after_elicitations es (session_of false false w)
      ≡ session_of false (is_cut_off es) (w ++ map envelope (carried es))

  cons-IsCarried :
      (e : Elicitation N) (es : List (Elicitation N)) (w : List (Message N R))
      → ((v : List (Message N R)) → IsCarried es v)
      → IsCarried (e ∷ es) w
  unfolding after_elicitations carried is_cut_off
  cons-IsCarried e es w later =
      ap (after_elicitations es) (step_open e.sending e.inbound e.request w)
      ∙ rest e.sending e.request es w later
    where
      rest :
          (sending : Sending) (req : ElicitationRequest N) (es : List (Elicitation N))
          (w : List (Message N R))
          → ((v : List (Message N R)) → IsCarried es v)
          → after_elicitations es (
              session_of false
                (is_failure sending)
                (w ++ (if is_delivered sending then envelope req ∷ [] else [])))
            ≡ session_of false (is_failure sending || is_cut_off es) (
                w
                ++ map envelope (
                    if is_failure sending
                    then []
                    else if is_delivered sending
                    then req ∷ carried es
                    else carried es))
      rest delivered req es w later =
          later (w ++ (envelope req ∷ []))
          ∙ ap (session_of false (is_cut_off es))
              (append_assoc w (envelope req ∷ []) (map envelope (carried es)))
      rest unmarshalled req es w later =
          ap (λ v. after_elicitations es (session_of false false v)) (append-nil w) ∙ later w
      rest unwritten req es w later = broken_writes es (w ++ [])
      rest unflushed req es w later = broken_writes es (w ++ [])

  open-IsCarried : (es : List (Elicitation N)) (w : List (Message N R)) → IsCarried es w
  unfolding after_elicitations carried is_cut_off
  open-IsCarried [] w = ap (session_of false false) (sym (append-nil w))
  open-IsCarried (e ∷ es) w = cons-IsCarried e es w (open-IsCarried es)

  finished_writes :
      (es : List (Elicitation N)) (broken : Bool) (w : List (Message N R))
      → after_elicitations es (session_of true broken w) ≡ session_of true broken w
  unfolding after_elicitations request_elicitation
  finished_writes [] broken w = refl
  finished_writes (e ∷ es) broken w = finished_writes es broken w

  step_finish :
      (sending : Sending) (resp : R) (broken : Bool) (w : List (Message N R))
      → finish sending resp (session_of false broken w)
        ≡ session_of true
            (broken || is_failure sending)
            (w ++ (if not broken && is_delivered sending then response resp ∷ [] else []))
  unfolding finish mark_finished encode
  step_finish sending resp true w = ap (session_of true true) (sym (append-nil w))
  step_finish delivered resp false w = refl
  step_finish unmarshalled resp false w = ap (session_of true false) (sym (append-nil w))
  step_finish unwritten resp false w = ap (session_of true true) (sym (append-nil w))
  step_finish unflushed resp false w = ap (session_of true true) (sym (append-nil w))

  -- Whatever elicitations a server makes while its request is handled, and whatever it tries after
  -- that, the connection carries the envelopes that are delivered while the request is handled, in
  -- order and up to the first write or flush that fails; then the response, if nothing failed
  -- before and it is delivered itself; and nothing behind it.
  pub finish-written :
      (before after : List (Elicitation N)) (sending : Sending) (resp : R)
      → (after_elicitations after
          (finish sending resp (after_elicitations before new_session))).written
        ≡ map envelope (carried before)
          ++ (if not (is_cut_off before) && is_delivered sending then response resp ∷ [] else [])
  unfolding new_session
  finish-written before after sending resp =
      let w = map envelope (carried before) in
      let broken = is_cut_off before in
      ap (λ (s : Session N R). (after_elicitations after (finish sending resp s)).written)
        (open-IsCarried before [])
      ∙ ap (λ (s : Session N R). (after_elicitations after s).written)
          (step_finish sending resp broken w)
      ∙ ap (λ (s : Session N R). s.written)
          (finished_writes after (broken || is_failure sending)
            (w ++ (if not broken && is_delivered sending then response resp ∷ [] else [])))
