-- ===== src/Examples/Responses.antt =====
-- Responses that a policy allows and does not allow.
use mcpshim.Prelude.{
  ltb, ℕ, ◌≤◌, ◌≡◌, refl, true, false, ◌||◌, Option, none, some, [], ◌∷◌, length, is_empty, take,
  Text, codes, pos, has_suffix, text_eq, to_lower, trim_space,
}
use mcpshim.Value.{Value, natural}
use mcpshim.Config.Types.{HttpPolicy}
use mcpshim.HttpBinding.Responses.{
  max_int64, Response, CallResult, raw_text, respond, payload, successful_status, filtered_headers,
  read_body,
}
use mcpshim.HttpBinding.Requests.{
  content_type_allowed, effective_policy, is_json_content_type, normalized_content_type,
}
use mcpshim.HttpBinding.Responses.Withheld.{allows_response, response_limit, respond-whole}
use mcpshim.Examples.Requests.{plain_web, free_policy}

abbrev text_response : Response
text_response = record { status = pos 200; header = λ name. codes "text/plain"; body = codes "hi" }

abbrev json_only : HttpPolicy
json_only = record free_policy { allowed_response_content_types = codes "application/json" ∷ [] }

abbrev not_parsed : Text → Option (Value ℕ)
not_parsed = λ bytes. none

abbrev text_result : CallResult ℕ
text_result = record {
  status = pos 200;
  content_type = codes "text/plain";
  headers = [];
  body = some (raw_text (codes "hi"));
  truncated = false;
}

text_refused : allows_response natural plain_web json_only text_response ≡ false
unfolding content_type_allowed text_eq normalized_content_type trim_space to_lower has_suffix
text_refused = refl

text_read : is_empty (take (response_limit json_only) text_response.body) ≡ false
unfolding effective_policy
text_read = refl

json_limit_small : ltb (response_limit json_only) max_int64 ≡ true
unfolding effective_policy
json_limit_small = refl

limit_small : ltb (response_limit free_policy) max_int64 ≡ true
unfolding effective_policy
limit_small = refl

text_run : respond natural plain_web not_parsed free_policy text_response ≡ (text_result, none)
unfolding respond read_body effective_policy content_type_allowed successful_status
    normalized_content_type filtered_headers payload trim_space is_json_content_type to_lower
    text_eq has_suffix
text_run = refl

respond_whole_example :
    (length text_response.body ≤ response_limit free_policy)
    × (successful_status text_result.status free_policy.success_statuses ≡ true)
    × ((is_empty text_response.body || allows_response natural plain_web free_policy text_response)
        ≡ true)
    × (text_result.status ≡ text_response.status)
    × (text_result.body
        ≡ payload natural plain_web not_parsed text_result.content_type text_response.body)
respond_whole_example =
    respond-whole natural plain_web not_parsed free_policy text_response text_result limit_small
      text_run
