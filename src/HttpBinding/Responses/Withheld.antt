-- ===== src/HttpBinding/Responses/Withheld.antt =====
-- The part of execute behind client.Do, by what the policy allows.
use mcpshim.Prelude.{
  ℕ, zero, suc, ◌≤◌, ◌≡◌, refl, ap, Bool, true, false, ◌||◌, Option, none, [], ◌∷◌, ltb, length,
  is_empty, take, Text, codes, pos_part, arith, inl, inr, Bool-cases,
}
use mcpshim.Value.{Value, Numbers}
use mcpshim.Config.Types.{HttpPolicy}
use mcpshim.HttpBinding.Requests.{
  Web, effective_policy, normalized_content_type, content_type_allowed,
}
use mcpshim.HttpBinding.Responses.{
  max_int64, Response, CallResult, read_body, successful_status, payload, respond,
}

take_within : (k : ℕ) (body : Text) → length body ≤ k → take k body ≡ body
take_within zero [] h = refl
take_within zero (c ∷ body) h = absurd (omega arith)
take_within (suc k) [] h = refl
take_within (suc k) (c ∷ body) h = ap (◌∷◌ c) (take_within k body (omega arith))

read_more : (k : ℕ) (body : Text) → ltb k (length (take (suc k) body)) ≡ ltb k (length body)
read_more zero [] = ground arith
read_more zero (c ∷ body) = ground arith
read_more (suc k) [] = ground arith
read_more (suc k) (c ∷ body) = ground (arith, read_more k body)

take_shorter : (k : ℕ) (body : Text) → take k (take (suc k) body) ≡ take k body
take_shorter zero body = refl
take_shorter (suc k) [] = refl
take_shorter (suc k) (c ∷ body) = ap (◌∷◌ c) (take_shorter k body)

take_same :
    (k : ℕ) (body : Text)
    → ltb k (length (take (suc k) body)) ≡ false
    → take (suc k) body ≡ take k body
take_same zero [] h = refl
take_same zero (c ∷ body) h = absurd (ground arith)
take_same (suc k) [] h = refl
take_same (suc k) (c ∷ body) h = ap (◌∷◌ c) (take_same k body (ground arith))

-- Below the largest limit of 64 bits, the bytes that are read are the first of the body, up to the
-- limit, and it is noted whether there are more.
pub read_body-take :
    (limit : ℕ) (body : Text)
    → ltb limit max_int64 ≡ true
    → ((read_body limit body).0 ≡ take limit body)
      × ((read_body limit body).1 ≡ ltb limit (length body))
unfolding read_body
read_body-take limit body small = (
  elim (Bool-cases (ltb limit (length (take (suc limit) body)))) [
    | inl more ↦ rw (small, read_body, more) (take_shorter limit body)
    | inr fits ↦ rw (small, read_body, fits) (take_same limit body fits)
  ],
  rw (small, read_body, read_more limit body) refl,
)

-- The limit of a response body.
abbrev pub response_limit : HttpPolicy → ℕ
response_limit policy = pos_part (effective_policy policy).max_response_bytes

module _ (n : Numbers) (web : Web n.Num) where
  -- The content type of the response, and whether the policy allows it.
  abbrev pub allows_response : HttpPolicy → Response → Bool
  allows_response policy response =
      content_type_allowed n web
        (normalized_content_type n web (response.header (codes "Content-Type")))
        policy.allowed_response_content_types

  -- Where the limit is below the largest of 64 bits, a call that does not fail has the status of
  -- the response, which the policy counts as a success; its body is made of the whole body of the
  -- response, which is within the limit and empty or of a type that the policy allows.
  pub respond-whole :
      (unmarshal : Text → Option (Value n.Num)) (policy : HttpPolicy) (response : Response)
      (result : CallResult n.Num)
      → ltb (response_limit policy) max_int64 ≡ true
      → respond n web unmarshal policy response ≡ (result, none)
      → (length response.body ≤ response_limit policy)
        × (successful_status result.status policy.success_statuses ≡ true)
        × ((is_empty response.body || allows_response policy response) ≡ true)
        × (result.status ≡ response.status)
        × (result.body ≡ payload n web unmarshal result.content_type response.body)
  unfolding respond effective_policy
  respond-whole unmarshal policy response result small h =
      let (bytes, more) = read_body-take (response_limit policy) response.body small in
      let same = take_within (response_limit policy) response.body in
      (
        ground (arith, bytes, more),
        ground (arith, bytes, more),
        ground (arith, bytes, more, same),
        ground (arith, bytes, more),
        ground (arith, bytes, more, same),
      )
