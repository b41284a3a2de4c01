-- ===== src/Mcp/Login/Matching.antt =====
-- Which code completeOAuthFlow of internal/mcp/oauth.go exchanges.
use mcpshim.Prelude.{
  ◌≡◌, refl, ◌⊎◌, sym, ap, subst, ◌∙◌, Bool, true, false, not, ◌&&◌, ◌||◌, Option, none, some, [],
  ◌∷◌, if◌then◌else◌, is_empty, Text, codes, text_eq, Map, Result, ok, err, All, arith, inl, inr,
  Bool-cases, Option-cases, Result-cases, bind-eq-ok, guard, trim_space, lookup,
}
use mcpshim.Web.{ParsedUrl}
use mcpshim.Mcp.Resources.{Urls, Metadata, Resolver, resolve, with_resource_param}
use mcpshim.Mcp.Login.{
  FlowError, Event, opened, exchanged, Answers, param, contains, read_manual_input, take_code,
  refused, no_code, state_mismatch, answered_code, prepared_flow, complete_flow, or_fail,
  not_generated, not_registered, no_url, direct_operation, listened, client_operation, saved_client,
}

-- The parameters of the line that the user typed: those of the query where it is a URL, and
-- otherwise the line is the code.
abbrev pub IsTyped : Urls → (Text → Map Text) → Text → Map Text → Type 0
IsTyped urls query input params =
    ((contains input (codes "://") ≡ true)
      × ((url : ParsedUrl) × (urls.parse input ≡ some url) × (params ≡ query url.raw_query)))
    ⊎ ((contains input (codes "://") ≡ false) × (params ≡ (codes "code", input) ∷ []))

-- The parameters that the callback received or, in the manual mode, those that the user typed.
abbrev pub IsReceived : Urls → (Text → Map Text) → Bool → Answers → Map Text → Type 0
IsReceived urls query false answers params = answers.callback ≡ some params
IsReceived urls query true answers params =
    (raw : Text) × (answers.line ≡ some raw) × IsTyped urls query (trim_space raw) params

-- Parameters with a code, and with a state that is the one of the flow or, where `may_lack`,
-- absent.
abbrev pub IsAnswer : Bool → Text → Text → Map Text → Type 0
IsAnswer may_lack state code params =
    (param (codes "code") params ≡ code)
    × (is_empty code ≡ false)
    × ((text_eq (param (codes "state") params) state
          || (may_lack && is_empty (param (codes "state") params)))
        ≡ true)

abbrev has_state : Text → Map Text → Bool
has_state state params =
    text_eq (param (codes "state") params) state || is_empty (param (codes "state") params)

ok_injective : {A : Type 0} (a b : A) → ◌≡◌ {A = Result FlowError A} (ok a) (ok b) → a ≡ b
ok_injective a b h = cc

chosen_code :
    (c e code : Text)
    → (if not (is_empty c) then ok c else if not (is_empty e) then err refused else err no_code)
      ≡ ok code
    → (c ≡ code) × (is_empty code ≡ false)
chosen_code [] [] code h = cc
chosen_code [] (x ∷ e) code h = cc
chosen_code (x ∷ c) e code h =
    let same = ok_injective (x ∷ c) code h in (same, sym (ap is_empty same))

take_code-inv :
    (params : Map Text) (code : Text)
    → take_code params ≡ ok code
    → (param (codes "code") params ≡ code) × (is_empty code ≡ false)
unfolding take_code
take_code-inv params code h =
    chosen_code (param (codes "code") params) (param (codes "error") params) code h

bare_params : (state input : Text) → has_state state ((codes "code", input) ∷ []) ≡ true
unfolding param lookup text_eq
bare_params state input = ground arith

or_fail-eq-ok :
    {A : Type 0} (o : Option A) (e : FlowError) (a : A) → or_fail o e ≡ ok a → o ≡ some a
or_fail-eq-ok none e a h = cc
or_fail-eq-ok (some b) e a h = cc

module _ (urls : Urls) (query : Text → Map Text) where
  checked_params :
      (params found : Map Text) (state : Text)
      → (if not (is_empty (param (codes "state") found))
            && not (text_eq (param (codes "state") found) state)
          then err state_mismatch
          else ok found)
        ≡ ok params
      → (params ≡ found) × (has_state state params ≡ true)
  checked_params params found state = elim (Bool-cases (is_empty (param (codes "state") found))) [
    | inl absent ↦ rw absent (λ h.
        let same = ok_injective found params h in
        (sym same, subst (λ p. has_state state p ≡ true) same (ground (arith, absent))))
    | inr present ↦ elim (Bool-cases (text_eq (param (codes "state") found) state)) [
      | inr other ↦ rw (present, other) (λ h. cc)
      | inl equal ↦
          rw (present, equal)
            (λ h.
              let same = ok_injective found params h in
              (sym same, subst (λ p. has_state state p ≡ true) same (ground (arith, equal))))
    ]
  ]

  -- What is read of a line, and the state that comes with it.
  abbrev IsRead : Option Text → Text → Map Text → Type 0
  IsRead line state params =
      ((raw : Text) × (line ≡ some raw) × IsTyped urls query (trim_space raw) params)
      × (has_state state params ≡ true)

  read_manual_input-IsRead :
      (line : Option Text) (state : Text) (params : Map Text)
      → read_manual_input urls query line state ≡ ok params
      → IsRead line state params
  unfolding read_manual_input
  read_manual_input-IsRead none state params = λ h. cc
  read_manual_input-IsRead (some raw) state params = elim (Bool-cases (is_empty (trim_space raw))) [
    | inl empty ↦ rw empty (λ h. cc)
    | inr given ↦ elim (Bool-cases (contains (trim_space raw) (codes "://"))) [
      | inr bare ↦
          rw (given, bare)
            (λ h.
              let same = ok_injective ((codes "code", trim_space raw) ∷ []) params h in
              (
                (raw, refl, inr (bare, sym same)),
                subst (λ p. has_state state p ≡ true) same (bare_params state (trim_space raw)),
              ))
      | inl linked ↦ elim (Option-cases (urls.parse (trim_space raw))) [
        | inl bad ↦ rw (given, linked, bad) (λ h. cc)
        | inr (url, parsed) ↦
            rw (given, linked, parsed)
              (λ h.
                let (same, stated) = checked_params params (query url.raw_query) state h in
                ((raw, refl, inl (linked, (url, parsed, same))), stated))
      ]
    ]
  ]

  -- What a code comes with: parameters that were received and hold it with the state.
  abbrev pub IsAnswered : Bool → Answers → Text → Text → Type 0
  IsAnswered manual answers state code =
      (params : Map Text) × IsReceived urls query manual answers params
      × IsAnswer manual state code params

  answered_code-IsAnswered :
      (manual has_callback : Bool) (answers : Answers) (state code : Text)
      → answered_code urls query manual has_callback answers state ≡ ok code
      → IsAnswered manual answers state code
  unfolding answered_code
  answered_code-IsAnswered true has_callback answers state code = λ h.
      let (params, read, taken) =
        bind-eq-ok (read_manual_input urls query answers.line state) take_code h in
      let (found, given) = take_code-inv params code taken in
      let (typed, stated) = read_manual_input-IsRead answers.line state params read in
      (params, typed, (found, given, stated))
  answered_code-IsAnswered false false answers state code = λ h. cc
  answered_code-IsAnswered false true answers state code = elim (Option-cases answers.callback) [
    | inl lost ↦ rw lost (λ h. cc)
    | inr (params, given) ↦ elim (Bool-cases (text_eq (param (codes "state") params) state)) [
      | inr other ↦ rw (given, other) (λ h. cc)
      | inl same ↦
          rw (given, same)
            (λ h.
              let (found, present) = take_code-inv params code h in
              (params, refl, (found, present, ground (arith, same))))
    ]
  ]

  prepared_flow-inv :
      (metadata : Metadata) (answers : Answers) (r : Resolver) (state verifier url : Text)
      → prepared_flow urls metadata answers r ≡ ok (state, verifier, url)
      → (answers.state ≡ some state) × (answers.verifier ≡ some verifier)
  unfolding prepared_flow
  prepared_flow-inv metadata answers r state verifier url h =
      let (v, made, h1) = bind-eq-ok (or_fail answers.verifier not_generated) _ h in
      let (st, stated, h2) = bind-eq-ok (or_fail answers.state not_generated) _ h1 in
      let (_, _, h3) =
        bind-eq-ok
          (guard (not (is_empty answers.client_id) || answers.is_registered) not_registered) _ h2 in
      let (auth_url, _, h4) = bind-eq-ok (or_fail answers.authorization_url no_url) _ h3 in
      let (opened_url, _, h5) =
        bind-eq-ok (or_fail (with_resource_param urls auth_url (resolve urls metadata r).0) no_url)
          _ h4 in
      let same = ok_injective (st, v, opened_url) (state, verifier, url) h5 in
      (
        or_fail-eq-ok answers.state not_generated st stated ∙ ap (λ found. some found.0) same,
        or_fail-eq-ok answers.verifier not_generated v made ∙ ap (λ found. some found.1) same,
      )

  -- What an exchange in a flow with these answers satisfies.
  abbrev pub IsMatching : Bool → Answers → Event → Type 0
  IsMatching manual answers (exchanged code state verifier) =
      (answers.state ≡ some state)
      × (answers.verifier ≡ some verifier)
      × IsAnswered manual answers state code
  IsMatching manual answers direct_operation = Unit {0}
  IsMatching manual answers listened = Unit {0}
  IsMatching manual answers client_operation = Unit {0}
  IsMatching manual answers (opened url) = Unit {0}
  IsMatching manual answers saved_client = Unit {0}

  -- A flow exchanges a code only together with the state and the verifier that it generated, and
  -- only a code that its callback received with this state or, in the manual mode, one that the
  -- user typed; a URL that the user typed may lack a state, but not have another one.
  pub complete_flow-IsMatching :
      (metadata : Metadata) (manual has_callback : Bool) (answers : Answers) (r : Resolver)
      → All
          (IsMatching manual answers)
          (complete_flow urls query metadata manual has_callback answers r).0
  unfolding complete_flow
  complete_flow-IsMatching metadata manual has_callback answers r =
      elim (Result-cases (prepared_flow urls metadata answers r)) [
        | inl (e, h) ↦ rw (h, All) tt
        | inr ((state, verifier, url), prepared) ↦
            elim (Result-cases (answered_code urls query manual has_callback answers state)) [
              | inl (e, h) ↦ rw (prepared, h, All) (tt, tt)
              | inr (code, answered) ↦
                  let (stated, made) =
                    prepared_flow-inv metadata answers r state verifier url prepared in
                  let answer =
                    answered_code-IsAnswered manual has_callback answers state code answered in
                  rw (prepared, answered, All) (tt, ((stated, made, answer), tt))
            ]
      ]
