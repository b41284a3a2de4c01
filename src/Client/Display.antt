-- ===== src/Client/Display.antt =====
-- What internal/client/client.go makes of texts and results before it prints them.
use mcpshim.Prelude.{
  ℕ, ◌-◌, Bool, true, false, not, ◌&&◌, ◌||◌, Option, none, some, List, [], ◌∷◌, ◌++◌, map, keep,
  leb, ltb, ◌==◌, if◌then◌else◌, is_empty, length, take, any, Text, codes, text_eq, is_one_of,
  has_prefix, to_lower, trim_space, trim_left, split, join,
}
use mathlib.Core.List.{reverse}
use mcpshim.Value.{Value, str, arr, obj, Items, nil, cons, Fields, end, field}
use mcpshim.Mcp.State.{Status, unknown, healthy, degraded, failed, auth_required}

-- strings.ReplaceAll(s, "\r\n", "\n")
unfoldable pub unix_lines : Text → Text
unix_lines [] = []
unix_lines (c ∷ []) = c ∷ []
unix_lines (c ∷ d ∷ s) =
    let rest = unix_lines (d ∷ s) in if c == 13 && d == 10 then rest else c ∷ rest

-- The loop of normalizeMultiline; `blank` says that the line before was blank.
unfoldable pub squeeze_lines : Bool → List Text → List Text
squeeze_lines blank [] = []
squeeze_lines blank (line ∷ lines) =
    let trimmed = trim_space line in
    let rest = squeeze_lines (is_empty trimmed) lines in
    if is_empty trimmed && blank then rest else trimmed ∷ rest

-- The loop that drops blank lines at one end.
unfoldable pub drop_blank : List Text → List Text
drop_blank [] = []
drop_blank (line ∷ lines) =
    let rest = drop_blank lines in if is_empty line then rest else line ∷ lines

-- The lines of normalizeMultiline.
unfoldable pub tidy_lines : Text → List Text
unfolding unix_lines squeeze_lines drop_blank
tidy_lines input =
    reverse (drop_blank (reverse (drop_blank (squeeze_lines false (split 10 (unix_lines input))))))

unfoldable pub normalize_multiline : Text → Text
unfolding tidy_lines
normalize_multiline input = if is_empty input then [] else join 10 (tidy_lines input)

unfoldable pub split_non_empty_lines : Text → List Text
unfolding normalize_multiline
split_non_empty_lines text =
    keep (λ line. not (is_empty line)) (map trim_space (split 10 (normalize_multiline text)))

-- A line that summarizeDescription passes over.
unfoldable pub is_passed_over : Text → Bool
is_passed_over line =
    is_empty line
    || has_prefix line (codes "<example")
    || has_prefix line (codes "</example")
    || has_prefix line (codes "{")
    || has_prefix line (codes "[")

-- The loop of summarizeDescription.
unfoldable pub first_line : List Text → Text
unfolding is_passed_over
first_line [] = []
first_line (line ∷ lines) =
    let candidate = trim_space line in
    let title = trim_space (trim_left (λ c. c == b'#') candidate) in
    let rest = first_line lines in
    if is_passed_over candidate || is_empty title then rest else title

-- The text up to the first ". ", with the dot.
unfoldable pub up_to_sentence : Text → Option Text
up_to_sentence [] = none
up_to_sentence (c ∷ []) = none
up_to_sentence (c ∷ d ∷ s) =
    let rest = up_to_sentence (d ∷ s) in
    if c == b'.' && d == b' '
    then some (c ∷ [])
    else elim rest [ none ↦ none | some sentence ↦ some (c ∷ sentence) ]

-- The test `idx > 0`: a text that starts with ". " is kept.
unfoldable pub first_sentence : Text → Text
unfolding up_to_sentence
first_sentence line = elim (up_to_sentence line) [
  | none ↦ line
  | some sentence ↦ if ltb 1 (length sentence) then sentence else line
]

unfoldable pub summarize_description : Text → Text
unfolding normalize_multiline first_line first_sentence
summarize_description input =
    let line = first_sentence (first_line (split 10 (normalize_multiline input))) in
    if ltb 100 (length line) then take 97 line ++ codes "..." else line

unfoldable pub spaced : Text → Text
spaced s = map (λ c. if c == 10 then b' ' else c) s

-- truncateForDisplay; the ellipsis is three bytes.
unfoldable pub truncate_for_display : Text → ℕ → Text
unfolding spaced
truncate_for_display s max =
    let flat = spaced s in
    if leb (length flat) max then flat else take (max - 1) flat ++ (226 ∷ 128 ∷ 166 ∷ [])

-- serverStatusBadge, by the status that the text names
abbrev pub server_status_badge : Status → Text
server_status_badge healthy = codes "[ok]    "
server_status_badge degraded = codes "[degr]  "
server_status_badge failed = codes "[fail]  "
server_status_badge auth_required = codes "[auth]  "
server_status_badge unknown = codes "[?]     "

-- The loop of printToolsList that finds out whether the tools are of one server.
unfoldable pub is_single_server : List Text → Bool
is_single_server [] = true
is_single_server (first ∷ servers) = not (any servers (λ s. not (text_eq s first)))

-- The actions of an ElicitationAnswer.
pub data ElicitationAction : Type 0 where
  accept decline cancel : ElicitationAction

module _ {N : Type 0} (unmarshal : Text → Option (Value N)) where
  -- tryParseJSONValue; `unmarshal` is json.Unmarshal
  unfoldable pub try_parse_json_value : Text → Option (Value N)
  try_parse_json_value text =
      let trimmed = trim_space text in
      if has_prefix trimmed (codes "{") || has_prefix trimmed (codes "[")
      then unmarshal trimmed
      else none

  -- The text of a field "text" that holds JSON.
  unfoldable pub parsed_text : Text → Value N → Option (Value N)
  unfolding try_parse_json_value
  parsed_text key (str text) =
      if text_eq key (codes "text") then try_parse_json_value text else none
  parsed_text key _ = none

  unfoldable mutual
    unfolding parsed_text

    -- walkAndParseJSONText, on a value, the entries of a map and the elements of a slice
    pub parse_json_text : Value N → Value N
    parse_json_text (obj fs) = obj (parse_json_fields fs)
    parse_json_text (arr xs) = arr (parse_json_items xs)
    parse_json_text v = v

    pub parse_json_fields : Fields N → Fields N
    parse_json_fields end = end
    parse_json_fields (field key item fs) =
        let next = parse_json_text item in
        let rest = parse_json_fields fs in
        field key (elim (parsed_text key item) [ some parsed ↦ parsed | none ↦ next ]) rest

    pub parse_json_items : Items N → Items N
    parse_json_items nil = nil
    parse_json_items (cons item xs) = cons (parse_json_text item) (parse_json_items xs)

  -- promptElicitation: the answer to a line, in the mode "url" and in the others. A process that is
  -- not at a terminal declines.
  abbrev pub Answered : Type 0
  Answered = ElicitationAction × Option (Value N)

  unfoldable pub answer_url : Text → Answered
  answer_url line =
      let choice = to_lower (trim_space line) in
      if is_one_of (codes "y" ∷ codes "yes" ∷ []) choice
      then (accept, none)
      else if is_one_of (codes "c" ∷ codes "cancel" ∷ []) choice
      then (cancel, none)
      else (decline, none)

  unfoldable pub answer_form : Text → Answered
  answer_form line =
      let choice = to_lower (trim_space line) in
      if is_one_of (codes "decline" ∷ [] ∷ []) choice
      then (decline, none)
      else if text_eq choice (codes "cancel")
      then (cancel, none)
      else elim (unmarshal (trim_space line)) [
        | none ↦ (decline, none)
        | some content ↦ (accept, some content)
      ]

  unfoldable pub prompt_elicitation : Bool → Text → Text → Answered
  unfolding answer_url answer_form
  prompt_elicitation is_terminal mode line =
      if not is_terminal
      then (decline, none)
      else if text_eq mode (codes "url")
      then answer_url line
      else answer_form line
