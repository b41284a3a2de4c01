-- ===== src/Manifest/Lines.antt =====
-- The sections of a manifest of internal/manifest/manifest.go.
use mcpshim.Prelude.{
  ℕ, all, ◌==◌, split, append-nil, ◌≡◌, refl, sym, ap, ◌∙◌, Bool, true, false, not, ◌&&◌, List, [],
  ◌∷◌, ◌++◌, map, keep, is_empty, is_one_of, Text, codes, text_eq, has_prefix, Map, lookup, arith,
  inl, inr, Bool-cases,
}
use mcpshim.Config.Types.{McpServer}
use mcpshim.HttpBinding.Listing.{ToolInfo}
use mcpshim.Mcp.Overview.{ServerInfo}
use mcpshim.Manifest.{
  text_of, manifest_text, Snapshot, line_if, heading, endpoint_lines, status_lines, tool_lines,
  tools_lines, listing_lines, render_server, render_servers, render, invocation, or_text, or_zero,
  no_server,
}
use mcpshim.Manifest.Texts.{summarize, optionals, join_backticked, sorted_keys}

unfoldable pub is_heading : Text → Bool
unfolding has_prefix
is_heading line = has_prefix line (codes "## ")

abbrev pub headings : List Text → List Text
headings lines = keep is_heading lines

headings-append : (xs ys : List Text) → headings (xs ++ ys) ≡ headings xs ++ headings ys
headings-append [] ys = refl
headings-append (x ∷ xs) ys = elim (Bool-cases (is_heading x)) [
  | inl h ↦ rw h (ap (λ zs. x ∷ zs) (headings-append xs ys))
  | inr h ↦ rw h (headings-append xs ys)
]

plain-append : (xs ys : List Text) → headings xs ≡ [] → headings ys ≡ [] → headings (xs ++ ys) ≡ []
plain-append xs ys hx hy = headings-append xs ys ∙ rw (hx, hy) refl

plain-line_if : (b : Bool) (line : Text) → is_heading line ≡ false → headings (line_if b line) ≡ []
plain-line_if true line h = rw h refl
plain-line_if false line h = refl

plain-endpoint_lines : (s : ServerInfo) (mcp : McpServer) → headings (endpoint_lines s mcp) ≡ []
unfolding endpoint_lines is_heading has_prefix
plain-endpoint_lines s mcp =
    let env_line =
      line_if (not (is_empty mcp.env))
        (codes "Env keys: " ++ join_backticked (sorted_keys (map (λ (k, v). k) mcp.env))) in
    let env_plain =
      plain-line_if (not (is_empty mcp.env))
        (codes "Env keys: " ++ join_backticked (sorted_keys (map (λ (k, v). k) mcp.env))) refl in
    let auth_line =
      line_if (not (is_empty mcp.headers_helper)) (codes "Auth: dynamic via headers_helper") in
    let auth_plain =
      plain-line_if (not (is_empty mcp.headers_helper)) (codes "Auth: dynamic via headers_helper")
        refl in
    elim (Bool-cases (text_eq s.transport (codes "stdio"))) [
      | inl stdio ↦ elim (Bool-cases (is_empty mcp.command)) [
        | inl h ↦ rw (stdio, h) refl
        | inr h ↦ rw (stdio, h) (plain-append env_line ([] ∷ []) env_plain refl)
      ]
      | inr remote ↦ elim (Bool-cases (is_empty s.url)) [
        | inl h ↦ rw (remote, h) refl
        | inr h ↦ elim (Bool-cases s.has_auth) [
          | inl auth ↦ rw (remote, h, auth) refl
          | inr none_set ↦
              rw (remote, h, none_set) (plain-append auth_line ([] ∷ []) auth_plain refl)
        ]
      ]
    ]

plain-status_lines : (s : ServerInfo) (status : Text) → headings (status_lines s status) ≡ []
unfolding status_lines is_heading has_prefix
plain-status_lines s status = elim (Bool-cases (text_eq status (codes "auth_required"))) [
  | inl h ↦ rw h refl
  | inr h ↦
      rw h
        (elim (Bool-cases (
          is_one_of (codes "failed" ∷ codes "degraded" ∷ []) status
          && not (is_empty s.last_error))) [ inl g ↦ rw g refl | inr g ↦ rw g refl ])
]

plain-tool_lines : (t : ToolInfo) → headings (tool_lines t) ≡ []
unfolding tool_lines is_heading has_prefix
plain-tool_lines t =
    let extras = optionals t.properties t.required in
    let needed = codes "  - required: " ++ join_backticked t.required in
    let left = codes "  - optional: " ++ join_backticked extras in
    let both =
      plain-append (line_if (not (is_empty t.required)) needed)
        (line_if (not (is_empty extras)) left)
        (plain-line_if (not (is_empty t.required)) needed refl)
        (plain-line_if (not (is_empty extras)) left refl) in
    elim (Bool-cases (is_empty (summarize t.description))) [ inl h ↦ rw h both | inr h ↦ rw h both ]

plain-tools_lines : (tools : List ToolInfo) → headings (tools_lines tools) ≡ []
unfolding tools_lines
plain-tools_lines [] = refl
plain-tools_lines (t ∷ tools) =
    plain-append (tool_lines t) (tools_lines tools) (plain-tool_lines t) (plain-tools_lines tools)

plain-listing_lines :
    (name alias status : Text) (tools : List ToolInfo)
    → headings (listing_lines name alias status tools) ≡ []
unfolding listing_lines is_heading has_prefix
plain-listing_lines name alias status [] = elim (Bool-cases (text_eq status (codes "healthy"))) [
  | inl h ↦ rw h refl
  | inr h ↦ rw h refl
]
plain-listing_lines name alias status (t ∷ tools) =
    plain-append (tools_lines (t ∷ tools)) ([] ∷ invocation name alias ∷ [] ∷ [])
      (plain-tools_lines (t ∷ tools)) refl

headings-render_server :
    (s : ServerInfo) (tools : List ToolInfo) (mcp : McpServer)
    → headings (render_server s tools mcp) ≡ heading s ∷ []
unfolding render_server is_heading has_prefix
headings-render_server s tools mcp =
    let status = or_text s.status (codes "unknown") in
    let alias = or_text s.alias s.name in
    let listing = listing_lines s.name alias status tools in
    ap (λ lines. heading s ∷ lines)
      (plain-append (endpoint_lines s mcp ++ status_lines s status) listing
        (plain-append (endpoint_lines s mcp) (status_lines s status) (plain-endpoint_lines s mcp)
          (plain-status_lines s status))
        (plain-listing_lines s.name alias status tools))

headings-render_servers :
    (tools : Map (List ToolInfo)) (config_by : Map McpServer) (servers : List ServerInfo)
    → headings (render_servers tools config_by servers) ≡ map heading servers
unfolding render_servers
headings-render_servers tools config_by [] = refl
headings-render_servers tools config_by (s ∷ servers) =
    let items = or_zero (lookup s.name tools) [] in
    let mcp = or_zero (lookup s.name config_by) no_server in
    headings-append (render_server s items mcp) (render_servers tools config_by servers)
    ∙ ap (λ lines. lines ++ headings (render_servers tools config_by servers))
        (headings-render_server s items mcp)
    ∙ ap (λ lines. heading s ∷ lines) (headings-render_servers tools config_by servers)

is_empty-nil : (servers : List ServerInfo) → is_empty servers ≡ true → servers ≡ []
is_empty-nil [] h = refl
is_empty-nil (s ∷ servers) h = ground (arith, h)

-- Of what is written, the lines that head a section are the one of the quick reference and one for
-- each server, in order.
headings-render :
    (snap : Snapshot)
    → headings (render snap) ≡ codes "## Quick reference" ∷ map heading snap.servers
unfolding render is_heading has_prefix
headings-render snap = elim (Bool-cases (is_empty snap.servers)) [
  | inl h ↦ rw h (
      ap (λ servers. codes "## Quick reference" ∷ map heading servers)
        (sym (is_empty-nil snap.servers h)))
  | inr h ↦ rw h (
      ap (λ lines. codes "## Quick reference" ∷ lines)
        (headings-render_servers snap.tools snap.config_by snap.servers))
]

and_true : (a b : Bool) → (a && b) ≡ true → (a ≡ true) × (b ≡ true)
and_true true b h = (refl, h)
and_true false b h = cc

split_test : (c : ℕ) (b : Bool) → (not (c == 10) && b) ≡ true → ((c == 10) ≡ false) × (b ≡ true)
split_test c b h = (ground arith, ground arith)

-- A text without a newline.
abbrev pub is_line : Text → Bool
is_line line = all line (λ c. not (c == 10))

split-line :
    (line rest : Text) → is_line line ≡ true → split 10 (line ++ 10 ∷ rest) ≡ line ∷ split 10 rest
unfolding split
split-line [] rest h = refl
split-line (c ∷ line) rest h =
    let (other, later) = split_test c (is_line line) h in
    rw (other, split-line line rest later) refl

split-text_of :
    (lines : List Text) → all lines is_line ≡ true → split 10 (text_of lines) ≡ lines ++ ([] ∷ [])
unfolding text_of split
split-text_of [] h = refl
split-text_of (line ∷ lines) h =
    let (first, later) = and_true (is_line line) (all lines is_line) h in
    split-line line (text_of lines) first ∙ ap (λ rest. line ∷ rest) (split-text_of lines later)

-- Where nothing that is written as a line holds a newline itself, the lines of the text of a
-- manifest that head a section are the one of the quick reference and one for each server, in
-- order.
pub headings-manifest_text :
    (snap : Snapshot)
    → all (render snap) is_line ≡ true
    → headings (split 10 (manifest_text snap))
      ≡ codes "## Quick reference" ∷ map heading snap.servers
unfolding manifest_text is_heading has_prefix
headings-manifest_text snap h =
    ap headings (split-text_of (render snap) h)
    ∙ headings-append (render snap) ([] ∷ [])
    ∙ append-nil (headings (render snap))
    ∙ headings-render snap
