-- ===== src/Config/Servers/Resolving.antt =====
-- The identifiers of the servers in internal/config/config.go's validate, and findServer.
use mcpshim.Prelude.{
  ◌≡◌, refl, true, false, not, ◌||◌, some, List, [], ◌∷◌, is_empty, Text, text_eq, text_eq_iff,
  text_eq_refl, is_one_of, ok, bind-eq-ok, guard-eq-ok, All, arith, inl, inr, Bool-cases,
}
use mcpshim.Config.Types.{McpServer}
use mcpshim.Config.Expand.{Env}
use mcpshim.Config.Servers.{
  Identifiers, name_required, normalize_transport, check_transport, alias_or_name, is_taken,
  claim_identifiers, validate_server, validate_servers,
}
use mcpshim.Mcp.Registry.{find_server}

-- What the checks of one server show.
abbrev IsClaimed : McpServer → Identifiers → Identifiers → Type 0
IsClaimed s ids ids' =
    (is_empty s.name ≡ false)
    × (is_taken ids s.name ≡ false)
    × ((text_eq (alias_or_name s) s.name || not (is_taken ids (alias_or_name s))) ≡ true)
    × (ids' ≡ record { names = s.name ∷ ids.names; aliases = alias_or_name s ∷ ids.aliases })

claim_identifiers-inv :
    (name alias : Text) (ids ids' : Identifiers)
    → claim_identifiers name alias ids ≡ ok ids'
    → (is_taken ids name ≡ false)
      × ((text_eq alias name || not (is_taken ids alias)) ≡ true)
      × (ids' ≡ record { names = name ∷ ids.names; aliases = alias ∷ ids.aliases })
unfolding claim_identifiers
claim_identifiers-inv name alias ids ids' h = ground arith

validate_server-inv :
    (env : Env) (s : McpServer) (ids ids' : Identifiers)
    → validate_server env s ids ≡ ok ids'
    → IsClaimed s ids ids'
unfolding validate_server
validate_server-inv env s ids ids' h =
    let (named, h') = guard-eq-ok (not (is_empty s.name)) name_required _ h in
    let (transport, _, h'') = bind-eq-ok (normalize_transport s.transport) _ h' in
    let (_, _, claimed) = bind-eq-ok (check_transport env s transport) _ h'' in
    let (free, distinct, after) = claim_identifiers-inv s.name (alias_or_name s) ids ids' claimed in
    (ground arith, free, distinct, after)

free_other :
    (ids : Identifiers) (name other : Text)
    → is_taken ids name ≡ true
    → is_taken ids other ≡ false
    → text_eq name other ≡ false
free_other ids name other h f = elim (Bool-cases (text_eq name other)) [
  | inr e ↦ e
  | inl e ↦ let same = (text_eq_iff name other).0 e in cc
]

taken_after :
    (ids : Identifiers) (name alias x : Text)
    → is_taken (record { names = name ∷ ids.names; aliases = alias ∷ ids.aliases }) x
      ≡ (text_eq x name || text_eq x alias || is_taken ids x)
unfolding is_taken is_one_of
taken_after ids name alias x = ground arith

-- The identifiers of a server are nonempty and are not `name`.
abbrev AvoidsName : Text → McpServer → Type 0
AvoidsName name t =
    (is_empty t.name ≡ false)
    × (text_eq name t.name ≡ false)
    × (text_eq name (alias_or_name t) ≡ false)

alias_other :
    (ids : Identifiers) (name : Text) (t : McpServer)
    → is_taken ids name ≡ true
    → (text_eq (alias_or_name t) t.name || not (is_taken ids (alias_or_name t))) ≡ true
    → text_eq name t.name ≡ false
    → text_eq name (alias_or_name t) ≡ false
alias_other ids name t h d e =
    let alias = alias_or_name t in
    elim (Bool-cases (text_eq alias t.name)) [
      | inl same ↦ rw ((text_eq_iff alias t.name).0 same) e
      | inr differ ↦ free_other ids name alias h (ground arith)
    ]

validate_servers-avoids :
    (env : Env) (servers : List McpServer) (ids ids' : Identifiers) (name : Text)
    → validate_servers env servers ids ≡ ok ids'
    → is_taken ids name ≡ true
    → All (AvoidsName name) servers
unfolding validate_servers
validate_servers-avoids env [] ids ids' name h taken = tt
validate_servers-avoids env (t ∷ servers) ids ids' name h taken =
    let (ids1, one, rest) = bind-eq-ok (validate_server env t ids) _ h in
    let (named, free, distinct, after) = validate_server-inv env t ids ids1 one in
    let other = free_other ids name t.name taken free in
    let more = taken_after ids t.name (alias_or_name t) name in
    (
      (named, other, alias_other ids name t taken distinct other),
      validate_servers-avoids env servers ids1 ids' name rest (rw (after, more) ground arith),
    )

-- The server is found by its name and by its alias.
abbrev pub IsFound : List McpServer → McpServer → Type 0
IsFound servers t =
    (find_server servers t.name ≡ some t) × (find_server servers (alias_or_name t) ≡ some t)

empty_other : (a x : Text) → is_empty a ≡ true → is_empty x ≡ false → text_eq a x ≡ false
unfolding text_eq
empty_other [] [] h f = cc
empty_other [] (c ∷ x) h f = refl
empty_other (b ∷ a) x h f = cc

IsFound-cons :
    (s : McpServer) (servers : List McpServer) (t : McpServer)
    → AvoidsName s.name t
    → AvoidsName (alias_or_name s) t
    → IsFound servers t
    → IsFound (s ∷ servers) t
unfolding find_server
IsFound-cons s servers t a b h = (
  ground (arith, empty_other s.alias t.name),
  ground (arith, empty_other s.alias (alias_or_name t)),
)

All-IsFound-cons :
    (s : McpServer) (servers ts : List McpServer)
    → All (AvoidsName s.name) ts
    → All (AvoidsName (alias_or_name s)) ts
    → All (IsFound servers) ts
    → All (IsFound (s ∷ servers)) ts
unfolding find_server
All-IsFound-cons s servers [] a b h = tt
All-IsFound-cons s servers (t ∷ ts) a b h =
    (IsFound-cons s servers t a.0 b.0 h.0, All-IsFound-cons s servers ts a.1 b.1 h.1)

IsFound-head : (s : McpServer) (servers : List McpServer) → IsFound (s ∷ servers) s
unfolding find_server
IsFound-head s servers =
    (ground (arith, text_eq_refl s.name), ground (arith, text_eq_refl s.name, text_eq_refl s.alias))

-- Every server of a list that passes the checks of validate is the one that a lookup by its name
-- finds, and by its alias, or its name again where it has no alias.
pub validate_servers-IsFound :
    (env : Env) (servers : List McpServer) (ids ids' : Identifiers)
    → validate_servers env servers ids ≡ ok ids'
    → All (IsFound servers) servers
unfolding validate_servers
validate_servers-IsFound env [] ids ids' h = tt
validate_servers-IsFound env (s ∷ servers) ids ids' h =
    let (ids1, one, rest) = bind-eq-ok (validate_server env s ids) _ h in
    let (named, free, distinct, after) = validate_server-inv env s ids ids1 one in
    let taken = λ (x : Text). taken_after ids s.name (alias_or_name s) x in
    let by_name =
      validate_servers-avoids env servers ids1 ids' s.name rest
        (rw (after, taken s.name, text_eq_refl s.name) refl) in
    let by_alias =
      validate_servers-avoids env servers ids1 ids' (alias_or_name s) rest
        (rw (after, taken (alias_or_name s), text_eq_refl (alias_or_name s)) ground arith) in
    (
      IsFound-head s servers,
      All-IsFound-cons s servers servers by_name by_alias
          (validate_servers-IsFound env servers ids1 ids' rest),
    )
