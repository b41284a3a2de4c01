-- ===== src/Client/Aliases.antt =====
-- The names and the scripts of internal/client/client.go that stand for one server each. A byte
-- that is not ASCII is part of a rune that becomes an underscore, as the other runes that no name
-- holds; a run of them becomes one.
pub mod Quoting
pub mod Naming
use mcpshim.Prelude.{
  ℕ, zero, suc, ◌+◌, ◌-◌, ◌/◌, ◌%◌, Bool, true, false, not, ◌&&◌, ◌||◌, Option, none, some, List,
  [], ◌∷◌, ◌++◌, leb, ltb, ◌==◌, if◌then◌else◌, is_empty, Text, codes, trim_space, trim_both, Map,
  lookup, insert,
}

-- What buildAliasTargets reads of a protocol.ServerInfo.
pub record ServerNames : Type 0 where
  pub name : Text
  pub alias : Text

-- aliasTarget
pub record AliasTarget : Type 0 where
  pub server_name : Text
  pub source : Text
  pub sanitized : Text

abbrev pub is_digit : ℕ → Bool
is_digit c = leb b'0' c && leb c b'9'

-- A rune that sanitizeAliasName keeps.
abbrev pub is_name_byte : ℕ → Bool
is_name_byte c = (leb b'a' c && leb c b'z') || (leb b'A' c && leb c b'Z') || is_digit c || c == b'_'

abbrev pub is_underscore : ℕ → Bool
is_underscore c = c == b'_'

-- The loop of sanitizeAliasName, with lastUnderscore.
unfoldable pub replace_runes : Text → Bool → Text
replace_runes [] last_underscore = []
replace_runes (c ∷ s) last_underscore =
    let rest = replace_runes s (not (is_name_byte c)) in
    if is_name_byte c then c ∷ rest else if last_underscore then rest else b'_' ∷ rest

-- A name that starts with a digit gets a prefix.
unfoldable pub prefix_digit : Text → Text
prefix_digit [] = []
prefix_digit (c ∷ s) = if is_digit c then codes "s_" ++ c ∷ s else c ∷ s

unfoldable pub sanitize_alias_name : Text → Text
unfolding replace_runes prefix_digit trim_space trim_both
sanitize_alias_name name =
    prefix_digit (trim_both is_underscore (replace_runes (trim_space name) false))

-- The decimal digits of a number, on fuel; the number itself is enough.
unfoldable pub decimal_within : ℕ → ℕ → Text
decimal_within zero n = []
decimal_within (suc fuel) n =
    let higher = decimal_within fuel (n / 10) in
    if ltb n 10 then (b'0' + n) ∷ [] else higher ++ ((b'0' + n % 10) ∷ [])

unfoldable pub decimal : ℕ → Text
unfolding decimal_within
decimal n = decimal_within (suc n) n

abbrev pub used_times : Text → Map ℕ → ℕ
used_times base used = elim (lookup base used) [ none ↦ 0 | some k ↦ k ]

-- fmt.Sprintf("%s_%d", base, count), from the second use on
unfoldable pub numbered : Text → ℕ → Text
unfolding decimal
numbered base count = if ltb 1 count then base ++ codes "_" ++ decimal count else base

abbrev pub source_name : ServerNames → Text
source_name item = if is_empty item.alias then item.name else item.alias

-- The loop of buildAliasTargets.
unfoldable pub alias_targets : List ServerNames → Map ℕ → List AliasTarget
unfolding sanitize_alias_name numbered lookup insert
alias_targets [] used = []
alias_targets (item ∷ items) used =
    let base = sanitize_alias_name (source_name item) in
    let count = used_times base used + 1 in
    let is_skipped = is_empty (source_name item) || is_empty base in
    let rest = alias_targets items (if is_skipped then used else insert base count used) in
    if is_skipped
    then rest
    else record {
      server_name = item.name;
      source = source_name item;
      sanitized = numbered base count;
    }
      ∷ rest

unfoldable pub build_alias_targets : List ServerNames → List AliasTarget
unfolding alias_targets
build_alias_targets items = alias_targets items []

-- strings.ReplaceAll(s, "'", "'\\''")
unfoldable pub escape_quotes : Text → Text
escape_quotes [] = []
escape_quotes (c ∷ s) =
    let rest = escape_quotes s in
    if c == b'\'' then b'\'' ∷ b'\\' ∷ b'\'' ∷ b'\'' ∷ rest else c ∷ rest

unfoldable pub shell_quote : Text → Text
unfolding escape_quotes
shell_quote [] = codes "''"
shell_quote s = b'\'' ∷ (escape_quotes s ++ codes "'")

-- The script that installAliasScripts writes for a target.
unfoldable pub alias_script : AliasTarget → Text
unfolding shell_quote
alias_script target =
    codes "#!/usr/bin/env bash\nset -euo pipefail\nif [ $# -lt 1 ]; then\n  mcpshim tools --server "
    ++ shell_quote target.server_name
    ++ codes "\n  exit 1\nfi\ntool=$1\nshift\nexec mcpshim call --server "
    ++ shell_quote target.server_name
    ++ codes " --tool \"$tool\" \"$@\"\n"

-- The files of installAliasScripts, by their names in the directory: a later one replaces an
-- earlier one of its name.
unfoldable pub write_scripts : List AliasTarget → Map Text → Map Text
unfolding alias_script
write_scripts [] files = files
write_scripts (target ∷ targets) files = write_scripts targets (
    if is_empty target.sanitized
    then files
    else insert target.sanitized (alias_script target) files)

unfoldable pub install_alias_scripts : List ServerNames → Map Text → Map Text
unfolding build_alias_targets write_scripts
install_alias_scripts items files = write_scripts (build_alias_targets items) files
