-- ===== src/Client/Aliases/Naming.antt =====
-- The names that sanitizeAliasName and buildAliasTargets of internal/client/client.go give.
use mcpshim.Prelude.{
  all-append, all-trim_both, ℕ, zero, suc, ◌+◌, ◌/◌, ◌%◌, ◌≡◌, refl, sym, subst, ◌∙◌, Bool, true,
  false, not, ◌&&◌, ◌||◌, List, [], ◌∷◌, ◌++◌, ltb, all, is_empty, Text, codes, trim_both,
  trim_space, All, Map, insert, arith, inl, inr, Bool-cases,
}
use mcpshim.Client.Aliases.{
  ServerNames, AliasTarget, is_digit, is_name_byte, is_underscore, replace_runes, prefix_digit,
  sanitize_alias_name, decimal_within, decimal, used_times, numbered, source_name, alias_targets,
  build_alias_targets,
}

-- A name of a function of a shell, and of a file in a directory: letters, digits and underscores,
-- at least one, and no digit first.
abbrev pub is_alias_name : Text → Bool
is_alias_name [] = false
is_alias_name (c ∷ s) = not (is_digit c) && is_name_byte c && all s is_name_byte

all-replace_runes : (s : Text) (last : Bool) → all (replace_runes s last) is_name_byte ≡ true
unfolding replace_runes
all-replace_runes [] last = refl
all-replace_runes (c ∷ s) last = elim (Bool-cases (is_name_byte c)) [
  | inl kept ↦ rw kept (rw kept (all-replace_runes s false))
  | inr replaced ↦ rw replaced ground (arith, all-replace_runes s true)
]

abbrev IsNamedText : Text → Type 0
IsNamedText s = (is_empty s || is_alias_name s) ≡ true

digit_named : (d : ℕ) → ltb d 10 ≡ true → is_name_byte (b'0' + d) ≡ true
digit_named d h = ground arith

last_digit : (n : ℕ) → ltb (n % 10) 10 ≡ true
last_digit n = ground arith

first_named :
    (digit named others : Bool)
    → (named && others) ≡ true
    → digit ≡ false
    → (not digit && named && others) ≡ true
first_named digit named others h other = ground arith

prefix_digit-digit :
    (c : ℕ) (s : Text) → is_digit c ≡ true → prefix_digit (c ∷ s) ≡ codes "s_" ++ c ∷ s
unfolding prefix_digit
prefix_digit-digit c s digit = rw digit refl

prefix_digit-other : (c : ℕ) (s : Text) → is_digit c ≡ false → prefix_digit (c ∷ s) ≡ c ∷ s
unfolding prefix_digit
prefix_digit-other c s other = rw other refl

prefix_digit-named :
    (s : Text)
    → all s is_name_byte ≡ true
    → (is_empty (prefix_digit s) || is_alias_name (prefix_digit s)) ≡ true
unfolding prefix_digit
prefix_digit-named [] h = refl
prefix_digit-named (c ∷ s) h = elim (Bool-cases (is_digit c)) [
  | inl digit ↦ subst IsNamedText (sym (prefix_digit-digit c s digit)) h
  | inr other ↦
      subst IsNamedText (sym (prefix_digit-other c s other))
        (first_named (is_digit c) (is_name_byte c) (all s is_name_byte) h other)
]

sanitize_alias_name-named :
    (name : Text)
    → (is_empty (sanitize_alias_name name) || is_alias_name (sanitize_alias_name name)) ≡ true
unfolding sanitize_alias_name
sanitize_alias_name-named name =
    let replaced = replace_runes (trim_space name) false in
    prefix_digit-named (trim_both is_underscore replaced) (
      all-trim_both is_name_byte is_underscore replaced (all-replace_runes (trim_space name) false))

all-decimal_within : (fuel n : ℕ) → all (decimal_within fuel n) is_name_byte ≡ true
unfolding decimal_within
all-decimal_within zero n = refl
all-decimal_within (suc fuel) n = elim (Bool-cases (ltb n 10)) [
  | inl small ↦ rw (small, decimal_within) (rw (digit_named n small) refl)
  | inr large ↦
      rw (large, decimal_within)
        (all-append is_name_byte (decimal_within fuel (n / 10)) ((b'0' + n % 10) ∷ [])
          ∙ rw (all-decimal_within fuel (n / 10)) (rw (digit_named (n % 10) (last_digit n)) refl))
]

append-named :
    (a b : Text)
    → is_alias_name a ≡ true
    → all b is_name_byte ≡ true
    → is_alias_name (a ++ b) ≡ true
append-named [] b h g = cc
append-named (c ∷ a) b h g = let tail = all-append is_name_byte a b in ground arith

numbered-named :
    (base : Text) (count : ℕ)
    → is_alias_name base ≡ true
    → is_alias_name (numbered base count) ≡ true
unfolding numbered decimal
numbered-named base count h = elim (Bool-cases (ltb 1 count)) [
  | inl later ↦
      rw (later, numbered)
        (append-named (base ++ codes "_") (decimal_within (suc count) count)
          (append-named base (codes "_") h refl) (all-decimal_within (suc count) count))
  | inr first ↦ rw (first, numbered) h
]

abbrev pub IsNamed : AliasTarget → Type 0
IsNamed target = is_alias_name target.sanitized ≡ true

named_or_skipped :
    (source base : Text)
    → (is_empty base || is_alias_name base) ≡ true
    → (is_empty source || is_empty base) ≡ false
    → is_alias_name base ≡ true
named_or_skipped source base h kept = ground arith

alias_targets-IsNamed :
    (items : List ServerNames) (used : Map ℕ) → All IsNamed (alias_targets items used)
unfolding alias_targets
alias_targets-IsNamed [] used = tt
alias_targets-IsNamed (item ∷ items) used =
    let source = source_name item in
    let base = sanitize_alias_name source in
    let count = used_times base used + 1 in
    elim (Bool-cases (is_empty source || is_empty base)) [
      | inl skipped ↦ rw (skipped, alias_targets) (alias_targets-IsNamed items used)
      | inr kept ↦
          rw (kept, alias_targets)
            (
              numbered-named base count
                  (named_or_skipped source base (sanitize_alias_name-named source) kept),
              alias_targets-IsNamed items (insert base count used),
            )
    ]

-- Every function and every script that stands for a server has a name of letters, digits and
-- underscores that does not start with a digit, whatever the server is called: the name is not
-- empty, and leads to no other directory.
pub build_alias_targets-IsNamed :
    (items : List ServerNames) → All IsNamed (build_alias_targets items)
unfolding build_alias_targets
build_alias_targets-IsNamed items = alias_targets-IsNamed items []
