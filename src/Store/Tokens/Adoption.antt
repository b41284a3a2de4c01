-- ===== src/Store/Tokens/Adoption.antt =====
-- What AdoptToken, DeleteTokens and HasOAuthState promise of the tables of OAuth state.
use mcpshim.Prelude.{
  ◌≡◌, refl, ◌∙◌, Bool, not, ◌&&◌, none, List, [], ◌∷◌, if◌then◌else◌, is_empty, Text, text_eq,
  text_eq_iff, Map, lookup, delete, is_some, arith, lookup-insert, lookup-delete, is_one_of, inl,
  inr, Option-cases,
}
use mcpshim.Store.Tokens.{Token, OAuthTables, delete_keys, delete_tokens, rename_key, adopt_token}

lookup-rename_key :
    (legacy_key key j : Text) (tokens : Map Token)
    → lookup j (rename_key legacy_key key tokens) ≡ (
        if is_some (lookup legacy_key tokens)
        then (if text_eq key j
            then lookup legacy_key tokens
            else if text_eq legacy_key j
            then none
            else lookup j tokens)
        else lookup j tokens)
unfolding rename_key
lookup-rename_key legacy_key key j tokens = elim (Option-cases (lookup legacy_key tokens)) [
  | inl absent ↦ rw (absent, rename_key) refl
  | inr (token, present) ↦
      rw (present, rename_key)
        (lookup-insert key j token (delete legacy_key tokens)
          ∙ rw (lookup-delete legacy_key j tokens) refl)
]

-- Whether a token is adopted: both keys are nonempty and differ, the key has no token, and the
-- legacy key has one.
abbrev pub is_adopted : Text → Text → OAuthTables → Bool
is_adopted legacy_key key t =
    not (is_empty legacy_key)
    && not (is_empty key)
    && not (text_eq legacy_key key)
    && not (is_some (lookup key t.tokens))
    && is_some (lookup legacy_key t.tokens)

-- A token is adopted only where the key has none: then the key has the token of the legacy key,
-- which has none left. Every other row is as it was, all rows are where none is adopted, and so is
-- every client.
pub adopt_token-exactly :
    (legacy_key key j : Text) (t : OAuthTables)
    → (let (moved, after) = adopt_token legacy_key key t in
        (moved ≡ is_adopted legacy_key key t)
        × (after.clients ≡ t.clients)
        × (lookup j after.tokens ≡ (
            if is_adopted legacy_key key t
            then (if text_eq key j
                then lookup legacy_key t.tokens
                else if text_eq legacy_key j
                then none
                else lookup j t.tokens)
            else lookup j t.tokens)))
unfolding adopt_token
adopt_token-exactly legacy_key key j t =
    (ground arith, ground arith, ground (arith, lookup-rename_key legacy_key key j t.tokens))

lookup-delete_keys :
    (j : Text) (keys : List Text) (tokens : Map Token)
    → lookup j (delete_keys keys tokens)
      ≡ (if is_one_of keys j && not (is_empty j) then none else lookup j tokens)
unfolding delete_keys is_one_of
lookup-delete_keys j [] tokens = refl
lookup-delete_keys j (k ∷ keys) tokens = ground (
  arith,
  lookup-delete_keys j keys tokens,
  lookup-delete_keys j keys (delete k tokens),
  lookup-delete k j tokens,
  text_eq_iff k j,
  text_eq_iff j k,
)

-- Deleting tokens removes the row of every key that is named, where the key is not empty, and no
-- other row and no client.
pub delete_tokens-exactly :
    (keys : List Text) (j : Text) (t : OAuthTables)
    → (lookup j (delete_tokens keys t).tokens
        ≡ (if is_one_of keys j && not (is_empty j) then none else lookup j t.tokens))
      × ((delete_tokens keys t).clients ≡ t.clients)
unfolding delete_tokens
delete_tokens-exactly keys j t = (lookup-delete_keys j keys t.tokens, refl)
