-- ===== src/HttpBinding/Escape/Laws.antt =====
-- PathEscape and PathUnescape together.
use mcpshim.Prelude.{
  ℕ, ◌+◌, ◌*◌, ◌/◌, ◌%◌, ◌<◌, ◌≡◌, refl, true, false, ◌&&◌, ◌||◌, Option, none, some, [], ◌∷◌, ◌++◌,
  ◌==◌, Text, has_byte, All, arith, inl, inr, Bool-cases, subst, append_assoc, append-nil, ap, sym,
  ◌∙◌,
}
use mcpshim.HttpBinding.Escape.{
  is_literal, hex_digit, is_hex, unhex, escape_byte, path_escape, path_unescape, prepend,
}

abbrev pub IsByte : ℕ → Type 0
IsByte c = c < 256

abbrev pub prepend_all : Text → Option Text → Option Text
prepend_all [] o = o
prepend_all (c ∷ s) o = prepend c (prepend_all s o)

pub prepend_all-some : (s t : Text) → prepend_all s (some t) ≡ some (s ++ t)
prepend_all-some [] t = refl
prepend_all-some (c ∷ s) t = ap (prepend c) (prepend_all-some s t)

hex_round : (n : ℕ) → n < 16 → (is_hex (hex_digit n) ≡ true) × (unhex (hex_digit n) ≡ n)
unfolding is_hex hex_digit unhex
hex_round n h = ground arith

percent_escaped : is_literal b'%' ≡ false
unfolding is_literal
percent_escaped = refl

pub path_unescape-plain :
    (c : ℕ) (s : Text) → (c == b'%') ≡ false → path_unescape (c ∷ s) ≡ prepend c (path_unescape s)
unfolding path_unescape
path_unescape-plain c [] h = ground arith
path_unescape-plain c (a ∷ []) h = ground arith
path_unescape-plain c (a ∷ b ∷ s) h = ground arith

literal-ne-percent : (c : ℕ) → is_literal c ≡ true → (c == b'%') ≡ false
literal-ne-percent c h = ground (arith, percent_escaped)

path_unescape-escape_byte :
    (c : ℕ) (s : Text) → IsByte c → path_unescape (escape_byte c ++ s) ≡ prepend c (path_unescape s)
unfolding escape_byte
path_unescape-escape_byte c s h = elim (Bool-cases (is_literal c)) [
  | inl lit ↦ rw (lit, escape_byte) (path_unescape-plain c s (literal-ne-percent c lit))
  | inr esc ↦
      let high = hex_round (c / 16) (omega arith) in
      let low = hex_round (c % 16) (omega arith) in
      rw (esc, escape_byte)
        (unfold path_unescape in
          rw (high.0, low.0, high.1, low.1) (ap (λ x. prepend x (path_unescape s)) (omega arith)))
]

pub path_unescape-append :
    (s rest : Text)
    → All IsByte s
    → path_unescape (path_escape s ++ rest) ≡ prepend_all s (path_unescape rest)
unfolding path_escape
path_unescape-append [] rest h = refl
path_unescape-append (c ∷ s) rest h = rw append_assoc (
    path_unescape-escape_byte c (path_escape s ++ rest) h.0
    ∙ ap (prepend c) (path_unescape-append s rest h.1))

-- Unescaping an escaped segment gives the segment back, whatever bytes it holds.
pub path_unescape-path_escape : (s : Text) → All IsByte s → path_unescape (path_escape s) ≡ some s
unfolding path_unescape
path_unescape-path_escape s h =
    ap path_unescape (sym (append-nil (path_escape s)))
    ∙ path_unescape-append s [] h
    ∙ rw (prepend_all-some, append-nil)

slash_escaped : is_literal b'/' ≡ false
unfolding is_literal
slash_escaped = refl

hex_digit-ne-slash : (n : ℕ) → (hex_digit n == b'/') ≡ false
unfolding hex_digit
hex_digit-ne-slash n = ground arith

has_byte-append : (c : ℕ) (s t : Text) → has_byte c (s ++ t) ≡ (has_byte c s || has_byte c t)
unfolding has_byte
has_byte-append c [] t = refl
has_byte-append c (x ∷ s) t = ground (arith, has_byte-append c s t)

escape_byte-slash : (c : ℕ) → has_byte b'/' (escape_byte c) ≡ false
unfolding escape_byte has_byte
escape_byte-slash c =
    ground (arith, slash_escaped, hex_digit-ne-slash (c / 16), hex_digit-ne-slash (c % 16))

-- An escaped segment holds no separator.
pub path_escape-slash : (s : Text) → has_byte b'/' (path_escape s) ≡ false
unfolding path_escape has_byte
path_escape-slash [] = refl
path_escape-slash (c ∷ s) = rw (has_byte-append, escape_byte-slash c, path_escape-slash s) refl

unhex-lt : (a b : ℕ) → is_hex a ≡ true → is_hex b ≡ true → unhex a * 16 + unhex b < 256
unfolding is_hex unhex
unhex-lt a b h k = ground arith

prepend-IsByte :
    (c : ℕ) (o : Option Text) {d : Text}
    → IsByte c
    → ((t : Text) → o ≡ some t → All IsByte t)
    → prepend c o ≡ some d
    → All IsByte d
prepend-IsByte c none h k e = cc
prepend-IsByte c (some t) {d} h k e =
    let same : c ∷ t ≡ d = cc in subst (All IsByte) same (h, k t refl)

-- What is unescaped from bytes is bytes.
pub path_unescape-IsByte : (s d : Text) → All IsByte s → path_unescape s ≡ some d → All IsByte d
unfolding path_unescape
path_unescape-IsByte [] d h e = ground arith
path_unescape-IsByte (c ∷ []) d h e = ground arith
path_unescape-IsByte (c ∷ a ∷ []) d h e = elim (Bool-cases (c == b'%')) [
  | inl percent ↦ cc (rw percent at e)
  | inr plain ↦
      prepend-IsByte c (path_unescape (a ∷ [])) h.0 (λ t. path_unescape-IsByte (a ∷ []) t h.1)
        (rw plain at e)
]
path_unescape-IsByte (c ∷ a ∷ b ∷ s) d h e = elim (Bool-cases (c == b'%')) [
  | inl percent ↦ elim (Bool-cases (is_hex a && is_hex b)) [
    | inl hex ↦
        prepend-IsByte (unhex a * 16 + unhex b) (path_unescape s)
          (unhex-lt a b (ground arith) (ground arith)) (λ t. path_unescape-IsByte s t h.1.1.1)
          (rw hex at (rw percent at e))
    | inr bad ↦ cc (rw bad at (rw percent at e))
  ]
  | inr plain ↦
      prepend-IsByte c (path_unescape (a ∷ b ∷ s)) h.0 (λ t. path_unescape-IsByte (a ∷ b ∷ s) t h.1)
        (rw plain at e)
]
