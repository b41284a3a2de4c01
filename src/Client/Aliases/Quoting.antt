-- ===== src/Client/Aliases/Quoting.antt =====
-- shellQuote of internal/client/client.go, against the words that a shell reads.
use mcpshim.Prelude.{
  ℕ, ◌≡◌, refl, sym, ap, ◌∙◌, Bool, true, ◌||◌, Option, none, some, [], ◌∷◌, ◌++◌, ◌==◌,
  if◌then◌else◌, Text, codes, append_assoc, append-nil, arith, inl, inr, Bool-cases,
}
use mcpshim.Client.Aliases.{escape_quotes, shell_quote}

pub data Quoted : Type 0 where
  outside plain quoted escaped : Quoted

abbrev pub prepend : Text → Option (Text × Text) → Option (Text × Text)
prepend word none = none
prepend word (some (w, rest)) = some (word ++ w, rest)

-- A blank, or a newline.
abbrev pub is_blank : ℕ → Bool
is_blank c = c == b' ' || c == 10

-- The first word of a line that starts with one, and the rest of the line behind it: `outside` of a
-- word, the end of the line and a blank are no word. A word is made of texts between single
-- quotes, where every byte stands for itself, and of bytes behind a backslash; other bytes are not
-- read.
unfoldable pub read_word : Quoted → Text → Option (Text × Text)
read_word outside [] = none
read_word plain [] = some ([], [])
read_word quoted [] = none
read_word escaped [] = none
read_word outside (c ∷ s) =
    if c == b'\'' then read_word quoted s else if c == b'\\' then read_word escaped s else none
read_word plain (c ∷ s) =
    if c == b'\''
    then read_word quoted s
    else if c == b'\\'
    then read_word escaped s
    else if is_blank c
    then some ([], c ∷ s)
    else none
read_word quoted (c ∷ s) =
    if c == b'\'' then read_word plain s else prepend (c ∷ []) (read_word quoted s)
read_word escaped (c ∷ s) = prepend (c ∷ []) (read_word plain s)

abbrev pub ends_word : Text → Bool
ends_word [] = true
ends_word (c ∷ s) = is_blank c

read_end : (rest : Text) → ends_word rest ≡ true → read_word plain rest ≡ some ([], rest)
unfolding read_word
read_end [] h = refl
read_end (c ∷ rest) h = ground arith

prepend_nil : (o : Option (Text × Text)) → prepend [] o ≡ o
prepend_nil none = refl
prepend_nil (some (w, rest)) = refl

prepend_cons :
    (c : ℕ) (s : Text) (o : Option (Text × Text))
    → prepend (c ∷ []) (prepend s o) ≡ prepend (c ∷ s) o
prepend_cons c s none = refl
prepend_cons c s (some (w, rest)) = refl

read_quoted :
    (s rest : Text)
    → read_word quoted (escape_quotes s ++ (b'\'' ∷ rest)) ≡ prepend s (read_word plain rest)
unfolding read_word escape_quotes
read_quoted [] rest = sym (prepend_nil (read_word plain rest))
read_quoted (c ∷ s) rest = elim (Bool-cases (c == b'\'')) [
  | inl quote ↦
      let same : c ≡ b'\'' = ground arith in
      rw (same, escape_quotes, read_word)
        (ap (prepend (b'\'' ∷ [])) (read_quoted s rest)
          ∙ prepend_cons b'\'' s (read_word plain rest))
  | inr other ↦
      rw (other, escape_quotes, other, read_word)
        (ap (prepend (c ∷ [])) (read_quoted s rest) ∙ prepend_cons c s (read_word plain rest))
]

-- A shell reads a quoted text, the empty one too, as one word, which is the text byte for byte,
-- whatever bytes it holds: before the end of the line, a blank or a newline, the word ends there.
pub read_word-shell_quote :
    (s rest : Text)
    → ends_word rest ≡ true
    → read_word outside (shell_quote s ++ rest) ≡ some (s, rest)
unfolding shell_quote read_word
read_word-shell_quote [] rest h = read_end rest h
read_word-shell_quote (c ∷ s) rest h =
    ap (read_word quoted) (append_assoc (escape_quotes (c ∷ s)) (codes "'") rest)
    ∙ read_quoted (c ∷ s) rest
    ∙ ap (prepend (c ∷ s)) (read_end rest h)
    ∙ ap (λ w. some (w, rest)) (append-nil (c ∷ s))
