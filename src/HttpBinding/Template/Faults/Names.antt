-- ===== src/HttpBinding/Template/Faults/Names.antt =====
-- The pattern of argument names, and the test of renderTemplate for a blank name.
use mathlib.Core.List.{reverse, reverse-append}
use mcpshim.Prelude.{
  ℕ, ◌≡◌, refl, Bool, true, false, [], ◌∷◌, ◌++◌, Text, is_empty, is_space, trim_left, trim_space,
  arith,
}
use mcpshim.HttpBinding.Format.{is_name_start, is_argument_name}

name_start-space : (c : ℕ) → is_name_start c ≡ true → is_space c ≡ false
unfolding is_name_start is_space
name_start-space c h = ground arith

trim_left-append :
    (p : ℕ → Bool) (s : Text) (c : ℕ) → p c ≡ false → is_empty (trim_left p (s ++ c ∷ [])) ≡ false
unfolding trim_left
trim_left-append p [] c h = ground arith
trim_left-append p (x ∷ s) c h = ground (arith, trim_left-append p s c)

is_empty-reverse : (s : Text) → is_empty s ≡ false → is_empty (reverse s) ≡ false
is_empty-reverse [] h = h
is_empty-reverse (c ∷ s) h = rw (reverse-append (c ∷ []) s) (nonempty (reverse s))
  where
    nonempty : (t : Text) → is_empty (t ++ c ∷ []) ≡ false
    nonempty [] = refl
    nonempty (x ∷ t) = refl

trim_left-start : (p : ℕ → Bool) (c : ℕ) (s : Text) → p c ≡ false → trim_left p (c ∷ s) ≡ c ∷ s
unfolding trim_left
trim_left-start p c s h = ground arith

pub is_argument_name-trim_space :
    (s : Text) → is_argument_name s ≡ true → is_empty (trim_space s) ≡ false
unfolding is_argument_name
is_argument_name-trim_space [] h = cc
is_argument_name-trim_space (c ∷ s) h =
    let solid = name_start-space c (ground arith) in
    unfold trim_space in
    rw (trim_left-start is_space c s solid, reverse-append (c ∷ []) s)
      (is_empty-reverse _ (trim_left-append is_space (reverse s) c solid))
