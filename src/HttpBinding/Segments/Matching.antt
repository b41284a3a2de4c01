-- ===== src/HttpBinding/Segments/Matching.antt =====
-- What a pattern of segments means, without reference to the matcher, and the matcher.
use mcpshim.Prelude.{
  ◌≡◌, ◌≢◌, refl, ap, sym, subst, ◌∙◌, true, List, [], ◌∷◌, ◌++◌, Text, text_eq, text_eq_iff, inl,
  inr, ◌↔◌, Bool-cases, arith,
}
use mcpshim.HttpBinding.Segments.{star, globstar, match_path_segments}

pub data Matches : List Text → List Text → Type 0 where
  done : Matches [] []
  literal :
      {p : Text} {ps cs : List Text} → p ≢ globstar → Matches ps cs → Matches (p ∷ ps) (p ∷ cs)
  one : {p c : Text} {ps cs : List Text} → p ≡ star → Matches ps cs → Matches (p ∷ ps) (c ∷ cs)
  many :
      {p : Text} {ps cs candidate : List Text}
      → p ≡ globstar
      → (skipped : List Text) → candidate ≡ skipped ++ cs
      → Matches ps cs
      → Matches (p ∷ ps) candidate

star-ne-globstar : star ≢ globstar
star-ne-globstar h = cc

-- `**` that matches a candidate matches it with one more segment in front.
Matches-many-cons :
    {p : Text} {ps cs : List Text} (c : Text)
    → p ≡ globstar
    → Matches (p ∷ ps) cs
    → Matches (p ∷ ps) (c ∷ cs)
Matches-many-cons c e (literal ne m) = absurd (ne e)
Matches-many-cons c e (one s m) = absurd (star-ne-globstar (sym s ∙ e))
Matches-many-cons c e (many g skipped splits m) = many g (c ∷ skipped) (ap (◌∷◌ c) splits) m

match_path_segments_sound : (ps cs : List Text) → match_path_segments ps cs ≡ true → Matches ps cs
unfolding match_path_segments
match_path_segments_sound [] [] h = done
match_path_segments_sound [] (c ∷ cs) h = cc
match_path_segments_sound (p ∷ ps) [] h =
    let is_many : p ≡ globstar = ground (arith, text_eq_iff p globstar) in
    many is_many [] refl (match_path_segments_sound ps [] (ground arith))
match_path_segments_sound (p ∷ ps) (c ∷ cs) h = elim (Bool-cases (text_eq p globstar)) [
  | inl e ↦
      let is_many = (text_eq_iff p globstar).0 e in
      elim (Bool-cases (match_path_segments ps (c ∷ cs))) [
        | inl here ↦ many is_many [] refl (match_path_segments_sound ps (c ∷ cs) here)
        | inr later ↦
            Matches-many-cons c is_many (match_path_segments_sound (p ∷ ps) cs (ground arith))
      ]
  | inr other ↦
      let next = match_path_segments_sound ps cs (ground arith) in
      elim (Bool-cases (text_eq p star)) [
        | inl s ↦ one ((text_eq_iff p star).0 s) next
        | inr differs ↦
            let same : p ≡ c = ground (arith, text_eq_iff p c) in
            subst (λ x. Matches (p ∷ ps) (x ∷ cs)) same
              (literal (λ g. ground (arith, text_eq_iff p globstar)) next)
      ]
]

-- The matcher may skip any number of segments at `**`.
match_path_segments-skip :
    (p : Text) (ps skipped cs : List Text)
    → p ≡ globstar
    → match_path_segments ps cs ≡ true
    → match_path_segments (p ∷ ps) (skipped ++ cs) ≡ true
unfolding match_path_segments
match_path_segments-skip p ps [] [] e h = ground (arith, text_eq_iff p globstar)
match_path_segments-skip p ps [] (c ∷ cs) e h = ground (arith, text_eq_iff p globstar)
match_path_segments-skip p ps (s ∷ skipped) cs e h =
    ground (arith, text_eq_iff p globstar, match_path_segments-skip p ps skipped cs e h)

match_path_segments_complete :
    {ps cs : List Text} → Matches ps cs → match_path_segments ps cs ≡ true
unfolding match_path_segments
match_path_segments_complete done = refl
match_path_segments_complete (literal {p} ne m) =
    ground (arith, text_eq_iff p globstar, text_eq_iff p p, match_path_segments_complete m)
match_path_segments_complete (one {p} e m) =
    ground (arith, text_eq_iff p globstar, text_eq_iff p star, match_path_segments_complete m)
match_path_segments_complete (many {p} {ps} {cs} e skipped splits m) =
    rw splits (match_path_segments-skip p ps skipped cs e (match_path_segments_complete m))

-- The matcher accepts a candidate exactly when the pattern matches it: segment by segment, with
-- `*` for any one segment and `**` for any number of segments.
pub match_path_segments_iff :
    (ps cs : List Text) → (match_path_segments ps cs ≡ true) ↔ Matches ps cs
match_path_segments_iff ps cs = (match_path_segments_sound ps cs, match_path_segments_complete)
