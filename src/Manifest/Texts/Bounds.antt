-- ===== src/Manifest/Texts/Bounds.antt =====
-- The summary of a tool in internal/manifest/manifest.go is one short line.
use mcpshim.Prelude.{
  ℕ, ◌≤◌, ◌≡◌, refl, ap, ◌∙◌, Bool, true, false, not, ◌&&◌, ◌||◌, List, [], ◌∷◌, is_empty, take,
  length, all, All, ltb, ◌==◌, Text, codes, arith, inl, inr, Bool-cases, trim_space, is_space,
  split, length-append, length-take, has_prefix, cons_segment, all-append, all-take, all-trim_both,
}
use mcpshim.Manifest.Texts.{shorten, ellipsis, summary_of, summarize}

abbrev pub no_newline : ℕ → Bool
no_newline c = not (c == 10)

abbrev IsLine : Text → Type 0
IsLine s = all s no_newline ≡ true

cons-IsLine :
    (c : ℕ) (lines : List Text)
    → (c == 10) ≡ false
    → All IsLine lines
    → All IsLine (cons_segment c lines)
cons-IsLine c [] other h = (ground arith, tt)
cons-IsLine c (line ∷ lines) other h = let first = h.0 in (ground (arith, other, first), h.1)

split-IsLine : (s : Text) → All IsLine (split 10 s)
unfolding split
split-IsLine [] = (refl, tt)
split-IsLine (c ∷ s) = elim (Bool-cases (c == 10)) [
  | inl newline ↦ rw newline (refl, split-IsLine s)
  | inr other ↦ rw other (cons-IsLine c (split 10 s) other (split-IsLine s))
]

-- At most 140 bytes and no newline.
abbrev pub IsSummary : Text → Type 0
IsSummary s = (all s no_newline ≡ true) × (length s ≤ 140)

shorten-IsSummary : (s : Text) → IsLine s → IsSummary (shorten 140 137 s)
shorten-IsSummary s h = elim (Bool-cases (ltb 140 (length s))) [
  | inl long ↦
      let cut = length-append (take 137 s) ellipsis in
      let kept = length-take 137 s in
      rw long (
        all-append no_newline (take 137 s) ellipsis
            ∙ ap (λ b. b && true) (all-take no_newline 137 s h),
        omega (arith, cut, kept),
      )
  | inr short ↦ rw short (h, ground (arith, short))
]

summary_of-IsSummary : (lines : List Text) → All IsLine lines → IsSummary (summary_of lines)
unfolding summary_of trim_space
summary_of-IsSummary [] h = (refl, omega arith)
summary_of-IsSummary (raw ∷ lines) h =
    let line = trim_space raw in
    elim (Bool-cases
      (is_empty line || has_prefix line (codes "<") || has_prefix line (codes "{"))) [
        | inl skipped ↦ rw skipped (summary_of-IsSummary lines h.1)
        | inr chosen ↦
            rw chosen (shorten-IsSummary line (all-trim_both no_newline is_space raw h.0))
      ]

-- The summary of any description is a text of at most 140 bytes without a newline.
pub summarize-IsSummary : (desc : Text) → IsSummary (summarize desc)
unfolding summarize
summarize-IsSummary desc = elim (Bool-cases (is_empty (trim_space desc))) [
  | inl empty ↦ rw empty (refl, omega arith)
  | inr some_text ↦
      rw some_text
        (summary_of-IsSummary (split 10 (trim_space desc)) (split-IsLine (trim_space desc)))
]
