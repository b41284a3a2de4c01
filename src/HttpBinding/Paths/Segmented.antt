-- ===== src/HttpBinding/Paths/Segmented.antt =====
-- Splitting a path at the separator, and joining its segments.
use mcpshim.Prelude.{
  ℕ, ◌≡◌, refl, ap, ◌∙◌, false, some, List, [], ◌∷◌, ◌++◌, map, ◌==◌, Text, has_byte, cons_segment,
  split, join, All, arith, inl, inr, Bool-cases, ==_iff,
}
use mcpshim.HttpBinding.Escape.{path_escape, path_unescape}
use mcpshim.HttpBinding.Escape.Laws.{
  path_escape-slash, path_unescape-path_escape, path_unescape-append, path_unescape-plain,
  prepend_all-some, IsByte,
}

abbrev pub IsSegment : Text → Type 0
IsSegment s = has_byte b'/' s ≡ false

split-segment : (s : Text) → IsSegment s → split b'/' s ≡ s ∷ []
unfolding split has_byte
split-segment [] h = refl
split-segment (c ∷ s) h = ground (arith, split-segment s)

split-append : (s t : Text) → IsSegment s → split b'/' (s ++ b'/' ∷ t) ≡ s ∷ split b'/' t
unfolding split has_byte
split-append [] t h = ground arith
split-append (c ∷ s) t h = ground (arith, split-append s t)

pub split-join :
    (s : Text) (segs : List Text)
    → All IsSegment (s ∷ segs)
    → split b'/' (join b'/' (s ∷ segs)) ≡ s ∷ segs
unfolding join
split-join s [] h = split-segment s h.0
split-join s (t ∷ segs) h =
    split-append s (join b'/' (t ∷ segs)) h.0 ∙ ap (◌∷◌ s) (split-join t segs h.1)

-- What one more byte does to the segments.
cons_segment-IsSegment :
    (c : ℕ) (segs : List Text)
    → (c == b'/') ≡ false
    → All IsSegment segs
    → All IsSegment (cons_segment c segs)
unfolding has_byte
cons_segment-IsSegment c [] h a = ground arith
cons_segment-IsSegment c (s ∷ segs) h a = ground arith

pub split-IsSegment : (s : Text) → All IsSegment (split b'/' s)
unfolding split has_byte
split-IsSegment [] = (refl, tt)
split-IsSegment (c ∷ s) = elim (Bool-cases (c == b'/')) [
  | inl sep ↦ rw sep (refl, split-IsSegment s)
  | inr plain ↦ rw plain (cons_segment-IsSegment c (split b'/' s) plain (split-IsSegment s))
]

join-cons_segment :
    (c : ℕ) (seg : Text) (segs : List Text)
    → join b'/' (cons_segment c (seg ∷ segs)) ≡ c ∷ join b'/' (seg ∷ segs)
unfolding join
join-cons_segment c seg [] = refl
join-cons_segment c seg (t ∷ segs) = refl

-- There is always a first segment.
pub split-cons : (s : Text) → (seg : Text) × (segs : List Text) × (split b'/' s ≡ seg ∷ segs)
unfolding split
split-cons [] = ([], [], refl)
split-cons (c ∷ s) =
    let (seg, segs, e) = split-cons s in
    elim (Bool-cases (c == b'/')) [
      | inl sep ↦ ([], split b'/' s, rw sep refl)
      | inr plain ↦ (c ∷ seg, segs, rw (plain, e) refl)
    ]

join-nil :
    (seg : Text) (segs : List Text) → join b'/' ([] ∷ seg ∷ segs) ≡ b'/' ∷ join b'/' (seg ∷ segs)
unfolding join
join-nil seg segs = refl

pub join-split : (s : Text) → join b'/' (split b'/' s) ≡ s
unfolding split
join-split [] = unfold join in refl
join-split (c ∷ s) =
    let (seg, segs, e) = split-cons s in
    let ih = join-split s in
    elim (Bool-cases (c == b'/')) [
      | inl sep ↦ rw (sep, e) (join-nil seg segs ∙ cc ((==_iff c b'/').0 sep, ap (join b'/') e, ih))
      | inr plain ↦ rw (plain, e) (join-cons_segment c seg segs ∙ cc (ap (join b'/') e, ih))
    ]

pub path_escape-IsSegment : (segs : List Text) → All IsSegment (map path_escape segs)
path_escape-IsSegment [] = tt
path_escape-IsSegment (s ∷ segs) = (path_escape-slash s, path_escape-IsSegment segs)

abbrev pub AllBytes : List Text → Type 0
AllBytes = All (All IsByte)

-- An escaped and joined path unescapes to the joined path.
pub path_unescape-join :
    (segs : List Text)
    → AllBytes segs
    → path_unescape (join b'/' (map path_escape segs)) ≡ some (join b'/' segs)
unfolding join
path_unescape-join [] h = unfold path_unescape in refl
path_unescape-join (s ∷ []) h = path_unescape-path_escape s h.0
path_unescape-join (s ∷ t ∷ segs) h =
    path_unescape-append s (b'/' ∷ join b'/' (map path_escape (t ∷ segs))) h.0
    ∙ rw
        (
          path_unescape-plain b'/' (join b'/' (map path_escape (t ∷ segs))) refl,
          path_unescape-join (t ∷ segs) h.1,
          prepend_all-some,
        )
        refl

pub AllBytes-split : (s : Text) → All IsByte s → AllBytes (split b'/' s)
unfolding split
AllBytes-split [] h = (tt, tt)
AllBytes-split (c ∷ s) h =
    let (seg, segs, e) = split-cons s in
    let ih = AllBytes-split s h.1 in
    elim (Bool-cases (c == b'/')) [
      | inl sep ↦ rw sep (tt, ih)
      | inr plain ↦ rw (plain, e) (let k = rw e at ih in ((h.0, k.0), k.1))
    ]
