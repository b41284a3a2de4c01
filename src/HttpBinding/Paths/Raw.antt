-- ===== src/HttpBinding/Paths/Raw.antt =====
-- canonicalizeRawPath and pathSegmentTraverses of internal/httpbinding/httpbinding.go.
use mathlib.Core.List.{reverse, reverse-append}
use mathlib.Core.Bool.{false≢true}
use mcpshim.Prelude.{
  ℕ, zero, suc, ◌≡◌, ◌≢◌, sym, ap, subst, ◌∙◌, Bool, true, false, not, Option, none, some, List, [],
  ◌∷◌, map, All, All-append, Text, codes, text_eq, text_eq_iff, any, has_prefix, has_byte,
  trim_left, trim_space, split, join, ok, arith, inl, inr, Bool-cases, Option-cases,
}
use mcpshim.HttpBinding.Escape.{path_escape, path_unescape}
use mcpshim.HttpBinding.Escape.Laws.{IsByte, path_unescape-IsByte}
use mcpshim.HttpBinding.Paths.{
  is_dots, is_rooted, traverses_within, path_segment_traverses, canonicalize_trimmed,
  canonicalize_raw_path,
}
use mcpshim.HttpBinding.Paths.Segmented.{
  split-join, join-split, split-cons, path_escape-IsSegment, path_unescape-join, AllBytes-split,
}

-- A segment that goes nowhere: neither "." nor "..".
abbrev pub Stays : Text → Type 0
Stays s = (s ≢ codes ".") × (s ≢ codes "..")

abbrev Where : (Text → Type 0) → Option Text → Type 0
Where P none = Unit
Where P (some d) = P d

-- So too after unescaping it up to `n` times.
abbrev pub StaysAfter : ℕ → Text → Type 0
StaysAfter zero s = Stays s
StaysAfter (suc n) s = Stays s × Where (StaysAfter n) (path_unescape s)

pub is_dots-Stays : (s : Text) → is_dots s ≡ false → Stays s
unfolding is_dots
is_dots-Stays s h = (
  (λ e. ground (arith, text_eq_iff s (codes "."))),
  λ e. ground (arith, text_eq_iff s (codes "..")),
)

StaysAfter-fixed : (n : ℕ) (s : Text) → Stays s → path_unescape s ≡ some s → StaysAfter n s
StaysAfter-fixed zero s h e = h
StaysAfter-fixed (suc n) s h e = (h, rw e (StaysAfter-fixed n s h e))

pub traverses_within-StaysAfter : (n : ℕ) (s : Text) → traverses_within n s ≡ false → StaysAfter n s
unfolding traverses_within
traverses_within-StaysAfter zero s h = is_dots-Stays s h
traverses_within-StaysAfter (suc n) s h = elim (Bool-cases (is_dots s)) [
  | inl dots ↦ absurd (false≢true (sym (rw (dots, traverses_within) at h)))
  | inr plain ↦
      let here = is_dots-Stays s plain in
      elim (Option-cases (path_unescape s)) [
        | inl stuck ↦ (here, rw stuck tt)
        | inr (d, e) ↦ elim (Bool-cases (text_eq d s)) [
          | inl same ↦ StaysAfter-fixed (suc n) s here (e ∙ ap some ((text_eq_iff d s).0 same))
          | inr differs ↦ (here, rw e (traverses_within-StaysAfter n d (ground arith)))
        ]
      ]
]

-- The paths that canonicalizeRawPath makes of a value.
pub record IsCanonical (value escaped decoded : Text) : Type 0 where
  pub unescaped : path_unescape (trim_space value) ≡ some decoded
  pub escapes_decoded : path_unescape escaped ≡ some decoded
  pub same_segments : split b'/' escaped ≡ map path_escape (split b'/' decoded)
  pub no_cross_origin : has_prefix decoded (codes "//") ≡ false
  pub no_backslash : has_byte b'\\' decoded ≡ false
  pub segments_stay : All (StaysAfter 4) (split b'/' decoded)

All-trim_left : (p : ℕ → Bool) (s : Text) → All IsByte s → All IsByte (trim_left p s)
unfolding trim_left
All-trim_left p [] h = tt
All-trim_left p (c ∷ s) h = ground (arith, All-trim_left p s)

All-reverse : (s : Text) → All IsByte s → All IsByte (reverse s)
All-reverse [] h = tt
All-reverse (c ∷ s) h =
    subst (All IsByte) (sym (reverse-append (c ∷ []) s))
      (All-append IsByte (reverse s) (c ∷ []) (All-reverse s h.1) (h.0, tt))

All-trim_space : (s : Text) → All IsByte s → All IsByte (trim_space s)
unfolding trim_space
All-trim_space s h = All-reverse _ (All-trim_left _ _ (All-reverse _ (All-trim_left _ s h)))

any-false : (segs : List Text) → any segs path_segment_traverses ≡ false → All (StaysAfter 4) segs
unfolding path_segment_traverses
any-false [] h = tt
any-false (s ∷ segs) h =
    (traverses_within-StaysAfter 4 s (ground arith), any-false segs (ground arith))

not-eq-true : (b : Bool) → not b ≡ true → b ≡ false
not-eq-true b h = ground arith

-- Joining the escaped segments gives a path with the same segments, which unescapes to the path.
pub join-path_escape :
    (decoded : Text)
    → All IsByte decoded
    → (path_unescape (join b'/' (map path_escape (split b'/' decoded))) ≡ some decoded)
      × (split b'/' (join b'/' (map path_escape (split b'/' decoded)))
          ≡ map path_escape (split b'/' decoded))
join-path_escape decoded h =
    let (seg, segs, e) = split-cons decoded in
    (
      path_unescape-join (split b'/' decoded) (AllBytes-split decoded h)
          ∙ ap some (join-split decoded),
      rw e (
          split-join (path_escape seg) (map path_escape segs) (path_escape-IsSegment (seg ∷ segs))),
    )

canonicalize_trimmed-inv :
    (value escaped decoded : Text)
    → canonicalize_trimmed value ≡ ok (escaped, decoded)
    → (is_rooted value ≡ true)
      × (path_unescape value ≡ some decoded)
      × (has_byte b'\\' decoded ≡ false)
      × (has_prefix decoded (codes "//") ≡ false)
      × (any (split b'/' decoded) path_segment_traverses ≡ false)
      × (escaped ≡ join b'/' (map path_escape (split b'/' decoded)))
unfolding canonicalize_trimmed
canonicalize_trimmed-inv value escaped decoded h = ground arith

-- A raw request path that is accepted goes out as the bytes that were checked: the trimmed value
-- unescapes to the decoded path, and so does the escaped path, segment by segment. The decoded
-- path has no backslash and does not begin with "//", and none of its segments is "." or "..",
-- not even after unescaping it up to four more times.
pub canonicalize_raw_path-IsCanonical :
    (value escaped decoded : Text)
    → All IsByte value
    → canonicalize_raw_path value ≡ ok (escaped, decoded)
    → IsCanonical value escaped decoded
unfolding canonicalize_raw_path
canonicalize_raw_path-IsCanonical value escaped decoded bytes h =
    let (rooted, un, slash, cross, stays, e) =
      canonicalize_trimmed-inv (trim_space value) escaped decoded h in
    let decoded_bytes =
      path_unescape-IsByte (trim_space value) decoded (All-trim_space value bytes) un in
    let both = join-path_escape decoded decoded_bytes in
    record {
      unescaped = un;
      escapes_decoded = rw e both.0;
      same_segments = rw e both.1;
      no_cross_origin = cross;
      no_backslash = slash;
      segments_stay = any-false (split b'/' decoded) stays;
    }
