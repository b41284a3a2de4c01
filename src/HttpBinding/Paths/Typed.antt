-- ===== src/HttpBinding/Paths/Typed.antt =====
-- renderTypedPath of internal/httpbinding/httpbinding.go on a path that the configuration accepted.
use mcpshim.Prelude.{
  ℕ, suc, ◌≡◌, refl, ap, subst, ◌∙◌, true, false, Option, none, some, List, [], ◌∷◌, map, All,
  length, Text, codes, all, has_byte, contains_any, split, join, ok, map_results, bind-eq-ok, arith,
  inl, inr, Bool-cases, Option-cases,
}
use mcpshim.Value.{Value, Numbers, Fields, get}
use mcpshim.HttpBinding.Escape.{path_escape, path_unescape}
use mcpshim.HttpBinding.Escape.Laws.{IsByte}
use mcpshim.HttpBinding.Paths.{
  is_dots, is_placeholder, placeholder_name, leaves_segment, argument_text, render_segment,
  render_typed_path, path_segment_traverses, valid_tool_segment, valid_http_tool_path,
}
use mcpshim.HttpBinding.Paths.Segmented.{IsSegment, split-join, split-cons}
use mcpshim.HttpBinding.Paths.Raw.{
  Stays, StaysAfter, is_dots-Stays, traverses_within-StaysAfter, join-path_escape,
}

-- One decoded segment that stays where it is put.
pub record IsContained (d : Text) : Type 0 where
  pub stays : Stays d
  pub one_segment : IsSegment d
  pub no_backslash : has_byte b'\\' d ≡ false

contains_any-false :
    (b : ℕ) (s chars : Text)
    → contains_any s chars ≡ false
    → has_byte b chars ≡ true
    → has_byte b s ≡ false
unfolding contains_any has_byte
contains_any-false b [] chars h k = refl
contains_any-false b (c ∷ s) chars h k = ground (arith, contains_any-false b s chars)

contained_if :
    (d : Text) → contains_any d (codes "/\\") ≡ false → IsSegment d × (has_byte b'\\' d ≡ false)
contained_if d k = (
  contains_any-false b'/' d (codes "/\\") k (unfold has_byte in refl),
  contains_any-false b'\\' d (codes "/\\") k (unfold has_byte in refl),
)

first : (d : Text) → StaysAfter 3 d → Stays d
first d h = h.0

contained : (d : Text) → is_dots d ≡ false → contains_any d (codes "/\\") ≡ false → IsContained d
contained d h k = record {
  stays = is_dots-Stays d h;
  one_segment = (contained_if d k).0;
  no_backslash = (contained_if d k).1;
}

-- A configured segment that passed validation decodes to a contained one.
valid_tool_segment-IsContained :
    (segment d : Text)
    → valid_tool_segment segment ≡ true
    → path_unescape segment ≡ some d
    → IsContained d
unfolding valid_tool_segment path_segment_traverses
valid_tool_segment-IsContained segment d valid e =
    let clean : contains_any d (codes "/\\") ≡ false = ground arith in
    let after = traverses_within-StaysAfter 4 segment (ground arith) in
    record {
      stays = first d (rw e at after.1);
      one_segment = (contained_if d clean).0;
      no_backslash = (contained_if d clean).1;
    }

-- The path that a validated template and some arguments give.
pub record IsRendered (template escaped decoded : Text) : Type 0 where
  pub contained_segments : All IsContained (split b'/' decoded)
  pub same_length : length (split b'/' decoded) ≡ length (split b'/' template)
  pub escapes_decoded : path_unescape escaped ≡ some decoded
  pub same_segments : split b'/' escaped ≡ map path_escape (split b'/' decoded)

All-IsSegment : (ds : List Text) → All IsContained ds → All IsSegment ds
All-IsSegment [] h = tt
All-IsSegment (d ∷ ds) h = (h.0.one_segment, All-IsSegment ds h.1)

split-join_contained :
    (template : Text) (ds : List Text)
    → All IsContained ds
    → length ds ≡ length (split b'/' template)
    → split b'/' (join b'/' ds) ≡ ds
split-join_contained template [] h e =
    let (seg, segs, nonempty) = split-cons template in absurd (omega (arith, e, ap length nonempty))
split-join_contained template (d ∷ ds) h e = split-join d ds (All-IsSegment (d ∷ ds) h)

module _ (n : Numbers) where
  argument_text-IsContained :
      (name : Text) (o : Option (Value n.Num)) (d : Text)
      → argument_text n name o ≡ ok d
      → IsContained d
  unfolding argument_text leaves_segment
  argument_text-IsContained name none d h = cc
  argument_text-IsContained name (some v) d h = contained d (ground arith) (ground arith)

  render_segment-IsContained :
      (args : Fields n.Num) (segment d : Text)
      → valid_tool_segment segment ≡ true
      → render_segment n args segment ≡ ok d
      → IsContained d
  unfolding render_segment
  render_segment-IsContained args segment d valid h = elim (Bool-cases (is_placeholder segment)) [
    | inl placed ↦
        argument_text-IsContained (placeholder_name segment) (get (placeholder_name segment) args) d
          (rw placed at h)
    | inr literal ↦ elim (Option-cases (path_unescape segment)) [
      | inl bad ↦ cc (rw (literal, bad) at h)
      | inr (u, e) ↦ valid_tool_segment-IsContained segment d valid (ground arith)
    ]
  ]

  map_results-IsContained :
      (args : Fields n.Num) (segs ds : List Text)
      → all segs valid_tool_segment ≡ true
      → map_results (render_segment n args) segs ≡ ok ds
      → All IsContained ds × (length ds ≡ length segs)
  unfolding map_results
  map_results-IsContained args [] ds valid h = ground arith
  map_results-IsContained args (s ∷ segs) ds valid h =
      let (d, found, rest) = bind-eq-ok (render_segment n args s) _ h in
      let (tail, later, same) = bind-eq-ok (map_results (render_segment n args) segs) _ rest in
      let here = render_segment-IsContained args s d (ground arith) found in
      let (contained_tail, sizes) = map_results-IsContained args segs tail (ground arith) later in
      let whole : d ∷ tail ≡ ds = cc in
      subst (λ l. All IsContained l × (length l ≡ suc (length segs))) whole
        ((here, contained_tail), ap suc sizes)

  -- The path of a validated template keeps its number of segments whatever the arguments are:
  -- each decoded segment is neither "." nor "..", and holds no separator and no backslash. The
  -- escaped path unescapes to the decoded path, segment by segment.
  pub render_typed_path-IsRendered :
      (template escaped decoded : Text) (args : Fields n.Num)
      → valid_http_tool_path template ≡ true
      → render_typed_path n template args ≡ ok (escaped, decoded)
      → All IsByte decoded
      → IsRendered template escaped decoded
  unfolding render_typed_path valid_http_tool_path
  render_typed_path-IsRendered template escaped decoded args valid h bytes =
      let (ds, found, e) =
        bind-eq-ok (map_results (render_segment n args) (split b'/' template)) _ h in
      let (segments, sizes) =
        map_results-IsContained args (split b'/' template) ds (ground arith) found in
      let joined : decoded ≡ join b'/' ds = cc in
      let same : split b'/' decoded ≡ ds =
        ap (split b'/') joined ∙ split-join_contained template ds segments sizes in
      let whole : escaped ≡ join b'/' (map path_escape (split b'/' decoded)) = cc in
      let both = join-path_escape decoded bytes in
      record {
        contained_segments = rw same segments;
        same_length = ap length same ∙ sizes;
        escapes_decoded = rw whole both.0;
        same_segments = rw whole both.1;
      }
