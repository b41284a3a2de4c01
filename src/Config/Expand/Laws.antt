-- ===== src/Config/Expand/Laws.antt =====
-- The result of the expansion on texts with and without references.
use mcpshim.Prelude.{
  ℕ, zero, suc, ◌≡◌, refl, ap, ◌∙◌, ◌≤◌, ◌<◌, ◌+◌, false, some, [], ◌∷◌, ◌++◌, arith, ◌==◌,
  if◌then◌else◌, length, is_empty, length-append, Text, has_byte, inl, inr, Option-cases, fun_ext,
}
use mcpshim.Config.Expand.{
  Env, Expansion, cut_byte, span_var, write, expand_spec, expand_dollar, expand_loop,
  expand_env_strict, lookup_env, getenv, cut_default,
}

-- The text in which every `$` is doubled.
unfoldable pub escape : Text → Text
escape [] = []
escape (c ∷ s) = if c == b'$' then b'$' ∷ b'$' ∷ escape s else c ∷ escape s

span_var-le : (s : Text) → length (span_var s).1 ≤ length s
unfolding span_var
span_var-le [] = omega arith
span_var-le (c ∷ s) = ground (arith, span_var-le s)

cut_byte-lt :
    (b : ℕ) (s spec after : Text) → cut_byte b s ≡ some (spec, after) → length after < length s
unfolding cut_byte
cut_byte-lt b [] spec after h = ground arith
cut_byte-lt b (x ∷ s) spec after h = elim (Option-cases (cut_byte b s)) [
  | inl e ↦ ground (arith, e)
  | inr (p, e) ↦ ground (arith, e, cut_byte-lt b s p.0 p.1)
]

expand_spec-agrees :
    (env : Env) (k k' : Text → Expansion) (spec missing : Text)
    → ((m : Text) → k m ≡ k' m)
    → expand_spec env k spec missing ≡ expand_spec env k' spec missing
expand_spec-agrees env k k' spec missing h = ap (λ j. expand_spec env j spec missing) (fun_ext h)

expand_dollar-agrees :
    (env : Env) (k k' : Text → Text → Expansion) (s missing : Text)
    → ((t m : Text) → length t ≤ length s → k t m ≡ k' t m)
    → expand_dollar env k s missing ≡ expand_dollar env k' s missing
unfolding expand_dollar
expand_dollar-agrees env k k' [] missing h = rw (h [] missing (omega arith))
expand_dollar-agrees env k k' (c ∷ s) missing h =
    let (v, missing') = lookup_env env (c ∷ (span_var s).0) missing in
    let one = h s missing (omega arith) in
    let all = h (c ∷ s) missing (omega arith) in
    let name = h (span_var s).1 missing' (omega (arith, span_var-le s)) in
    elim (Option-cases (cut_byte b'}' s)) [
      | inl e ↦ ground (arith, one, all, name, e)
      | inr ((spec, after), e) ↦
          let spec_rest =
            expand_spec-agrees env (k after) (k' after) spec missing
              (λ m. h after m (omega (arith, cut_byte-lt b'}' s spec after e))) in
          ground (arith, one, all, name, e, spec_rest)
    ]

-- The loop ends by reaching the end of the text: with the length as fuel, or more, the fuel is
-- never spent before the text is. The result is the same for all such fuels, and whatever stands
-- for spent fuel.
pub expand_loop_fuel :
    (env : Env) (spent spent' : Expansion) (f g : ℕ) (s missing : Text)
    → length s ≤ f
    → length s ≤ g
    → expand_loop env spent f s missing ≡ expand_loop env spent' g s missing
unfolding expand_loop
expand_loop_fuel env spent spent' zero zero [] missing h k = refl
expand_loop_fuel env spent spent' zero (suc g) [] missing h k = refl
expand_loop_fuel env spent spent' zero g (c ∷ s) missing h k = absurd (omega arith)
expand_loop_fuel env spent spent' (suc f) zero [] missing h k = refl
expand_loop_fuel env spent spent' (suc f) zero (c ∷ s) missing h k = absurd (omega arith)
expand_loop_fuel env spent spent' (suc f) (suc g) [] missing h k = refl
expand_loop_fuel env spent spent' (suc f) (suc g) (c ∷ s) missing h k = rw (
  expand_loop_fuel env spent spent' f g s missing (omega arith) (omega arith),
  expand_dollar-agrees env (expand_loop env spent f) (expand_loop env spent' g) s missing
      (λ t m l. expand_loop_fuel env spent spent' f g t m (omega arith) (omega arith)),
)

expand_loop-escape :
    (env : Env) (spent : Expansion) (f : ℕ) (s missing : Text)
    → length (escape s) ≤ f
    → expand_loop env spent f (escape s) missing ≡ (s, missing)
unfolding expand_loop escape
expand_loop-escape env spent zero [] missing h = refl
expand_loop-escape env spent (suc f) [] missing h = refl
expand_loop-escape env spent zero (c ∷ s) missing h = absurd (ground arith)
expand_loop-escape env spent (suc zero) (c ∷ s) missing h =
    ground (arith, expand_loop-escape env spent zero s missing)
expand_loop-escape env spent (suc (suc f)) (c ∷ s) missing h = ground (
  arith,
  expand_loop-escape env spent (suc f) s missing,
  expand_loop_fuel env spent spent f (suc f) (escape s) missing,
)

-- A text whose every `$` is doubled expands to the text itself, and misses no variable, whatever
-- the environment.
pub expand_env_strict-escape : (env : Env) (s : Text) → expand_env_strict env (escape s) ≡ (s, [])
unfolding expand_env_strict
expand_env_strict-escape env s =
    expand_loop-escape env ([], []) (length (escape s)) s [] (omega arith)

cut_default-append :
    (name fallback : Text)
    → has_byte b':' name ≡ false
    → cut_default (name ++ b':' ∷ b'-' ∷ fallback) ≡ some (name, fallback)
unfolding cut_default has_byte
cut_default-append [] fallback h = refl
cut_default-append (x ∷ []) fallback h = ground arith
cut_default-append (x ∷ y ∷ name) fallback h =
    ground (arith, cut_default-append (y ∷ name) fallback)

cut_byte-append :
    (b : ℕ) (spec after : Text)
    → has_byte b spec ≡ false
    → cut_byte b (spec ++ b ∷ after) ≡ some (spec, after)
unfolding cut_byte has_byte
cut_byte-append b [] after h = ground arith
cut_byte-append b (x ∷ spec) after h = ground (arith, cut_byte-append b spec after)

expand_dollar-default :
    (env : Env) (k : Text → Text → Expansion) (name fallback rest missing : Text)
    → has_byte b':' name ≡ false
    → has_byte b'}' (name ++ b':' ∷ b'-' ∷ fallback) ≡ false
    → expand_dollar env k (b'{' ∷ ((name ++ b':' ∷ b'-' ∷ fallback) ++ b'}' ∷ rest)) missing
      ≡ write (if is_empty (getenv env name) then fallback else getenv env name) (k rest missing)
unfolding expand_dollar
expand_dollar-default env k name fallback rest missing h j =
    rw (cut_byte-append b'}' (name ++ b':' ∷ b'-' ∷ fallback) rest j, expand_dollar)
      (rw (cut_default-append name fallback h, expand_spec) refl)

-- Text before the first `$` is copied.
expand_loop-plain :
    (env : Env) (spent : Expansion) (pre s missing : Text) (f : ℕ)
    → has_byte b'$' pre ≡ false
    → length pre + length s ≤ f
    → expand_loop env spent f (pre ++ s) missing ≡ write pre (expand_loop env spent f s missing)
unfolding expand_loop has_byte
expand_loop-plain env spent [] s missing f h l = refl
expand_loop-plain env spent (c ∷ pre) s missing zero h l = absurd (omega arith)
expand_loop-plain env spent (c ∷ pre) s missing (suc f) h l = ground (
  arith,
  expand_loop-plain env spent pre s missing f,
  expand_loop_fuel env spent spent f (suc f) s missing,
)

-- A reference `${NAME:-fallback}` behind text with no `$` is replaced by the value of NAME, and by
-- the fallback where NAME is unset or empty; the rest is expanded, and nothing but the rest can
-- report a missing variable.
pub expand_env_strict-default :
    (env : Env) (pre name fallback rest : Text)
    → has_byte b'$' pre ≡ false
    → has_byte b':' name ≡ false
    → has_byte b'}' (name ++ b':' ∷ b'-' ∷ fallback) ≡ false
    → expand_env_strict env (pre ++ b'$' ∷ b'{' ∷ ((name ++ b':' ∷ b'-' ∷ fallback) ++ b'}' ∷ rest))
      ≡ write pre (
          write
            (if is_empty (getenv env name) then fallback else getenv env name)
            (expand_env_strict env rest))
unfolding expand_env_strict
expand_env_strict-default env pre name fallback rest p h j =
    let body = (name ++ b':' ∷ b'-' ∷ fallback) ++ b'}' ∷ rest in
    let all = pre ++ b'$' ∷ b'{' ∷ body in
    let sizes = length-append pre (b'$' ∷ b'{' ∷ body) in
    let tail = length-append (name ++ b':' ∷ b'-' ∷ fallback) (b'}' ∷ rest) in
    expand_loop-plain env ([], []) pre (b'$' ∷ b'{' ∷ body) [] (length all) p (omega (arith, sizes))
    ∙ ap (write pre) (
        expand_loop_fuel env ([], []) ([], []) (length all) (suc (suc (length body)))
          (b'$' ∷ b'{' ∷ body) [] (omega (arith, sizes)) (omega arith)
        ∙ expand_dollar-default env (expand_loop env ([], []) (suc (length body))) name fallback
            rest [] h j
        ∙ ap (write (if is_empty (getenv env name) then fallback else getenv env name)) (
            expand_loop_fuel env ([], []) ([], []) (suc (length body)) (length rest) rest []
              (omega (arith, tail)) (omega arith)))
