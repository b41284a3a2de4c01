-- ===== src/Config/Expand/Missing.antt =====
-- The second result of the expansion: the first variable that is referenced and unset.
use mcpshim.Prelude.{
  ℕ, zero, suc, ◌≡◌, ◌≢◌, refl, ◌∙◌, Bool, true, false, none, [], ◌∷◌, ◌==◌, is_empty, Text, not,
  if◌then◌else◌, length, inl, inr, Option-cases,
}
use mcpshim.Config.Expand.{
  Env, Expansion, cut_byte, expand_spec, expand_dollar, expand_loop, expand_env_strict, lookup_env,
  cut_default, span_var, is_var_start,
}

-- What an expansion started with `missing` may end with: the same, nothing, or an unset variable.
data Reports (env : Env) (missing r : Text) : Type 0 where
  kept : r ≡ missing → Reports env missing r
  silent : r ≡ [] → Reports env missing r
  found : env r ≡ none → Reports env missing r

Reports-trans : (env : Env) (a b c : Text) → Reports env a b → Reports env b c → Reports env a c
Reports-trans env a b c (kept e) k = rw (← e) k
Reports-trans env a b c (silent e) (kept e') = silent (e' ∙ e)
Reports-trans env a b c (found n) (kept e') = found (rw e' n)
Reports-trans env a b c (silent e) (silent e') = silent e'
Reports-trans env a b c (found n) (silent e') = silent e'
Reports-trans env a b c (silent e) (found n') = found n'
Reports-trans env a b c (found n) (found n') = found n'

Reports-if :
    (env : Env) (missing : Text) (b : Bool) (x y : Expansion)
    → Reports env missing x.1
    → Reports env missing y.1
    → Reports env missing (if b then x else y).1
Reports-if env missing true x y hx hy = hx
Reports-if env missing false x y hx hy = hy

lookup_env-Reports :
    (env : Env) (name missing : Text) → Reports env missing (lookup_env env name missing).1
unfolding lookup_env
lookup_env-Reports env name missing = elim (Option-cases (env name)) [
  | inl unset ↦ rw (unset, lookup_env) (first name missing unset)
  | inr (v, set) ↦ rw (set, lookup_env) (kept refl)
]
  where
    first :
        (name missing : Text)
        → env name ≡ none
        → Reports env missing (if is_empty missing then name else missing)
    first name [] h = found h
    first name (c ∷ m) h = kept refl

-- What follows reports faithfully, from whatever `missing` it is given.
abbrev Faithful : Env → (Text → Expansion) → Type 0
Faithful env k = (m : Text) → Reports env m (k m).1

-- A variable is looked up and the expansion goes on.
lookup_env-then :
    (env : Env) (k : Text → Expansion) (name missing : Text)
    → Faithful env k
    → Reports env missing (k (lookup_env env name missing).1).1
lookup_env-then env k name missing h =
    Reports-trans env _ _ _ (lookup_env-Reports env name missing) (h _)

expand_spec-Reports :
    (env : Env) (rest : Text → Expansion) (spec missing : Text)
    → Faithful env rest
    → Reports env missing (expand_spec env rest spec missing).1
unfolding expand_spec
expand_spec-Reports env rest spec missing h = elim (Option-cases (cut_default spec)) [
  | inl e ↦ rw (e, expand_spec) (lookup_env-then env rest spec missing h)
  | inr (p, e) ↦ rw (e, expand_spec) (h missing)
]

expand_dollar-Reports :
    (env : Env) (k : Text → Text → Expansion) (s missing : Text)
    → ((t : Text) → Faithful env (k t))
    → Reports env missing (expand_dollar env k s missing).1
unfolding expand_dollar
expand_dollar-Reports env k [] missing h = h [] missing
expand_dollar-Reports env k (c ∷ s) missing h =
    let name = lookup_env-then env (k (span_var s).1) (c ∷ (span_var s).0) missing (h _) in
    let plain = Reports-if env missing (not (is_var_start c)) _ _ (h (c ∷ s) missing) name in
    elim (Option-cases (cut_byte b'}' s)) [
      | inl e ↦
          rw (e, expand_dollar)
            (Reports-if env missing (c == b'$') _ _ (h s missing)
              (Reports-if env missing (c == b'{') _ _ (h (c ∷ s) missing) plain))
      | inr ((spec, after), e) ↦
          rw (e, expand_dollar)
            (Reports-if env missing (c == b'$') _ _ (h s missing) (
              Reports-if env missing (c == b'{') _ _
                (expand_spec-Reports env (k after) spec missing (h after)) plain))
    ]

expand_loop-Reports :
    (env : Env) (f : ℕ) (s missing : Text)
    → Reports env missing (expand_loop env ([], []) f s missing).1
unfolding expand_loop
expand_loop-Reports env zero [] missing = kept refl
expand_loop-Reports env zero (c ∷ s) missing = silent refl
expand_loop-Reports env (suc f) [] missing = kept refl
expand_loop-Reports env (suc f) (c ∷ s) missing =
    Reports-if env missing (not (c == b'$')) _ _ (expand_loop-Reports env f s missing) (
      expand_dollar-Reports env (expand_loop env ([], []) f) s missing
        (λ t m. expand_loop-Reports env f t m))

-- A variable reported as missing is unset.
pub expand_env_strict-unset :
    (env : Env) (s : Text)
    → (expand_env_strict env s).1 ≢ []
    → env (expand_env_strict env s).1 ≡ none
unfolding expand_env_strict
expand_env_strict-unset env s h = of (expand_loop-Reports env (length s) s []) h
  where
    of : {r : Text} → Reports env [] r → r ≢ [] → env r ≡ none
    of (kept e) ne = absurd (ne e)
    of (silent e) ne = absurd (ne e)
    of (found n) ne = n
