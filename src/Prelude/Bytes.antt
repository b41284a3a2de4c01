-- ===== src/Prelude/Bytes.antt =====
-- What all bytes of a text satisfy, they satisfy after a cut.
use mathlib.Core.Path.{◌≡◌, refl, ap, ◌∙◌}
use mathlib.Core.Bool.{Bool, true, ◌&&◌}
use mathlib.Core.List.{[], ◌∷◌, ◌++◌, reverse, reverse-append}
use Prim.Native.Nat.{ℕ, zero, suc}
use native.Mathlib.Omega.{arith}
use mcpshim.Prelude.Lists.{all, take}
use mcpshim.Prelude.Strings.{Text, trim_left, trim_both}

pub all-append : (p : ℕ → Bool) (a b : Text) → all (a ++ b) p ≡ (all a p && all b p)
all-append p [] b = refl
all-append p (c ∷ a) b = ground (arith, all-append p a b)

pub all-reverse : (p : ℕ → Bool) (s : Text) → all (reverse s) p ≡ all s p
all-reverse p [] = refl
all-reverse p (c ∷ s) =
    ap (λ t. all t p) (reverse-append (c ∷ []) s)
    ∙ all-append p (reverse s) (c ∷ [])
    ∙ ground (arith, all-reverse p s)

pub all-trim_left : (p q : ℕ → Bool) (s : Text) → all s p ≡ true → all (trim_left q s) p ≡ true
unfolding trim_left
all-trim_left p q [] h = refl
all-trim_left p q (c ∷ s) h = ground (arith, all-trim_left p q s)

pub all-trim_both : (p q : ℕ → Bool) (s : Text) → all s p ≡ true → all (trim_both q s) p ≡ true
unfolding trim_both
all-trim_both p q s h =
    let left = all-trim_left p q s h in
    let turned = all-reverse p (trim_left q s) ∙ left in
    all-reverse p (trim_left q (reverse (trim_left q s)))
    ∙ all-trim_left p q (reverse (trim_left q s)) turned

pub all-take : (p : ℕ → Bool) (n : ℕ) (s : Text) → all s p ≡ true → all (take n s) p ≡ true
all-take p zero s h = refl
all-take p (suc n) [] h = refl
all-take p (suc n) (c ∷ s) h = ground (arith, all-take p n s)
