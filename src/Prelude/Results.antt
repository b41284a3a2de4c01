-- ===== src/Prelude/Results.antt =====
-- A Go result `(A, error)` whose error is a value of `E`.
use mathlib.Core.Path.{◌≡◌, refl}
use mathlib.Core.Bool.{Bool, true, false, not}
use mathlib.Core.Logic.{◌⊎◌, inl, inr}
use mathlib.Core.List.{List, [], ◌∷◌}

pub data Result {ℓ} (E A : Type ℓ) : Type ℓ where
  ok : A → Result E A
  err : E → Result E A

infixl 5 ◌>>=◌ ◌>>◌
abbrev pub ◌>>=◌ {ℓ} : {E A B : Type ℓ} → Result E A → (A → Result E B) → Result E B
ok a >>= next = next a
err e >>= next = err e

abbrev pub ◌>>◌ {ℓ} : {E B : Type ℓ} → Result E (Unit {ℓ}) → Result E B → Result E B
m >> k = m >>= λ _. k

-- `if !test { return err }`
abbrev pub guard {ℓ} : {E : Type ℓ} → Bool → E → Result E (Unit {ℓ})
guard true e = ok tt
guard false e = err e

module _ {ℓ} {E A B : Type ℓ} where
  pub bind-eq-ok :
      (m : Result E A) (next : A → Result E B) {b : B}
      → m >>= next ≡ ok b
      → (a : A) × (m ≡ ok a) × (next a ≡ ok b)
  bind-eq-ok (ok a) next e = (a, refl, e)
  bind-eq-ok (err _) next e = cc

  -- A loop that collects one result for each element and stops at the first error.
  unfoldable pub map_results : (A → Result E B) → List A → Result E (List B)
  map_results f [] = ok []
  map_results f (x ∷ xs) = let rest = map_results f xs in f x >>= λ y. rest >>= λ ys. ok (y ∷ ys)

pub guard-eq-ok {ℓ} :
    {E B : Type ℓ} (t : Bool) (e : E) (k : Result E B) {b : B}
    → guard t e >> k ≡ ok b
    → (t ≡ true) × (k ≡ ok b)
guard-eq-ok true e k h = (refl, h)
guard-eq-ok false e k h = cc

module _ {ℓ} {E A : Type ℓ} where
  -- A loop that stops at the first element with an error.
  unfoldable pub check_all : (A → Result E (Unit {ℓ})) → List A → Result E (Unit {ℓ})
  check_all f [] = ok tt
  check_all f (x ∷ xs) = let rest = check_all f xs in f x >>= λ _. rest

  pub Result-cases : (r : Result E A) → ((e : E) × (r ≡ err e)) ⊎ ((a : A) × (r ≡ ok a))
  Result-cases (ok a) = inr (a, refl)
  Result-cases (err e) = inl (e, refl)

-- fmt.Errorf around an error, with %w
abbrev pub map_err {ℓ} : {E F A : Type ℓ} → (E → F) → Result E A → Result F A
map_err f (ok a) = ok a
map_err f (err e) = err (f e)

pub map_err-eq-ok {ℓ} :
    {E F A : Type ℓ} (f : E → F) (r : Result E A) {a : A} → map_err f r ≡ ok a → r ≡ ok a
map_err-eq-ok f (ok a) h = cc
map_err-eq-ok f (err e) h = cc

pub then-eq-ok {ℓ} :
    {E B : Type ℓ} (m : Result E (Unit {ℓ})) (k : Result E B) {b : B}
    → m >> k ≡ ok b
    → (m ≡ ok tt) × (k ≡ ok b)
then-eq-ok (ok u) k h = (refl, h)
then-eq-ok (err e) k h = cc

pub refused-eq-ok {ℓ} : {E : Type ℓ} (b : Bool) (e : E) → guard (not b) e ≡ ok tt → b ≡ false
refused-eq-ok true e h = cc
refused-eq-ok false e h = refl
