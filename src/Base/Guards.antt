-- ===== src/Base/Guards.antt =====
-- When a chain of guards passes.
use Prim.Native.String.{String}
use mathlib.Core.Path.{◌≡◌, refl}
use mathlib.Core.Logic.{◌↔◌}
use mathlib.Core.Bool.{Bool, true, false, not}
use mathlib.Core.List.{List, [], ◌∷◌}
use native.Mathlib.Omega.{arith}
use openthrottle.Base.Lists.{all}
use openthrottle.Base.Outcome.{Result, err, ok, ◌>>=◌, ◌>>◌, throw_if, for_each}

-- A check that returns nothing has passed.
abbrev pub Passes : Result (Unit {0}) → Type 0
Passes r = r ≡ ok tt

pub Passes-throw_if : (b : Bool) (message : String) → Passes (throw_if b message) ↔ (b ≡ false)
unfolding throw_if
Passes-throw_if true message = (λ h. cc, λ h. cc)
Passes-throw_if false message = (λ h. refl, λ h. refl)

pub Passes-then :
    (first rest : Result (Unit {0})) → Passes (first >> rest) ↔ (Passes first × Passes rest)
unfolding ◌>>=◌
Passes-then (ok tt) rest = (λ h. (refl, h), λ h. h.1)
Passes-then (err m) rest = (λ h. cc, λ h. cc)

pub Passes-for_each {ℓ} :
    {A : Type ℓ} (check : A → Result (Unit {0})) (p : A → Bool)
    → ((a : A) → Passes (check a) ↔ (p a ≡ true))
    → (xs : List A) → Passes (for_each check xs) ↔ (all p xs ≡ true)
unfolding for_each all
Passes-for_each check p h [] = (λ _. refl, λ _. refl)
Passes-for_each check p h (x ∷ xs) =
    ground (arith, h x, Passes-for_each check p h xs, Passes-then (check x) (for_each check xs))

pub Passes-unless : (b : Bool) (message : String) → Passes (throw_if (not b) message) ↔ (b ≡ true)
unfolding throw_if
Passes-unless true message = (λ h. refl, λ h. refl)
Passes-unless false message = (λ h. cc, λ h. cc)
