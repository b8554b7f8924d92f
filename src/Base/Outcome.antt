-- ===== src/Base/Outcome.antt =====
-- Code that may throw. An error is the message of the source's `throw`, with its `${…}` as written.
use Prim.Native.String.{String}
use mathlib.Core.Path.{◌≡◌, refl, subst}
use mathlib.Core.Bool.{Bool, true, false}
use mathlib.Core.Option.{Option, none, some}
use mathlib.Core.List.{List, [], ◌∷◌}
use openthrottle.Base.Tests.{if◌then◌else◌}

pub data Result {ℓ} (T : Type ℓ) : Type ℓ where
  err : (message : String) → Result T
  ok : (value : T) → Result T

-- A statement that may throw, and the statements behind it.
unfoldable pub ◌>>=◌ {μ ν} : {S : Type μ} {T : Type ν} → Result S → (S → Result T) → Result T
err message >>= rest = err message
ok value >>= rest = rest value

abbrev pub ◌>>◌ {μ} : {T : Type μ} → Result (Unit {0}) → Result T → Result T
check >> rest = check >>= λ passed. rest

infixl 5 ◌>>=◌ ◌>>◌
-- `if (…) throw new Error(…)`
unfoldable pub throw_if : Bool → String → Result (Unit {0})
throw_if true e = err e
throw_if false e = ok tt

-- `if (x === undefined) throw …`, and the value otherwise.
unfoldable pub or_throw {ℓ} : {A : Type ℓ} → Option A → String → Result A
or_throw none e = err e
or_throw (some a) e = ok a

-- `for (const x of xs) …` with a body that may throw.
module _ {ℓ} {A : Type ℓ} (f : A → Result (Unit {0})) where
  unfoldable pub for_each : List A → Result (Unit {0})
  for_each [] = ok tt
  for_each (x ∷ xs) = f x >> for_each xs

module _ {ℓ κ} {A : Type ℓ} {B : Type κ} (f : A → Result B) where
  unfoldable pub map_each : List A → Result (List B)
  map_each [] = ok []
  map_each (x ∷ xs) = f x >>= λ y. map_each xs >>= λ ys. ok (y ∷ ys)

-- What holds of every value that `r` returns.
pub record Ensures {ℓ κ} {A : Type ℓ} (P : A → Type κ) (r : Result A) : Type (ℓ ⊔ κ) where
  pub at : (a : A) → r ≡ ok a → P a

-- Inversion of a chain that returned.
pub >>=-eq-ok {μ ν} :
    {S : Type μ} {T : Type ν} (first : Result S) (rest : S → Result T) {value : T}
    → (first >>= rest) ≡ ok value
    → (s : S) × (first ≡ ok s) × (rest s ≡ ok value)
unfolding ◌>>=◌
>>=-eq-ok (err message) rest returned = cc
>>=-eq-ok (ok s) rest returned = (s, refl, returned)

-- A first statement that returns.
pub >>=-ok {μ ν} :
    {S : Type μ} {T : Type ν} (first : Result S) (rest : S → Result T) {s : S}
    → first ≡ ok s
    → (first >>= rest) ≡ rest s
unfolding ◌>>=◌
>>=-ok (err message) rest e = cc
>>=-ok (ok s) rest e = cc

pub throw_if-eq-ok : (b : Bool) (e : String) {u : Unit {0}} → throw_if b e ≡ ok u → b ≡ false
unfolding throw_if
throw_if-eq-ok true e h = cc
throw_if-eq-ok false e h = refl

pub or_throw-eq-ok {ℓ} :
    {A : Type ℓ} (o : Option A) (e : String) {a : A} → or_throw o e ≡ ok a → o ≡ some a
unfolding or_throw
or_throw-eq-ok none e h = cc
or_throw-eq-ok (some a) e h = cc

-- A guard that passes.
pub throw_if-false {ℓ} :
    {B : Type ℓ} (b : Bool) (e : String) (r : Result B) → b ≡ false → (throw_if b e >> r) ≡ r
unfolding throw_if ◌>>=◌
throw_if-false true e r h = cc
throw_if-false false e r h = refl

module _ {ℓ κ} {A : Type ℓ} {P : A → Type κ} where
  pub Ensures-ok : (a : A) → P a → Ensures P (ok a)
  Ensures-ok a p = record { at = λ b e. subst P (ok_injective e) p }
    where
      ok_injective : {a b : A} → ok a ≡ ok b → a ≡ b
      ok_injective e = cc

  pub Ensures-err : (message : String) → Ensures P (err message)
  Ensures-err message = record { at = λ a e. cc }

  pub Ensures-if :
      (b : Bool) (x y : Result A)
      → (b ≡ true → Ensures P x)
      → (b ≡ false → Ensures P y)
      → Ensures P (if b then x else y)
  Ensures-if true x y p q = p refl
  Ensures-if false x y p q = q refl

  pub Ensures-bind {μ} :
      {B : Type μ} (m : Result B) (f : B → Result A)
      → ((b : B) → m ≡ ok b → Ensures P (f b))
      → Ensures P (m >>= f)
  unfolding ◌>>=◌
  Ensures-bind (ok b) f h = h b refl
  Ensures-bind (err e) f h = record { at = λ a e'. cc }

  pub Ensures-throw_if :
      (b : Bool) (e : String) (f : Unit {0} → Result A)
      → (b ≡ false → Ensures P (f tt))
      → Ensures P (throw_if b e >>= f)
  unfolding throw_if ◌>>=◌
  Ensures-throw_if true e f h = record { at = λ a e'. cc }
  Ensures-throw_if false e f h = h refl
