-- ===== src/Base/Errors.antt =====
-- What may raise: a value, or the error that was raised.
use mathlib.Core.Path.{◌≡◌, refl, subst}
use mathlib.Core.Bool.{Bool, true, false}
use mathlib.Core.Logic.{◌⊎◌, inl, inr}

pub data Result {ℓ κ} (E : Type ℓ) (A : Type κ) : Type (ℓ ⊔ κ) where
  ok : A → Result E A
  err : E → Result E A

infixl 5 ◌>>=◌ ◌>>◌
-- A raised error ends a chain of steps.
abbrev pub ◌>>=◌ {ℓ κ μ} :
    {E : Type ℓ} {A : Type κ} {B : Type μ} → Result E A → (A → Result E B) → Result E B
err raised >>= next_step = err raised
ok value >>= next_step = next_step value

-- `if b: raise e`
abbrev pub raise_if {ℓ} : {E : Type ℓ} → Bool → E → Result E (Unit {0})
raise_if false e = ok tt
raise_if true e = err e

abbrev pub ◌>>◌ {ℓ κ} : {E : Type ℓ} {B : Type κ} → Result E (Unit {0}) → Result E B → Result E B
check >> rest = check >>= λ _. rest

-- A chain that raised nothing has a first step that raised nothing.
pub >>=-eq-ok {ℓ κ μ} :
    {E : Type ℓ} {A : Type κ} {B : Type μ} (step : Result E A) (rest : A → Result E B) {b : B}
    → (step >>= rest) ≡ ok b
    → (value : A) × (step ≡ ok value) × (rest value ≡ ok b)
>>=-eq-ok (err raised) rest h = cc
>>=-eq-ok (ok value) rest h = (value, refl, h)

pub Result-cases {ℓ κ} :
    {E : Type ℓ} {A : Type κ} (r : Result E A) → ((e : E) × (r ≡ err e)) ⊎ ((a : A) × (r ≡ ok a))
Result-cases (ok a) = inr (a, refl)
Result-cases (err e) = inl (e, refl)

-- `P` holds of the value, where there is one.
abbrev pub Ensures {ℓ κ μ} : {E : Type ℓ} {A : Type κ} → (A → Type μ) → Result E A → Type μ
Ensures P (ok a) = P a
Ensures P (err e) = Unit

module _ {ℓ κ μ} {E : Type ℓ} {A : Type κ} (P : A → Type μ) where
  pub Ensures-raise_if :
      (b : Bool) (e : E) (r : Result E A)
      → (b ≡ false → Ensures P r)
      → Ensures P (raise_if b e >>= λ _. r)
  Ensures-raise_if true e r h = tt
  Ensures-raise_if false e r h = h refl

  pub Ensures-bind {ν ξ} :
      {B : Type ν} (Q : B → Type ξ) (m : Result E B) (f : B → Result E A)
      → Ensures Q m
      → ((b : B) → Q b → Ensures P (f b))
      → Ensures P (m >>= f)
  Ensures-bind Q (ok b) f q h = h b q
  Ensures-bind Q (err e) f q h = tt

  pub Ensures-eq : (r : Result E A) {a : A} → Ensures P r → r ≡ ok a → P a
  Ensures-eq (ok b) {a = a} h e = let same : b ≡ a = cc in subst P same h
  Ensures-eq (err x) h e = cc

module _ {ℓ κ} {E : Type ℓ} {A : Type κ} where
  pub raise_if-ok :
      (b : Bool) (e : E) (r : Result E A) (a : A)
      → (raise_if b e >>= λ _. r) ≡ ok a
      → (b ≡ false) × (r ≡ ok a)
  raise_if-ok true e r a h = cc
  raise_if-ok false e r a h = (refl, h)

module _ {ℓ κ μ} {E : Type ℓ} {A : Type κ} (P : A → Type μ) where
  -- The rule for one step of a chain, with the value that the step gave.
  pub Ensures-then {ν} :
      {B : Type ν} (m : Result E B) (f : B → Result E A)
      → ((b : B) → m ≡ ok b → Ensures P (f b))
      → Ensures P (m >>= f)
  Ensures-then (ok b) f h = h b refl
  Ensures-then (err e) f h = tt

pub ok-injective {ℓ κ} :
    {E : Type ℓ} {A : Type κ} {a b : A} → ◌≡◌ {A = Result E A} (ok a) (ok b) → a ≡ b
ok-injective h = cc

-- A chain whose first step is known goes on with its value.
pub >>=-known {ℓ κ μ} :
    {E : Type ℓ} {A : Type κ} {B : Type μ} (step : Result E A) (rest : A → Result E B) {a : A}
    {r : Result E B}
    → step ≡ ok a
    → (step >>= rest) ≡ r
    → rest a ≡ r
>>=-known step rest {r = r} e h = subst (λ s. (s >>= rest) ≡ r) e h
