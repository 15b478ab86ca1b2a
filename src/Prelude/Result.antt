-- ===== src/Prelude/Result.antt =====
-- Code that may raise: a value or the exception, by its type's name and its message.
use Prim.Native.String.{String}
use mathlib.Core.Path.{◌≡◌, refl, ap, ◌∙◌}
use mathlib.Core.Logic.{◌⊎◌, inl, inr}

pub record Error : Type 0 where
  pub kind : String
  pub message : String

pub data Result {ℓ} (A : Type ℓ) : Type ℓ where
  ok : A → Result A
  err : Error → Result A

infixl 5 ◌>>=◌
abbrev pub ◌>>=◌ {ℓ κ} : {A : Type ℓ} {B : Type κ} → Result A → (A → Result B) → Result B
ok a >>= f = f a
err e >>= f = err e

-- `raise kind(message)`
abbrev pub raise {ℓ} : {A : Type ℓ} → String → String → Result A
raise kind message = err (record { kind = kind; message = message })

-- A chain that succeeds has succeeded at each step.
pub >>=-eq-ok {ℓ κ} :
    {A : Type ℓ} {B : Type κ} (m : Result A) (f : A → Result B) (b : B)
    → (m >>= f) ≡ ok b
    → (a : A) × (m ≡ ok a) × (f a ≡ ok b)
>>=-eq-ok (ok a) f b h = (a, refl, h)
>>=-eq-ok (err e) f b h = cc

-- The same for a second step that does not use what the first gives
pub then-eq-ok {ℓ κ} :
    {A : Type ℓ} {B : Type κ} (m : Result A) (n : Result B) (b : B)
    → (m >>= λ a. n) ≡ ok b
    → ((a : A) × (m ≡ ok a)) × (n ≡ ok b)
then-eq-ok (ok a) n b h = ((a, refl), h)
then-eq-ok (err e) n b h = cc

pub ok-injective {ℓ} : {A : Type ℓ} (a b : A) → ok a ≡ ok b → a ≡ b
ok-injective a b h = cc

-- A chain goes on from what its first step gives.
pub >>=-ok {ℓ κ} :
    {A : Type ℓ} {B : Type κ} (m : Result A) (f : A → Result B) (a : A) (r : Result B)
    → m ≡ ok a
    → f a ≡ r
    → (m >>= f) ≡ r
>>=-ok (ok a') f a r h e = ap f (ok-injective a' a h) ∙ e
>>=-ok (err e') f a r h e = cc

-- A computation succeeds or raises, with the equation that says so.
pub Result-cases {ℓ} :
    {A : Type ℓ} (r : Result A) → ((a : A) × (r ≡ ok a)) ⊎ ((e : Error) × (r ≡ err e))
Result-cases (ok a) = inl (a, refl)
Result-cases (err e) = inr (e, refl)
