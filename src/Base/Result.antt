-- ===== src/Base/Result.antt =====
-- Python exceptions as values: a call returns, or raises.
use organization_ai.Base.{inl, inr, ◌⊎◌, String, ◌≡◌, refl}

-- The built-in exceptions that the code raises. pydantic's `ValidationError` is a `ValueError`.
pub data PyError : Type 0 where
  value_error : String → PyError
  key_error : String → PyError
  assertion_error : PyError

pub data Result {ℓ κ} (E : Type ℓ) (A : Type κ) : Type (ℓ ⊔ κ) where
  ok : A → Result E A
  err : E → Result E A

infixl 5 ◌>>=◌
-- A raise ends the chain; a returned value goes to the next call.
abbrev pub ◌>>=◌ {ε α β} :
    {B : Type β} {A : Type α} {E : Type ε} → Result E A → (A → Result E B) → Result E B
err raised >>= next = err raised
ok value >>= next = next value

pub bind-ok {ℓ κ} : {E : Type ℓ} {A : Type κ} (m : Result E A) → (m >>= λ a. ok a) ≡ m
bind-ok (ok a) = refl
bind-ok (err e) = refl

pub ok-injective {ℓ κ} :
    {E : Type ℓ} {A : Type κ} {a b : A} → ◌≡◌ {A = Result E A} (ok a) (ok b) → a ≡ b
ok-injective p = cc

pub err-injective {ℓ κ} :
    {E : Type ℓ} {A : Type κ} {a b : E} → ◌≡◌ {A = Result E A} (err a) (err b) → a ≡ b
err-injective p = cc

-- The call returns, and its value has the property.
abbrev pub Gives {ℓ κ} : {E : Type ℓ} {A : Type κ} → (A → Type 0) → Result E A → Type 0
Gives P (ok a) = P a
Gives P (err _) = ⊥

pub Gives-map {ℓ κ} :
    {E : Type ℓ} {A : Type κ} {P Q : A → Type 0} (r : Result E A)
    → ((a : A) → P a → Q a)
    → Gives P r
    → Gives Q r
Gives-map (ok a) f h = f a h
Gives-map (err _) f h = absurd h

pub Result-cases {ℓ κ} :
    {E : Type ℓ} {A : Type κ} (r : Result E A) → ((a : A) × (r ≡ ok a)) ⊎ ((e : E) × (r ≡ err e))
Result-cases (ok a) = inl (a, refl)
Result-cases (err e) = inr (e, refl)

-- A chain that returns has returned at its first call.
pub >>=-ok {ε α β} :
    {E : Type ε} {B : Type β} {A : Type α} (first : Result E A) (next : A → Result E B) {b : B}
    → (first >>= next) ≡ ok b
    → (a : A) × (next a ≡ ok b) × (first ≡ ok a)
>>=-ok (err raised) next h = absurd (cc)
>>=-ok (ok value) next h = (value, h, refl)
