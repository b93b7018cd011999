-- ===== src/Core/Result.antt =====
-- include/puppet_master/core/result.h: a value or an error status.
use puppet_master.Core.Status.{Status, internal, error, is_ok}
use puppet_master.Base.{◌≡◌, refl, ◌⊎◌, inl, inr, if◌then◌else◌}

pub data Result {ℓ} (A : Type ℓ) : Type ℓ where
  value : A → Result A
  failure : Status → Result A

module _ {ℓ} {A : Type ℓ} where
  -- `Result::FromStatus`: a status that says OK becomes an internal error.
  abbrev pub from_status : Status → Result A
  from_status s =
      failure (
        if is_ok s then error internal "Result<T> cannot store an OK status without a value" else s)

-- An early return with the status of a result that is not OK.
infixl 5 ◌>>=◌
abbrev pub ◌>>=◌ {ℓ κ} : {A : Type ℓ} {B : Type κ} → Result A → (A → Result B) → Result B
failure s >>= f = from_status s
value a >>= f = f a

-- To split on a computed result and keep the equation.
pub Result-cases {ℓ} :
    {A : Type ℓ} (r : Result A) → ((a : A) × (r ≡ value a)) ⊎ ((e : Status) × (r ≡ failure e))
Result-cases (value a) = inl (a, refl)
Result-cases (failure e) = inr (e, refl)

-- What holds of both branches of a case on a result, with what it is.
pub result_cases {ℓ κ μ} :
    {A : Type ℓ} {B : Type μ} (P : B → Type κ) (r : Result A) (f : Status → B) (g : A → B)
    → ((e : Status) → r ≡ failure e → P (f e))
    → ((a : A) → r ≡ value a → P (g a))
    → P (elim r [ failure e ↦ f e | value a ↦ g a ])
result_cases P (failure e) f g hf hg = hf e refl
result_cases P (value a) f g hf hg = hg a refl

-- What was computed before a value was returned.
pub value-bind {ℓ κ} :
    {A : Type ℓ} {B : Type κ} (r : Result A) (f : A → Result B) (b : B)
    → (r >>= f) ≡ value b
    → (a : A) × ((r ≡ value a) × (f a ≡ value b))
value-bind (failure s) f b h = cc
value-bind (value a) f b h = (a, (refl, h))
