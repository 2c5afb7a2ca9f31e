-- ===== src/Prelude/Raises.antt =====
-- The exceptions that the modelled code raises, and code that may raise one.
use mathlib.Core.Path.{◌≡◌, refl, subst}
use mathlib.Core.Logic.{◌⊎◌, inl, inr}

pub data Exception : Type 0 where
  value_error key_error index_error type_error attribute_error : Exception
  integrity_error not_implemented_error runtime_error : Exception
  -- The program's own classes.
  unknown_schema missing_project_bootstrap : Exception
  circular_dependency missing_dependency duplicate_projection invalid_dependency_kind : Exception

-- What a call that may raise gives.
pub data Result {ℓ} (Value : Type ℓ) : Type ℓ where
  raise : Exception → Result Value
  ok : Value → Result Value

module _ {ℓ κ} {X : Type ℓ} {Y : Type κ} where
  infixl 5 ◌>>=◌
  abbrev pub ◌>>=◌ : Result X → (X → Result Y) → Result Y
  raise exception >>= next = raise exception
  ok value >>= next = next value

  -- A chain that gives a value went through its first call.
  pub >>=-inv :
      {y : Y} (call : Result X) (next : X → Result Y)
      → (call >>= next) ≡ ok y
      → (x : X) × (call ≡ ok x) × (next x ≡ ok y)
  >>=-inv (raise exception) next through = cc
  >>=-inv (ok value) next through = (value, refl, through)

infixl 5 ◌>>◌
abbrev pub ◌>>◌ {κ} : {Y : Type κ} → Result (Unit {0}) → Result Y → Result Y
first >> second = first >>= λ _. second

pub Result-cases {ℓ} :
    {X : Type ℓ} (call : Result X)
    → ((x : X) × (call ≡ ok x)) ⊎ ((e : Exception) × (call ≡ raise e))
Result-cases (ok x) = inl (x, refl)
Result-cases (raise e) = inr (e, refl)

-- What holds of the value, where there is one.
abbrev pub Ensures {ℓ κ} : {X : Type ℓ} → (X → Type κ) → Result X → Type κ
Ensures P (ok x) = P x
Ensures P (raise e) = Unit

pub Ensures-ok {ℓ κ} :
    {X : Type ℓ} (P : X → Type κ) (call : Result X) (x : X) → Ensures P call → call ≡ ok x → P x
Ensures-ok P (ok y) x h e = let c : y ≡ x = cc e in subst P c h
Ensures-ok P (raise y) x h e = absurd (cc e)
