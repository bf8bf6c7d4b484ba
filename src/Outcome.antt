-- ===== src/Outcome.antt =====
-- C++ exceptions as values. The sources throw the standard classes with a message of their own;
-- `std::get` on a variant and `std::map::at` throw with a message that the standard library chooses.
use forgeant.Prelude.{String, ◌≡◌, refl, ◌⊎◌, inl, inr}

pub data Exception : Type 0 where
  runtime_error invalid_argument out_of_range : String → Exception
  -- `std::get<T>` where the variant holds another alternative
  bad_variant_access : Exception
  -- `std::map::at` at a missing key
  missing_key : Exception

pub data Outcome {ℓ} (A : Type ℓ) : Type ℓ where
  ok : A → Outcome A
  throw : Exception → Outcome A

-- A split on a call that keeps the equation.
pub Outcome-cases {ℓ} :
    {A : Type ℓ} (r : Outcome A) → ((a : A) × (r ≡ ok a)) ⊎ ((e : Exception) × (r ≡ throw e))
Outcome-cases (ok a) = inl (a, refl)
Outcome-cases (throw e) = inr (e, refl)

-- The exception of the first call ends the sequence.
infixl 5 ◌>>=◌ ◌>>◌
abbrev pub ◌>>=◌ {ℓ κ} :
    {Done : Type ℓ} {Next : Type κ} → Outcome Done → (Done → Outcome Next) → Outcome Next
throw x >>= next = throw x
ok done >>= next = next done

abbrev pub ◌>>◌ {ℓ} : {Next : Type ℓ} → Outcome (Unit {0}) → Outcome Next → Outcome Next
call >> next = call >>= λ _. next
