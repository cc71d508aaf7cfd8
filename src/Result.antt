-- ===== src/Result.antt =====
-- include/exceptions.hpp and the standard exceptions that the code throws, as values. Two more
-- outcomes are written out: undefined behaviour, and a loop that the model's fuel does not cover.

use technopark_highload.Prelude.{◌≡◌, refl, ◌⊎◌, inl, inr}

pub data Error : Type 0 where
  bad_format old_version : Error
  invalid_argument out_of_range range_error runtime_error : Error
  undefined_behaviour out_of_fuel : Error

-- What a call returns or throws.
pub data Result {ℓ} (T : Type ℓ) : Type ℓ where
  err : Error → Result T
  ok : T → Result T

infixl 5 ◌>>=◌
abbrev pub ◌>>=◌ {ℓ κ} : {T : Type ℓ} {U : Type κ} → Result T → (T → Result U) → Result U
err why >>= next = err why
ok t >>= next = next t

pub Result-cases {ℓ} :
    {T : Type ℓ} (r : Result T) → ((e : Error) × (r ≡ err e)) ⊎ ((t : T) × (r ≡ ok t))
Result-cases (err e) = inl (e, refl)
Result-cases (ok t) = inr (t, refl)
