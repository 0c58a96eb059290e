-- ===== src/Base/Errors.antt =====
-- The errors that the program returns, and its `(value, error)` results.
use Prim.Native.String.{String}
use mathlib.Core.Path.{◌≡◌, refl}
use mathlib.Core.Bool.{Bool, true, false}
use mathlib.Core.Logic.{◌⊎◌, inl, inr}

pub data Error : Type 0 where
  -- store.ErrNotFound
  not_found : Error
  -- what encoding/json reports
  json_error : String → Error
  decode_test_failure_payload : Error → Error
  decode_quality_disposition_payload : Error → Error
  unknown_scenario : String → Error
  run_step : String → Error → Error
  unsupported_runtime : String → Error
  connect_temporal : Error → Error
  start_temporal_worker : Error → Error
  -- what the Temporal SDK reports: `serviceerror.NotFound`, and all else
  temporal_not_found : Error
  temporal_error : String → Error

-- `errors.Is(err, store.ErrNotFound)`
unfoldable pub is_not_found : Error → Bool
is_not_found not_found = true
is_not_found (decode_test_failure_payload e) = is_not_found e
is_not_found (decode_quality_disposition_payload e) = is_not_found e
is_not_found (run_step name e) = is_not_found e
is_not_found (connect_temporal e) = is_not_found e
is_not_found (start_temporal_worker e) = is_not_found e
is_not_found _ = false

-- `errors.As(err, &notFound)` for a `serviceerror.NotFound`
unfoldable pub is_temporal_not_found : Error → Bool
is_temporal_not_found temporal_not_found = true
is_temporal_not_found (decode_test_failure_payload e) = is_temporal_not_found e
is_temporal_not_found (decode_quality_disposition_payload e) = is_temporal_not_found e
is_temporal_not_found (run_step name e) = is_temporal_not_found e
is_temporal_not_found (connect_temporal e) = is_temporal_not_found e
is_temporal_not_found (start_temporal_worker e) = is_temporal_not_found e
is_temporal_not_found _ = false

pub data Result {ℓ} (A : Type ℓ) : Type ℓ where
  ok : A → Result A
  err : Error → Result A

infixl 5 ◌>>=◌
abbrev pub ◌>>=◌ {ℓ κ} : {A : Type ℓ} {B : Type κ} → Result A → (A → Result B) → Result B
ok a >>= f = f a
err e >>= f = err e

pub Result-cases {ℓ} :
    {A : Type ℓ} (r : Result A) → ((a : A) × (r ≡ ok a)) ⊎ ((e : Error) × (r ≡ err e))
Result-cases (ok a) = inl (a, refl)
Result-cases (err e) = inr (e, refl)
