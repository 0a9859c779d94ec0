-- ===== src/Errors.antt =====
-- internal/pkg/cerrors/errors.go: the application's error type, its codes, and the search for one in
-- a chain of wrapped errors. A Go `error` is an `AppError` or a foreign error; either may wrap one
-- more error (`Err`, or `%w`). A function that returns `(T, error)` returns `Result T`.
pub mod Laws
mod Tests
use aloqa_claude.Prelude.{
  ℕ, String, Bool, true, false, Option, none, some, ◌≡◌, refl, ◌⊎◌, inl, inr,
}

pub data Code : Type 0 where
  not_found already_exists invalid_input unauthorized forbidden : Code
  account_deactivated account_suspended not_deactivated internal : Code
  conflict rate_limited quota_exceeded unavailable unprocessable : Code
  call_ended canceled waiting_room_declined call_password_required : Code
  channel_call_exists user_in_call : Code
  custom : String → Code

mutual
  pub data Error : Type 0 where
    app : Code → String → Cause → Error
    foreign : String → Cause → Error

  pub data Cause : Type 0 where
    nothing : Cause
    wraps : Error → Cause

pub data Result {ℓ} (A : Type ℓ) : Type ℓ where
  ok : A → Result A
  err : Error → Result A

infixl 5 ◌>>=◌ ◌>>◌
abbrev pub ◌>>=◌ {ℓ κ} : {A : Type ℓ} {B : Type κ} → Result A → (A → Result B) → Result B
err e >>= next = err e
ok a >>= next = next a

abbrev pub ◌>>◌ {ℓ} : {B : Type ℓ} → Result (Unit {0}) → Result B → Result B
m >> k = m >>= λ _. k

-- To split on a computed result and keep the equation.
pub Result-cases {ℓ} :
    {A : Type ℓ} (r : Result A) → ((e : Error) × (r ≡ err e)) ⊎ ((a : A) × (r ≡ ok a))
Result-cases (ok a) = inr (a, refl)
Result-cases (err e) = inl (e, refl)

-- What `errors.As(err, &appErr)` finds: the outermost `AppError` of the chain.
pub record AppError : Type 0 where
  pub code : Code
  pub message : String
  pub cause : Cause

unfoldable mutual
  pub as_app_error : Error → Option AppError
  as_app_error (app c m w) = some (record { code = c; message = m; cause = w })
  as_app_error (foreign _ w) = as_app_cause w

  pub as_app_cause : Cause → Option AppError
  as_app_cause nothing = none
  as_app_cause (wraps e) = as_app_error e

abbrev pub is_not_found_code : Code → Bool
is_not_found_code not_found = true
is_not_found_code _ = false

abbrev pub is_forbidden_code : Code → Bool
is_forbidden_code forbidden = true
is_forbidden_code _ = false

abbrev with_code : (Code → Bool) → Option AppError → Bool
with_code p none = false
with_code p (some e) = p e.code

-- `appErr, ok := AsAppError(err); ok && appErr.Code == CodeNotFound`
unfoldable pub is_not_found : Error → Bool
is_not_found e = with_code is_not_found_code (as_app_error e)

-- `appErr, ok := AsAppError(err); ok && appErr.Code == CodeForbidden`
unfoldable pub is_forbidden : Error → Bool
is_forbidden e = with_code is_forbidden_code (as_app_error e)

unfoldable pub http_status_of : Code → ℕ
http_status_of not_found = 404
http_status_of already_exists = 409
http_status_of conflict = 409
http_status_of channel_call_exists = 409
http_status_of user_in_call = 409
http_status_of invalid_input = 400
http_status_of unauthorized = 401
http_status_of call_password_required = 401
http_status_of forbidden = 403
http_status_of account_deactivated = 403
http_status_of account_suspended = 403
http_status_of not_deactivated = 403
http_status_of waiting_room_declined = 403
http_status_of rate_limited = 429
http_status_of quota_exceeded = 413
http_status_of unprocessable = 422
http_status_of unavailable = 503
http_status_of call_ended = 410
http_status_of canceled = 499
http_status_of _ = 500

-- The constructors that the modelled services call.
module _ (message : String) where
  abbrev pub not_found_error : Error
  not_found_error = app not_found message nothing

  abbrev pub forbidden_error : Error
  forbidden_error = app forbidden message nothing

  abbrev pub invalid_input_error : Error
  invalid_input_error = app invalid_input message nothing

  abbrev pub conflict_error : Error
  conflict_error = app conflict message nothing

  abbrev pub unavailable_error : Error
  unavailable_error = app unavailable message nothing

  abbrev pub call_ended_error : Error
  call_ended_error = app call_ended message nothing

  -- `Internal(msg, err)`
  abbrev pub internal_error : Error → Error
  internal_error e = app internal message (wraps e)
