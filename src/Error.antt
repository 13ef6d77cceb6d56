-- ===== src/Error.antt =====
-- services/exceptions.py, and the errors and results of the handlers.
pub mod Status
use lxd_management_api.Base.{◌≡◌, ◌⊎◌, inl, inr, refl, ℕ, num_eq, ◌||◌, String, if◌then◌else◌}

-- The class of an `LXDError`.
pub data ErrorClass : Type 0 where
  lxd_error connection_error request_error bad_request auth_error not_found_error conflict_error
        operation_error :
      ErrorClass

-- `status_code` is 0 where LXD was never reached.
pub record LxdError : Type 0 where
  pub class : ErrorClass
  pub message : String
  pub status_code : ℕ

-- `lxd_error_for_status`.
unfoldable pub lxd_error_for_status : String → ℕ → LxdError
lxd_error_for_status message status_code = record {
  class =
      if num_eq status_code 400
      then bad_request
      else if num_eq status_code 401 || num_eq status_code 403
      then auth_error
      else if num_eq status_code 404
      then not_found_error
      else if num_eq status_code 409
      then conflict_error
      else request_error;
  message = message;
  status_code = status_code;
}

-- What a handler can raise. An exception other than `http` that leaves a handler is turned into
-- status 500 by the handler of `app/main.py`.
pub data Exn : Type 0 where
  http : ℕ → String → Exn
  lxd : LxdError → Exn
  token_error : String → Exn
  value_error : String → Exn
  validation_error : Exn
  type_error : Exn
  invalid_url : String → Exn
  unicode_error : Exn

pub data Result {ℓ} (A : Type ℓ) : Type ℓ where
  ok : A → Result A
  err : Exn → Result A

pub Result-cases : {A : Type 0} (r : Result A) → ((a : A) × (r ≡ ok a)) ⊎ ((e : Exn) × (r ≡ err e))
Result-cases (ok a) = inl (a, refl)
Result-cases (err e) = inr (e, refl)

-- `exc.status_code or 500`.
or_500 : ℕ → ℕ
or_500 n = if num_eq n 0 then 500 else n

-- The lookup of the class name in `code_map`.
code_map : ErrorClass → ℕ → ℕ
code_map bad_request default = 400
code_map auth_error default = 403
code_map not_found_error default = 404
code_map conflict_error default = 409
code_map connection_error default = 503
code_map _ default = default

-- `_lxd_err_to_http`, the same text in every route module.
unfoldable pub lxd_err_to_http : LxdError → Exn
unfolding or_500 code_map
lxd_err_to_http exc = http (code_map exc.class (or_500 exc.status_code)) exc.message

-- `except LXDError as exc: raise _lxd_err_to_http(exc)`; every other exception passes.
unfoldable pub convert_lxd : Exn → Exn
unfolding lxd_err_to_http
convert_lxd (lxd exc) = lxd_err_to_http exc
convert_lxd exc = exc

-- The status of the response that a client sees for an exception: `HTTPException` has its own,
-- `unhandled_exception_handler` answers 500 for the rest.
unfoldable pub response_status : Exn → ℕ
response_status (http status detail) = status
response_status _ = 500
