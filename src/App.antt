-- ===== src/App.antt =====
-- The requests that the program sends to LXD, and the actions of its handlers: an action can raise
-- an exception, and it extends the log of the requests that have been sent, the latest first. LXD
-- answers a request in view of all that were sent before it.
pub mod Keeps
pub mod Raises
pub mod Returns
use lxd_management_api.Base.{ℕ, String, List, Option}
use lxd_management_api.Json.{Value, Dict}
use lxd_management_api.Error.{Exn, Result, ok, err, convert_lxd}

-- What is handed to the HTTP client. The URL is relative to the base URL; `json_body` is `null`
-- where there is no body.
pub record Request : Type 0 where
  pub method : String
  pub url : String
  pub json_body : Value
  pub params : Option Dict
  pub content : Option (List ℕ)
  pub headers : Option Dict
  pub timeout : ℕ

pub record Response : Type 0 where
  pub status_code : ℕ
  pub content : List ℕ
  pub text : String

-- What the HTTP client gives: a response, an `httpx.HTTPError` with its text, or an `httpx.InvalidURL`,
-- which is no `HTTPError`, for a URL that it does not take.
pub data Reply : Type 0 where
  failure : String → Reply
  answer : Response → Reply
  bad_url : String → Reply

abbrev pub Log : Type 0
Log = List Request

abbrev pub M : Type 0 → Type 0
M A = Log → Result A × Log

unfoldable pub pure : {A : Type 0} → A → M A
pure a log = (ok a, log)

unfoldable pub raise : {A : Type 0} → Exn → M A
raise e log = (err e, log)

unfoldable pub lift : {A : Type 0} → Result A → M A
lift r log = (r, log)

-- What follows an action, from its result and the log that it left.
unfoldable pub resume : {A B : Type 0} → (A → M B) → Result A × Log → Result B × Log
resume f (ok a, log) = f a log
resume f (err e, log) = (err e, log)

infixl 5 ◌>>=◌ ◌>>◌
unfoldable pub ◌>>=◌ : {A B : Type 0} → M A → (A → M B) → M B
unfolding resume
◌>>=◌ m f log = resume f (m log)

unfoldable pub ◌>>◌ : {A B : Type 0} → M A → M B → M B
unfolding ◌>>=◌
m >> k = m >>= λ _. k

-- `try: … except`: an exception is handed to a handler.
unfoldable pub rescue : {A : Type 0} → (Exn → M A) → Result A × Log → Result A × Log
rescue handler (ok a, log) = (ok a, log)
rescue handler (err e, log) = handler e log

unfoldable pub try_except : {A : Type 0} → M A → (Exn → M A) → M A
unfolding rescue
try_except m handler log = rescue handler (m log)

-- `try: … except LXDError as exc: raise _lxd_err_to_http(exc) from exc`.
unfoldable pub to_http : {A : Type 0} → M A → M A
unfolding try_except
to_http m = try_except m (λ e. raise (convert_lxd e))
