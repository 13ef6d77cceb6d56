-- ===== src/Server/Requests/Reads.antt =====
-- What a client sees of a request that its endpoint answers or refuses.
use mathlib.Core.Path.{subst}
use lxd_management_api.Base.{◌⊎◌, inl, inr, ℕ, String, ◌≡◌, refl, Option, none, some, true, false}
use lxd_management_api.Json.{Value, str, obj, as_dict, Dict, empty, entry, get}
use lxd_management_api.Json.Laws.{get-put_self}
use lxd_management_api.Error.{
  Exn, http, validation_error, invalid_url, unicode_error, Result, ok, err,
}
use lxd_management_api.App.{Log}
use lxd_management_api.App.Raises.{IsUsual}
use lxd_management_api.Deps.{Auth, get_current_user}
use lxd_management_api.Routes.Common.{Api}
use lxd_management_api.Routes.Endpoint.{Endpoint, Answer, json, run}
use lxd_management_api.Routes.Endpoint.Declared.{
  success_status, ReturnType, returns, fits, passes_on,
}
use lxd_management_api.Routes.Endpoint.Errors.{run-Raises}
use lxd_management_api.Routes.Endpoint.Contained.{caller-IsUsual}
use lxd_management_api.Routes.Endpoint.Calls.{call}
use lxd_management_api.Routes.Endpoint.Answers.{call-fits}
use lxd_management_api.Server.{
  HttpResponse, request_id, stamped, dispatch, answered, serve, unhandled_exception_handler,
}
use lxd_management_api.Server.Requests.{respond, handle}

-- The exceptions that nothing in the program catches.
pub data IsUncaught : Exn → Type 0 where
  uncaught_url : (exc : String) → IsUncaught (invalid_url exc)
  uncaught_unicode : IsUncaught unicode_error

module _ (render : Answer → Value) (headers : Exn → Dict) (auth : Auth) (api : Api) (now : ℕ)
    (db : auth.users.State) (uuid context : String) where
  -- What a client sees: the answer of the endpoint, or an `HTTPException` that it raised.
  pub data Seen (response : HttpResponse) : ℕ → Result Answer → Type 0 where
    answer_seen :
        (status : ℕ) (a : Answer)
        → response.status_code ≡ status
        → response.body ≡ render a
        → Seen response status (ok a)
    error_seen :
        (status code : ℕ) (detail : String)
        → response.status_code ≡ code
        → response.body ≡ obj (entry "detail" (str detail) empty)
        → Seen response status (err (http code detail))

  abbrev Identified : HttpResponse → Option String → Type 0
  Identified response header =
      get "X-Request-ID" response.headers ≡ some (str (request_id uuid header))

  -- What the client gets of the result of a handler.
  abbrev seen_by : Option String → ReturnType → ℕ → Result Answer → HttpResponse
  seen_by header type status r =
      serve uuid header (λ id. respond render headers type status r) context

  -- What a request comes to: the client sees its result, with the id of the request in the header; or the
  -- HTTP client did not take a URL, or a file name does not fit into a header, and the exception ends in
  -- the handler of unhandled exceptions.
  abbrev pub Comes : Option String → HttpResponse → ℕ → Result Answer → Type 0
  Comes header response status r =
      (Seen response status r
        × (get "X-Request-ID" response.headers ≡ some (str (request_id uuid header))))
      ⊎ ((e : Exn) × IsUncaught e
          × (r ≡ err e)
          × (response ≡ unhandled_exception_handler context e))

  served_error :
      (header : Option String) (type : ReturnType) (status : ℕ) (e : Exn)
      → IsUsual e
      → Comes header (seen_by header type status (err e)) status (err e)
  unfolding respond serve dispatch stamped answered
  served_error header type status (http code detail) h = inl (
    error_seen status code detail refl refl,
    get-put_self "X-Request-ID" (str (request_id uuid header)) (headers (http code detail)),
  )
  served_error header type status (invalid_url exc) h =
      inr (invalid_url exc, uncaught_url exc, refl, refl)
  served_error header type status unicode_error h =
      inr (unicode_error, uncaught_unicode, refl, refl)
  served_error header type status _ h = elim h [ ]

  served_value :
      (header : Option String) (type : ReturnType) (status : ℕ) (a : Answer)
      → fits type a ≡ true
      → Seen (seen_by header type status (ok a)) status (ok a)
        × Identified (seen_by header type status (ok a)) header
  unfolding respond serve dispatch stamped answered
  served_value header type status a h =
      rw (h, respond)
        (
          answer_seen status a refl refl,
          get-put_self "X-Request-ID" (str (request_id uuid header)) empty,
        )

  served_expected :
      (header : Option String) (type : ReturnType) (status : ℕ) (r : Result Answer)
      → ((a : Answer) → r ≡ ok a → fits type a ≡ true)
      → ((e : Exn) → r ≡ err e → IsUsual e)
      → Comes header (seen_by header type status r) status r
  served_expected header type status (ok a) fit known =
      inl (served_value header type status a (fit a refl))
  served_expected header type status (err e) fit known =
      served_error header type status e (known e refl)

  -- Whatever LXD replies and whoever asks, a request to an endpoint that is declared with status 200,
  -- other than get_instance and get_instance_state, is answered with 200 and what the endpoint
  -- returned, or with the status and the detail of an `HTTPException` that it raised, and in both cases
  -- with the id of the request in the header; only an `httpx.InvalidURL` and the `UnicodeEncodeError` of
  -- a file name that is no Latin-1 end in the handler of unhandled exceptions.
  pub read_request :
      (header creds : Option String) (endpoint : Endpoint) (log : Log)
      → success_status endpoint ≡ 200
      → passes_on endpoint ≡ false
      → Comes header
          (handle render headers auth api now db uuid context header creds endpoint log).0
          200
          (call auth now db creds api endpoint log).0
  unfolding handle call
  read_request header creds endpoint log h kept =
      let caller = get_current_user auth now db creds in
      let r = (run api caller endpoint log).0 in
      let type = returns endpoint in
      subst
        (λ (status : ℕ). Comes header (seen_by header type (success_status endpoint) r) status r) h
        (served_expected header type (success_status endpoint) r
          (λ a e. call-fits auth now db creds api endpoint log a kept e)
          ((run-Raises caller (caller-IsUsual auth now db creds) api endpoint h).at log))

  unfit :
      (endpoint : Endpoint) (v : Value)
      → passes_on endpoint ≡ true
      → as_dict v ≡ none
      → fits (returns endpoint) (json v) ≡ false
  unfolding fits returns passes_on
  unfit (Endpoint.get_instance name project) (obj d) which h = cc
  unfit (Endpoint.get_instance name project) v which h = refl
  unfit (Endpoint.get_instance_state name project) (obj d) which h = cc
  unfit (Endpoint.get_instance_state name project) v which h = refl
  unfit _ v which h = absurd cc

  unfit_value :
      (header : Option String) (type : ReturnType) (status : ℕ) (a : Answer)
      → fits type a ≡ false
      → seen_by header type status (ok a) ≡ unhandled_exception_handler context validation_error
  unfolding respond serve dispatch stamped answered
  unfit_value header type status a h = rw (h, respond) refl

  -- If get_instance or get_instance_state gets from LXD a value that is no dictionary, the client gets
  -- 500 with the text of an unhandled exception, the id of the context around the request, and no
  -- header with an id.
  pub unfit_request :
      (header creds : Option String) (endpoint : Endpoint) (log : Log) (v : Value)
      → passes_on endpoint ≡ true
      → as_dict v ≡ none
      → (call auth now db creds api endpoint log).0 ≡ ok (json v)
      → (handle render headers auth api now db uuid context header creds endpoint log).0
        ≡ unhandled_exception_handler context validation_error
  unfolding handle
  unfit_request header creds endpoint log v which not_dict h = rw h (
      unfit_value header (returns endpoint) (success_status endpoint) (json v)
        (unfit endpoint v which not_dict))
