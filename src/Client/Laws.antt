-- ===== src/Client/Laws.antt =====
-- What a request to LXD gives, for each reply.
use lxd_management_api.Base.{
  num_eq, String, ◌≡◌, refl, sym, ap, ◌∙◌, ◌≢◌, ◌⊎◌, none, some, [], ◌∷◌, arith, if◌then◌else◌,
}
use lxd_management_api.Json.{Value}
use lxd_management_api.Error.{invalid_url, LxdError, Exn, http, lxd, Result, ok, err, convert_lxd}
use lxd_management_api.App.{
  Response, Reply, failure, answer, bad_url, Log, lift, resume, ◌>>=◌, to_http,
}
use lxd_management_api.App.Keeps.{converted, to_http_lem}
use lxd_management_api.Client.{
  error, LxdResponse, Lxd, Kwargs, of_envelope, non_json, prepared, unreachable, received, exchange,
  normalize, request,
}

err-injective : {a b : Exn} → ◌≡◌ {A = Result Value} (err a) (err b) → a ≡ b
err-injective h = cc

module _ (client : Lxd) where
  -- What `request` returns or raises for a reply.
  abbrev pub outcome : Reply → Result Value
  outcome (failure exc) = err (lxd (unreachable client exc))
  outcome (answer response) = normalize client response
  outcome (bad_url exc) = err (invalid_url exc)

  -- One request is sent, and the result is that of LXD's reply to it.
  pub request_lem :
      (method path : String) (kwargs : Kwargs) (log : Log)
      → request client method path kwargs log ≡ (
        outcome (client.send log (prepared client method path kwargs)),
        prepared client method path kwargs ∷ log,
      )
  unfolding request received exchange lift ◌>>=◌
  request_lem method path kwargs log =
      replied (client.send log (prepared client method path kwargs))
    where
      replied :
          (r : Reply)
          → resume
              (λ response. lift (normalize client response))
              (received client r, prepared client method path kwargs ∷ log)
            ≡ (outcome r, prepared client method path kwargs ∷ log)
      replied (failure exc) = refl
      replied (answer response) = refl
      replied (bad_url exc) = refl

  -- A reply that is no success.
  abbrev pub IsFailure : Response → Type 0
  IsFailure response =
      (response.content ≢ [])
      × ((client.model_validate response ≡ none)
          ⊎ ((e : LxdResponse) × (client.model_validate response ≡ some e) × (e.type ≡ error)))

  pub normalize-eq-err :
      (response : Response) (e : Exn) → normalize client response ≡ err e → IsFailure response
  unfolding normalize of_envelope
  normalize-eq-err response e h = ground arith

  pub normalize_only_lxd :
      (response : Response) (e : Exn)
      → normalize client response ≡ err e
      → (x : LxdError) × (e ≡ lxd x)
  unfolding normalize of_envelope
  normalize_only_lxd response e h = ground arith

  pub outcome_only_lxd :
      (r : Reply) (e : Exn)
      → ((exc : String) → r ≢ bad_url exc)
      → outcome r ≡ err e
      → (x : LxdError) × (e ≡ lxd x)
  outcome_only_lxd (failure exc) e taken h = (unreachable client exc, cc)
  outcome_only_lxd (answer response) e taken h = normalize_only_lxd response e h
  outcome_only_lxd (bad_url exc) e taken h = absurd (taken exc refl)

  outcome-eq-ok :
      (r : Reply) (v : Value)
      → outcome r ≡ ok v
      → (response : Response) × (r ≡ answer response) × ¬ IsFailure response
  unfolding normalize of_envelope
  outcome-eq-ok (failure exc) v h = cc
  outcome-eq-ok (bad_url exc) v h = cc
  outcome-eq-ok (answer response) v h = (response, refl, λ f. ground arith)

  module _ (method path : String) (kwargs : Kwargs) (log : Log) where
    result_of_request :
        (request client method path kwargs log).0
        ≡ outcome (client.send log (prepared client method path kwargs))
    result_of_request = ap (λ (p : Result Value × Log). p.0) (request_lem method path kwargs log)

    result_of_to_http :
        (to_http (request client method path kwargs) log).0
        ≡ converted (outcome (client.send log (prepared client method path kwargs)))
    result_of_to_http = rw (to_http_lem, result_of_request)

    -- If `request` returns a value, LXD answered that request, and its answer is no failure: it has no
    -- content, or is a valid envelope whose type is not `error`.
    pub request-eq-ok :
        (v : Value)
        → (request client method path kwargs log).0 ≡ ok v
        → (response : Response) × (client.send log (prepared client method path kwargs)
            ≡ answer response)
          × ¬ IsFailure response
    request-eq-ok v h = outcome-eq-ok _ v (sym result_of_request ∙ h)

    -- If the HTTP client raises an error for a request, a route that passes errors on answers 503 with
    -- the text of an unreachable LXD.
    pub to_http-request-unreachable :
        (exc : String)
        → client.send log (prepared client method path kwargs) ≡ failure exc
        → (to_http (request client method path kwargs) log).0
          ≡ err (http 503 (unreachable client exc).message)
    unfolding convert_lxd unreachable
    to_http-request-unreachable exc h = rw (result_of_to_http, h)

    -- If LXD answers a request with content that is no envelope, a route that passes errors on raises an
    -- `HTTPException` with the status of that answer, even 200, and with 500 for 0.
    pub to_http-request-non_json :
        (response : Response)
        → client.send log (prepared client method path kwargs) ≡ answer response
        → response.content ≢ []
        → client.model_validate response ≡ none
        → (to_http (request client method path kwargs) log).0
          ≡ err (
              http
                (if num_eq response.status_code 0 then 500 else response.status_code)
                (non_json response).message)
    unfolding convert_lxd non_json normalize
    to_http-request-non_json response h c m = rw (result_of_to_http, h) (ground arith)
