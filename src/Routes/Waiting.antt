-- ===== src/Routes/Waiting.antt =====
-- What a handler with `?wait=true` answers, by the reply of LXD to the wait (routes/instances.py,
-- snapshots.py and backups.py), and what `health_deep` of routes/system.py answers.
use lxd_management_api.Base.{◌≢◌, ℕ, String, ◌<>◌, ◌≡◌, refl, ap, ◌∙◌, true, Option, some, ◌∷◌}
use lxd_management_api.Base.Text.{nonempty}
use lxd_management_api.Json.{Value, str, obj, Dict, empty, entry, get, or_none}
use lxd_management_api.Error.{ErrorClass, LxdError, Exn, http, connection_error, Result, ok, err}
use lxd_management_api.App.{
  Request, Response, Reply, failure, answer, bad_url, Log, pure, raise, lift, resume, rescue, ◌>>=◌,
  ◌>>◌, try_except,
}
use lxd_management_api.Client
use lxd_management_api.Client.{
  Lxd, no_kwargs, prepared, with_params, unreachable, normalize, request,
}
use lxd_management_api.Client.Laws.{outcome, outcome_only_lxd, request_lem}
use lxd_management_api.Operation.{
  AsyncOperationRef, failed_operation, wait_params, wait_result, wait_for_operation,
}
use lxd_management_api.Operation.Waits.{EndedBadly, wait_result_failed, wait_result_fine}
use lxd_management_api.Routes.Common.{Api, success, operation_failed, wait_failed, waited}
use lxd_management_api.Routes.System.{health_deep, on_health_error}

module _ (client : Lxd) (repr : Value → String) (id : String) (timeout : ℕ)
    (project : Option String) (log : Log) where
  -- The request that waits for an operation.
  abbrev pub wait_request : Request
  wait_request =
      prepared client "GET" ("operations/" <> id <> "/wait")
        (with_params (or_none (wait_params timeout project)))

  abbrev wait_outcome : Result Value → Result Dict
  wait_outcome (ok v) = wait_result repr id v
  wait_outcome (err e) = err e

  waited_for :
      (p : Result Value × Log)
      → resume (λ v. lift (wait_result repr id v)) p ≡ (wait_outcome p.0, p.1)
  unfolding resume lift
  waited_for (ok v, l) = refl
  waited_for (err e, l) = refl

  -- One request is sent, and LXD's reply to it decides.
  wait_for_operation_lem :
      wait_for_operation client repr id timeout project log
      ≡ (wait_outcome (outcome client (client.send log wait_request)), wait_request ∷ log)
  unfolding wait_for_operation ◌>>=◌ Client.get
  wait_for_operation_lem =
      waited_for (
        Client.get client ("operations/" <> id <> "/wait")
          (with_params (or_none (wait_params timeout project))) log)
      ∙ ap (λ (p : Result Value × Log). (wait_outcome p.0, p.1))
          (request_lem client "GET" ("operations/" <> id <> "/wait")
            (with_params (or_none (wait_params timeout project))) log)

module _ (api : Api) (project : Option String) (ref : AsyncOperationRef)
    (named : nonempty ref.operation_id ≡ true) (log : Log) where
  open api use {lxd, repr}

  -- The request that the handler waits with.
  abbrev pub waits : Request
  waits = wait_request lxd repr ref.operation_id 0 project log

  -- The end of the handler, from the result of the wait.
  abbrev ended : (Exn → Exn) → Result Dict × Log → Result Value × Log
  ended on_error p =
      resume (λ (d : Dict). pure (success ref.operation_id)) (rescue (λ e. raise (on_error e)) p)

  waited-true :
      (on_error : Exn → Exn)
      → waited api on_error project true ref log
        ≡ ended on_error (
          wait_outcome lxd repr ref.operation_id 0 project log (outcome lxd (lxd.send log waits)),
          waits ∷ log,
        )
  unfolding waited ◌>>◌ ◌>>=◌ try_except
  waited-true on_error =
      rw named
        (ap (ended on_error) (wait_for_operation_lem lxd repr ref.operation_id 0 project log))

  replied :
      (on_error : Exn → Exn) (r : Reply) (e : Result Dict)
      → lxd.send log waits ≡ r
      → wait_outcome lxd repr ref.operation_id 0 project log (outcome lxd r) ≡ e
      → waited api on_error project true ref log ≡ ended on_error (e, waits ∷ log)
  replied on_error r e h k =
      waited-true on_error
      ∙ ap
          (λ q.
            ended on_error
              (wait_outcome lxd repr ref.operation_id 0 project log (outcome lxd q), waits ∷ log))
          h
      ∙ ap (λ q. ended on_error (q, waits ∷ log)) k

  module _ (response : Response) (d : Dict) (h : lxd.send log waits ≡ answer response)
      (k : normalize lxd response ≡ ok (obj d)) where
    decided :
        (on_error : Exn → Exn) (e : Result Dict)
        → wait_result repr ref.operation_id (obj d) ≡ e
        → waited api on_error project true ref log ≡ ended on_error (e, waits ∷ log)
    decided on_error e w =
        replied on_error (answer response) e h
          (ap (wait_outcome lxd repr ref.operation_id 0 project log) k ∙ w)

    -- With `wait=true` and an operation that has an id: if LXD answers the wait with a dictionary
    -- whose status is neither `Failure` nor `Cancelled`, the handler has sent that one request more
    -- and answers that the operation succeeded.
    pub waited-success :
        (on_error : Exn → Exn)
        → ¬ EndedBadly d
        → waited api on_error project true ref log ≡ (ok (success ref.operation_id), waits ∷ log)
    unfolding rescue resume pure
    waited-success on_error fine =
        decided on_error (ok d) (wait_result_fine repr ref.operation_id d fine)

    -- With `wait=true` and an operation that has an id: if LXD answers the wait with a dictionary
    -- whose status is `Failure` or `Cancelled`, every handler that waits answers 500 with the text of
    -- the error that names the operation and the status.
    pub waited-failure :
        EndedBadly d
        → (status : String) × (get "status" d ≡ some (str status))
          × (waited api operation_failed project true ref log ≡ (
            err (http 500 (failed_operation repr ref.operation_id status d).message),
            waits ∷ log,
          ))
          × (waited api wait_failed project true ref log ≡ (
            err (http 500 (failed_operation repr ref.operation_id status d).message),
            waits ∷ log,
          ))
    unfolding rescue resume raise operation_failed wait_failed failed_operation
    waited-failure bad =
        let (status, same, w) = wait_result_failed repr ref.operation_id d bad in
        (status, same, decided operation_failed _ w, decided wait_failed _ w)

  -- With `wait=true` and an operation that has an id: if the HTTP client cannot reach LXD for the
  -- wait, the handlers of snapshots and backups answer 500, but the error leaves `set_instance_state`
  -- as an `LXDConnectionError`, not as an `HTTPException`.
  pub waited-unreachable :
      (exc : String)
      → lxd.send log waits ≡ failure exc
      → (waited api wait_failed project true ref log
          ≡ (err (http 500 (unreachable lxd exc).message), waits ∷ log))
        × (waited api operation_failed project true ref log
            ≡ (err (Exn.lxd (unreachable lxd exc)), waits ∷ log))
  unfolding rescue resume raise operation_failed wait_failed unreachable
  waited-unreachable exc h = (
    replied wait_failed (failure exc) (err (Exn.lxd (unreachable lxd exc))) h refl,
    replied operation_failed (failure exc) (err (Exn.lxd (unreachable lxd exc))) h refl,
  )

-- What `health_deep` says of LXD, by the reply to its request.
abbrev pub health_status : Result Value → String
health_status (ok v) = "healthy"
health_status (err (Exn.lxd exc)) = elim exc.class [
  | connection_error ↦ "unhealthy"
  | _ ↦ "degraded"
]
health_status (err e) = "degraded"

module _ (client : Lxd) (request_id : String) (log : Log) where
  -- The request of `health_deep`.
  abbrev pub health_request : Request
  health_request = prepared client "GET" "/" no_kwargs

  abbrev healthy : Dict
  healthy =
      entry "status" (str "healthy")
        (entry "lxd" (str "reachable") (entry "request_id" (str request_id) empty))

  -- The end of the handler, from the result of the request.
  abbrev checked : Result Value × Log → Result Value × Log
  checked p = rescue (on_health_error request_id) (resume (λ (v : Value). pure (obj healthy)) p)

  abbrev Reports : Result Value → Result Value × Log → Type 0
  Reports r given =
      (body : Dict) × (given ≡ (ok (obj body), health_request ∷ log))
      × (get "status" body ≡ some (str (health_status r)))
      × (get "request_id" body ≡ some (str request_id))

  lxd-Reports :
      (message : String) (status_code : ℕ) (class : ErrorClass)
      → Reports
          (err (Exn.lxd (record { class = class; message = message; status_code = status_code })))
          (checked (
            err (Exn.lxd (record { class = class; message = message; status_code = status_code })),
            health_request ∷ log,
          ))
  unfolding rescue resume pure on_health_error get
  lxd-Reports message status_code connection_error = (_, refl, refl, refl)
  lxd-Reports message status_code _ = (_, refl, refl, refl)

  checked-Reports :
      (r : Result Value)
      → ((e : Exn) → r ≡ err e → (x : LxdError) × (e ≡ Exn.lxd x))
      → Reports r (checked (r, health_request ∷ log))
  unfolding rescue resume pure on_health_error get
  checked-Reports (ok v) only = (healthy, refl, refl, refl)
  checked-Reports (err (Exn.lxd exc)) only = lxd-Reports exc.message exc.status_code exc.class
  checked-Reports (err e) only = let (x, p) = only e refl in cc

  health_deep_run :
      health_deep client request_id log
      ≡ checked (outcome client (client.send log health_request), health_request ∷ log)
  unfolding health_deep ◌>>◌ ◌>>=◌ try_except Client.get
  health_deep_run = ap checked (request_lem client "GET" "/" no_kwargs log)

  -- `health_deep`, for a base URL that the HTTP client takes, never raises: it sends one request, and
  -- whatever LXD replies, or if it cannot be reached, it answers normally, with the request id, and with the status `healthy` where the
  -- request succeeded, `unhealthy` where LXD could not be reached, and `degraded` otherwise.
  pub health_deep-Reports :
      ((exc : String) → client.send log health_request ≢ bad_url exc)
      → Reports
          (outcome client (client.send log health_request))
          (health_deep client request_id log)
  health_deep-Reports taken =
      rw health_deep_run (checked-Reports _ (λ e. outcome_only_lxd client _ e taken))
