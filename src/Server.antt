-- ===== src/Server.antt =====
-- main.py: the request id, the answer to an unhandled exception, the startup, and the liveness probe.
pub mod Laws
pub mod Requests
pub mod Accounts
use lxd_management_api.Base.{ℕ, String, Option, none, some, List, [], ◌∷◌, if◌then◌else◌}
use lxd_management_api.Base.Text.{nonempty}
use lxd_management_api.Json.{Value, str, obj, Dict, empty, entry, put}
use lxd_management_api.Error.{Exn, Result, ok, err}
use lxd_management_api.Config.{Settings}
use lxd_management_api.Security.{Crypt}
use lxd_management_api.Users.{UserStore, seed_admin}
use lxd_management_api.Logging.{Loggers, configure_logging}

-- A response to a client. The names of the headers are compared as they are written.
pub record HttpResponse : Type 0 where
  pub status_code : ℕ
  pub body : Value
  pub headers : Dict

-- The id of a request: its header, or a new one where that is missing or empty.
unfoldable pub request_id : String → Option String → String
request_id uuid none = uuid
request_id uuid (some header) = if nonempty header then header else uuid

-- What `dispatch` does with the outcome of the rest of the application.
stamped : String → Result HttpResponse → Result HttpResponse
unfolding put
stamped id (ok response) =
    ok (record response { headers = put "X-Request-ID" (str id) response.headers })
stamped id (err e) = err e

-- `RequestIdMiddleware.dispatch`, on the context variable; `call_next` runs the rest of the
-- application under the variable that it is given. The `finally` sets the variable back.
unfoldable pub dispatch :
    String → Option String → (String → Result HttpResponse) → String → Result HttpResponse × String
unfolding stamped request_id
dispatch uuid header call_next context =
    let id = request_id uuid header in (stamped id (call_next id), context)

-- `unhandled_exception_handler`, on the context variable.
unfoldable pub unhandled_exception_handler : String → Exn → HttpResponse
unhandled_exception_handler context exc = record {
  status_code = 500;
  body =
      obj (entry "detail" (str "Internal server error") (entry "request_id" (str context) empty));
  headers = empty;
}

answered : Result HttpResponse × String → HttpResponse
unfolding unhandled_exception_handler
answered (ok response, context) = response
answered (err e, context) = unhandled_exception_handler context e

-- A request: Starlette documents that a handler of `Exception` runs outside of every middleware that
-- the application adds.
unfoldable pub serve :
    String → Option String → (String → Result HttpResponse) → String → HttpResponse
unfolding dispatch answered
serve uuid header call_next context = answered (dispatch uuid header call_next context)

-- `health`.
unfoldable pub health : String → Dict
health version = entry "status" (str "ok") (entry "version" (str version) empty)

-- `lifespan` up to its `yield`; `create_all` is what `init_db` runs.
module _ (db : UserStore) (create_all : db.State → db.State) (level_of : String → Option ℕ)
    (log_level : String) where
  unfoldable pub startup :
      (Value → String)
      → Crypt
      → String
      → Settings
      → Loggers × db.State
      → Option Exn × (Loggers × db.State)
  unfolding configure_logging seed_admin
  startup repr crypt salt settings (loggers, s) =
      let p = seed_admin db repr crypt salt settings (create_all s) in
      (p.0, (configure_logging level_of log_level loggers, p.1))
