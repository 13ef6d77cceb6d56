-- ===== src/Server/Laws.antt =====
-- What a client learns of its request id, and what a restart does.
use lxd_management_api.Base.{
  ℕ, String, ◌==◌, ◌≡◌, refl, ap, ap₂, ◌∙◌, Option, none, some, if◌then◌else◌,
}
use lxd_management_api.Json.{Value, str, obj, empty, entry, get}
use lxd_management_api.Json.Laws.{get-put}
use lxd_management_api.Error.{Exn, Result, ok, err}
use lxd_management_api.Config.{Settings}
use lxd_management_api.Security.{Crypt}
use lxd_management_api.Users.{UserStore, IsLawful, seed_admin}
use lxd_management_api.Users.Laws.{seed_admin_idempotent}
use lxd_management_api.Logging.{Loggers, configure_logging}
use lxd_management_api.Logging.Laws.{configure_logging_again}
use lxd_management_api.Server.{
  HttpResponse, request_id, stamped, answered, dispatch, serve, startup,
}

module _ (uuid : String) (header : Option String) (call_next : String → Result HttpResponse)
    (context : String) where
  -- If the application answers a request, the client gets that answer with one more header, the id
  -- under which the application ran: that of the request, or a new one where it has none or an empty
  -- one. Afterwards the id of the context is what it was.
  pub serve_stamps :
      (response : HttpResponse)
      → call_next (request_id uuid header) ≡ ok response
      → ((serve uuid header call_next context).status_code ≡ response.status_code)
        × ((serve uuid header call_next context).body ≡ response.body)
        × ((name : String)
            → get name (serve uuid header call_next context).headers ≡ (
                if "X-Request-ID" == name
                then some (str (request_id uuid header))
                else get name response.headers))
        × ((dispatch uuid header call_next context).1 ≡ context)
  unfolding serve dispatch stamped answered
  serve_stamps response h =
      rw (h, serve, dispatch)
        (
          refl,
          refl,
          λ name. get-put "X-Request-ID" name (str (request_id uuid header)) response.headers,
          refl,
        )

  -- If the application raises an exception for a request, the client gets status 500 with the id of
  -- the context around the request, and no header with an id: the request's own id is lost.
  pub serve_unhandled :
      (e : Exn)
      → call_next (request_id uuid header) ≡ err e
      → ((serve uuid header call_next context).status_code ≡ 500)
        × ((serve uuid header call_next context).body
            ≡ obj (
                entry "detail"
                  (str "Internal server error")
                  (entry "request_id" (str context) empty)))
        × (get "X-Request-ID" (serve uuid header call_next context).headers ≡ none)
  unfolding serve dispatch stamped answered get
  serve_unhandled e h = rw (h, serve, dispatch) (refl, refl, refl)

module _ (db : UserStore) (lawful : IsLawful db) (create_all : db.State → db.State)
    (level_of : String → Option ℕ) (log_level : String) (repr : Value → String) (crypt : Crypt)
    (settings : Settings) where
  -- Over a database that keeps its promises, if the password of the administrator is one that is hashed,
  -- and if `create_all` leaves alone the database that a startup has made: a second startup raises nothing, and changes neither the loggers nor the users.
  pub startup_again :
      (salt salt' : String) (loggers : Loggers) (s : db.State)
      → crypt.refuses settings.seed_admin_password ≡ none
      → create_all
          (startup db create_all level_of log_level repr crypt salt settings (loggers, s)).1.1
        ≡ (startup db create_all level_of log_level repr crypt salt settings (loggers, s)).1.1
      → startup db create_all level_of log_level repr crypt salt' settings
          (startup db create_all level_of log_level repr crypt salt settings (loggers, s)).1
        ≡ (none, (startup db create_all level_of log_level repr crypt salt settings (loggers, s)).1)
  unfolding startup
  startup_again salt salt' loggers s plain h =
      let first = seed_admin db repr crypt salt settings (create_all s) in
      let seed_again = seed_admin db repr crypt salt' settings in
      ap
        (λ (t : db.State).
          let p = seed_again t in
          let once = configure_logging level_of log_level loggers in
          (p.0, (configure_logging level_of log_level once, p.1)))
        h
      ∙ ap₂ (λ (l : Loggers) (p : Option Exn × db.State). (p.0, (l, p.1)))
          (configure_logging_again level_of log_level log_level loggers).0
          (seed_admin_idempotent db lawful repr crypt salt salt' settings (create_all s) plain)
