-- ===== src/Logging/Laws.antt =====
-- Setting up the loggers again, and what a line of the log has.
use mathlib.Core.Path.{fun_ext}
use lxd_management_api.Base.{
  ℕ, String, ◌≡◌, refl, ap, Option, none, some, [], ◌∷◌, arith, if◌then◌else◌,
}
use lxd_management_api.Base.Text.{nonempty}
use lxd_management_api.Json.{str, get}
use lxd_management_api.Logging.{
  LogRecord, format, Loggers, configure_logging, json_stdout, quieten, noisy,
}

-- A second change of a level replaces the first.
quieten_again :
    (levels : String → ℕ) (other : String)
    → quieten noisy (quieten noisy levels) other ≡ quieten noisy levels other
quieten_again levels other = ground arith

-- However often the loggers have been set up before, with whatever levels: they are as if they had
-- been set up once, with the last level; the root logger has exactly one handler.
pub configure_logging_again :
    (level_of : String → Option ℕ) (old level : String) (s : Loggers)
    → (configure_logging level_of level (configure_logging level_of old s)
        ≡ configure_logging level_of level s)
      × ((configure_logging level_of level s).handlers ≡ json_stdout ∷ [])
unfolding configure_logging
configure_logging_again level_of old level s = (
  ap (λ (l : String → ℕ). record (configure_logging level_of level s) { levels = l })
      (fun_ext (quieten_again s.levels)),
  refl,
)

-- A line of the log has the request id exactly where there is one, and the message, the level and
-- the name of the logger in any case.
pub get-format :
    (timestamp request_id : String) (r : LogRecord)
    → (get "request_id" (format timestamp request_id r)
        ≡ (if nonempty request_id then some (str request_id) else none))
      × (get "message" (format timestamp request_id r) ≡ some (str r.message))
      × (get "level" (format timestamp request_id r) ≡ some (str r.levelname))
      × (get "logger" (format timestamp request_id r) ≡ some (str r.name))
unfolding format get
get-format timestamp request_id r = ground arith
