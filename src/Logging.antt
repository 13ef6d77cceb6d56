-- ===== src/Logging.antt =====
-- utils/logging.py: the line of a log record, and the set-up of the loggers. The levels that the
-- standard library names, the clock, and the rendering of an exception are outside the repository.
pub mod Laws
use lxd_management_api.Base.{ℕ, String, ◌==◌, Option, none, some, List, [], ◌∷◌, if◌then◌else◌}
use lxd_management_api.Base.Text.{nonempty}
use lxd_management_api.Json.{Value, str, Dict, empty, entry, put}

-- A record of the standard library, with its exception rendered, if it has one.
pub record LogRecord : Type 0 where
  pub levelname : String
  pub name : String
  pub message : String
  pub exc_info : Option String

-- The payload of `JsonFormatter.format`, before `json.dumps`, at a time and with the request id of
-- the context.
unfoldable pub format : String → String → LogRecord → Dict
unfolding put
format timestamp request_id r =
    let payload = entry "timestamp" (str timestamp) (
      entry "level" (str r.levelname)
        (entry "logger" (str r.name) (entry "message" (str r.message) empty))) in
    let stamped =
      if nonempty request_id then put "request_id" (str request_id) payload else payload in
    elim r.exc_info [ none ↦ stamped | some text ↦ put "exc_info" (str text) stamped ]

-- A handler of the root logger: the one of this program, or another.
pub data Handler : Type 0 where
  json_stdout : Handler
  foreign : String → Handler

-- The handlers and the level of the root logger, and the levels of the loggers by their names.
pub record Loggers : Type 0 where
  pub handlers : List Handler
  pub level : ℕ
  pub levels : String → ℕ

abbrev pub info : ℕ
info = 20

abbrev pub warning : ℕ
warning = 30

-- `logging.getLogger(name).setLevel(level)`.
abbrev pub set_level : String → ℕ → (String → ℕ) → String → ℕ
set_level name level levels other = if name == other then level else levels other

-- `for noisy in (…)`.
abbrev pub quieten : List String → (String → ℕ) → String → ℕ
quieten [] levels = levels
quieten (name ∷ names) levels = quieten names (set_level name warning levels)

abbrev pub noisy : List String
noisy = "uvicorn.access" ∷ ("sqlalchemy.engine" ∷ ("alembic" ∷ []))

-- `configure_logging`; `level_of level` is `getattr(logging, level.upper())`, where there is one.
unfoldable pub configure_logging : (String → Option ℕ) → String → Loggers → Loggers
configure_logging level_of level s = record {
  handlers = json_stdout ∷ [];
  level = elim (level_of level) [ none ↦ info | some n ↦ n ];
  levels = quieten noisy s.levels;
}
