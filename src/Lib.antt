-- ===== src/Lib.antt =====
-- A REST service in Python in front of the LXD daemon: it keeps accounts with roles, hands out
-- tokens, and turns each HTTP request of a user into requests to LXD's own API. This library models
-- the package `app` as functions and states what they promise.
--
-- The parts, and the files that model them:
--
--   Base, Json          numbers, texts and the dynamic values that pass between the two APIs
--   Error               app/services/exceptions.py, and `_lxd_err_to_http`, which nine route modules
--                       repeat word for word
--   Config              app/core/config.py (`Settings`)
--   App                 the effect of a handler: it adds requests to a log and returns or raises
--   Client              app/services/lxd_client.py and app/schemas/lxd.py (`LXDClient`, `LXDResponse`);
--                       Client/Transport is the construction and the cache of the HTTP client and
--                       Client/Params `_build_params`
--   Operation           app/services/lxd_operations.py (`to_async_ref`, `wait_for_operation`)
--   Pagination          app/utils/pagination.py
--   Security            app/core/security.py (roles, tokens, password checks)
--   Users               app/db/models.py, app/db/crud.py, app/db/seed.py; Users/Directory is an
--                       abstract specification of it, a map from names to accounts
--   Database            app/db/session.py: the session of a request (`get_db`), and app/db/crud.py and
--                       app/db/seed.py as steps in a session; Database/Files is `_ensure_sqlite_dir`, and
--                       Database/Schema the table `users` of app/db/models.py and the migration
--                       alembic/versions/0001_create_users_table.py
--   Deps                app/api/deps.py (`get_current_user`, `require_role`, `ws_user_from_token`)
--   Auth                app/api/v1/routes/auth.py, app/schemas/auth.py
--   Limits              app/core/limiter.py, and the limits on `login`, `refresh` and `register`
--   Schemas             the other files of app/schemas: the models, their `model_dump`, and the
--                       constraints of their fields
--   Routes              app/api/v1/routes: a module per file there, with a function per handler;
--                       Routes/Common is what they share, Routes/Endpoint the 64 endpoints over LXD as
--                       one data type with the handler of each, and Routes/Endpoint/Declared the role,
--                       the status and the type that each declares, Routes/Endpoint/Shapes
--                       what each answers with;
--                       Routes/Endpoint/Calls puts `get_current_user` in front of them, and
--                       Routes/Endpoint/Reaching is about what their requests reach in LXD;
--                       Routes/Sockets is `exec_ws`, `console_ws` and `operations_ws` up to the
--                       connection to LXD, Routes/Sockets/Access who gets that far, Routes/Relay the two
--                       tasks that copy frames over it, and Routes/Sockets/Runs the handlers as a whole;
--                       Routes/Queries compares the queries of the handlers with `_build_params`
--   Logging             app/utils/logging.py
--   Server              app/main.py: the request id, unhandled exceptions, the startup; Server/Requests
--                       is a whole request, from its header to the response, with the
--                       validation of what a handler returns, and Server/Accounts the
--                       accounts over any number of registrations and startups
--   Tests               the theorems at concrete inputs
--
-- How they interact. FastAPI resolves the dependencies of a handler before its body, so a handler
-- takes the result of `get_current_user` as an argument and starts with `guarded`, the check of
-- `require_role`. It then calls the client of LXD. A handler is a function from the log of the
-- requests that were sent to LXD, the latest first, to a result and the longer log; the reply to a
-- request is a function of the request and of all requests before it, so LXD may keep any state.
-- The URL of a request is the text that is handed to the HTTP client, which resolves dot segments
-- before it sends it, and which may refuse it (`bad_url`, for `httpx.InvalidURL`).
-- Exceptions are values: `http` is `HTTPException`, `lxd` an `LXDError` of a class. The two tasks of
-- a WebSocket session run concurrently: a session is a sequence of steps of either task in any order,
-- where each step chooses the task, and what either socket gives is a parameter.
--
-- A parameter `_: CurrentUser = RequireViewer` is read as the check of the role, which depends on the
-- user; and the type that a handler declares is read as the validation of its answer.
--
-- Parameters. The HTTP library and LXD (`send`), the decoding of a reply by JSON and pydantic
-- (`model_validate`), token signing (`Jwt`), password hashing (`Crypt`) and the database
-- (`UserStore`) are outside the repository. They are records of functions; where a theorem needs more
-- of them, `IsLawfulJwt`, `IsLawfulCrypt` and `IsLawful` state it, and Tests/Fixtures and Users/Table
-- give instances. The session of SQLAlchemy (`Sessions`) and what a migration does to a database
-- (`Schemas`) are such records too, with `IsSound` and `IsSchemas`, and the limiter of slowapi
-- (`Limiter`), with `IsLimiter`. So are `repr`, Python's rendering
-- of a list or a dictionary, `dict_of`, its `dict` of a value that is no dictionary, `exists` for files
-- and `quote` for texts in a URL.
--
-- Bounds. Numbers in JSON are whole and not negative, and times are whole seconds. No definition
-- takes fuel: all recursion is on lists, texts and dictionaries.
--
-- Not modelled: CORS, which is middleware of a library; alembic/env.py and the making
-- of the engine, which are calls of libraries; loading settings from the environment, and parsing and
-- coercion by pydantic; and what the sessions log.
pub mod Base
pub mod Json
pub mod Error
pub mod Config
pub mod App
pub mod Client
pub mod Operation
pub mod Pagination
pub mod Security
pub mod Users
pub mod Database
pub mod Deps
pub mod Auth
pub mod Limits
pub mod Schemas
pub mod Routes
pub mod Logging
pub mod Server
pub mod Tests
