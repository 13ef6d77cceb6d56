-- ===== src/Tests/Queries.antt =====
-- The queries for the running containers of the project `prod`.
