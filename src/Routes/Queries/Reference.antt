-- ===== src/Routes/Queries/Reference.antt =====
-- The queries that the handlers put together themselves, against `LXDClient._build_params`
-- (services/lxd_client.py), which none of them calls.
use lxd_management_api.Base.{String, ◌==◌, if◌then◌else◌}
use lxd_management_api.Json.{Value, null}

-- A choice by the keys of `_build_params` and `type`.
abbrev chosen : String → Value → Value → Value → Value → Value
chosen key recursion filter project type =
    if "type" == key
    then type
    else if "recursion" == key
    then recursion
    else if "filter" == key
    then filter
    else if "project" == key
    then project
    else null
