-- ===== src/Error/Status.antt =====
-- The HTTP statuses that a client of the API sees for LXD's errors.
use lxd_management_api.Base.{ℕ, num_eq, String, ◌≡◌, arith, if◌then◌else◌}
use lxd_management_api.Error.{lxd_error_for_status, http, lxd, convert_lxd}

-- The status that the documentation promises for a status that LXD reported.
abbrev pub promised_status : ℕ → ℕ
promised_status n = if num_eq n 401 then 403 else if num_eq n 0 then 500 else n

-- For every status that LXD reports in an error envelope, the client sees that status with LXD's
-- message, but 403 for 401, and 500 for 0.
pub convert_lxd-lxd_error_for_status :
    (message : String) (code : ℕ)
    → convert_lxd (lxd (lxd_error_for_status message code)) ≡ http (promised_status code) message
unfolding convert_lxd lxd_error_for_status
convert_lxd-lxd_error_for_status message code = ground arith
