-- ===== src/Tests/Urls.antt =====
-- URLs of databases.
use lxd_management_api.Base.{◌≡◌, refl, some, none}
use lxd_management_api.Database.Files.{sqlite_dir}

default_url : sqlite_dir "sqlite+aiosqlite:///./data/lxd_api.db" ≡ some "./data"
unfolding sqlite_dir
default_url = refl

bare_url : sqlite_dir "sqlite+aiosqlite://" ≡ some "sqlite+aiosqlite:"
unfolding sqlite_dir
bare_url = refl

memory_url : sqlite_dir "sqlite+aiosqlite:///:memory:" ≡ none
unfolding sqlite_dir
memory_url = refl

absolute_url : sqlite_dir "sqlite:////var/lib/x.db" ≡ some "/var/lib"
unfolding sqlite_dir
absolute_url = refl
