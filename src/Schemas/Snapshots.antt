-- ===== src/Schemas/Snapshots.antt =====
-- schemas/snapshots.py, of snapshots and backups.
use lxd_management_api.Base.{String, Bool, Option, [], ◌∷◌}
use lxd_management_api.Json.{bool, str, Dict, empty, entry, opt_str}
use lxd_management_api.Schemas.Fields.{dump_fields, matches_name}

pub record SnapshotCreate : Type 0 where
  pub name : String
  pub stateful : Bool
  pub expires_at : Option String
  pub extra : Dict

unfoldable pub dump_snapshot_create : SnapshotCreate → Dict
unfolding dump_fields
dump_snapshot_create p =
    dump_fields
      (("name", str p.name)
        ∷ ("stateful", bool p.stateful)
        ∷ ("expires_at", opt_str p.expires_at)
        ∷ [])
      p.extra

-- The constraint of `SnapshotCreate`.
unfoldable pub accepts_snapshot_create : SnapshotCreate → Bool
unfolding matches_name
accepts_snapshot_create p = matches_name p.name

-- `SnapshotRestore(restore=snap).model_dump(exclude_none=True)`.
unfoldable pub dump_snapshot_restore : String → Dict
dump_snapshot_restore snap = entry "restore" (str snap) empty

pub record BackupCreate : Type 0 where
  pub name : String
  pub expires_at : Option String
  pub instance_only : Bool
  pub container_only : Bool
  pub optimized_storage : Bool
  pub compression_algorithm : Option String
  pub extra : Dict

unfoldable pub dump_backup_create : BackupCreate → Dict
unfolding dump_fields
dump_backup_create p =
    dump_fields
      (("name", str p.name)
        ∷ ("expires_at", opt_str p.expires_at)
        ∷ ("instance_only", bool p.instance_only)
        ∷ ("container_only", bool p.container_only)
        ∷ ("optimized_storage", bool p.optimized_storage)
        ∷ ("compression_algorithm", opt_str p.compression_algorithm)
        ∷ [])
      p.extra

-- The constraint of `BackupCreate`.
unfoldable pub accepts_backup_create : BackupCreate → Bool
unfolding matches_name
accepts_backup_create p = matches_name p.name
