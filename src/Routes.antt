-- ===== src/Routes.antt =====
-- api/v1/routes/*.py: the endpoints over LXD. Each handler starts from the result of the dependency
-- `get_current_user`; the path and query parameters are its arguments.
pub mod Common
pub mod Queries
pub mod Devices
pub mod Instances
pub mod Snapshots
pub mod Backups
pub mod Storage
pub mod Networks
pub mod Projects
pub mod Images
pub mod Operations
pub mod System
pub mod Relay
pub mod Sockets
pub mod Waiting
pub mod Raises
pub mod Scope
pub mod Contained
pub mod Endpoint
