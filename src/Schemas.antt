-- ===== src/Schemas.antt =====
-- schemas/*.py: the bodies that the routes send to LXD. A record holds what pydantic has parsed;
-- `dump` is its `model_dump(exclude_none=True)` (with `by_alias=True` where an alias is declared):
-- the fields in the order of the class, and behind them the extra fields, which the models let
-- through. `accepts` is the test of the constraints that the fields of a class declare.
pub mod Fields
pub mod Instances
pub mod Snapshots
pub mod Storage
pub mod Networks
pub mod Images
pub mod Laws
unfoldable pub use Instances.*
unfoldable pub use Snapshots.*
unfoldable pub use Storage.*
unfoldable pub use Networks.*
unfoldable pub use Images.*
