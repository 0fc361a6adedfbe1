-- ===== src/Server/Sound.antt =====
-- The invariant of the lease tables, and how it is kept by a write to one of them.
mod Defs
mod Writes
mod Join
pub mod Acquire
pub mod Loose
pub mod Settle
pub mod Leave
pub mod Release
pub mod Lease
pub mod Sweep
pub mod Handle
use re_remote_dev.Prelude.{◌*◌}
pub use Defs.*
pub use Writes.*
