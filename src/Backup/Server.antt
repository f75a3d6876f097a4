-- ===== src/Backup/Server.antt =====
-- usr/lib/smd/lib/modules/backup.py: `BackupServer`, which chooses the backup that runs and answers requests.
mod Defs
mod Status
mod Select
mod Control
pub mod Requests
pub use Defs.{BackupServer, System, Answer, nothing, result, failed, words, statuses, Handled}
unfoldable pub use Defs.{remember, hook, stop}
unfoldable pub use Status.{status_row, status}
unfoldable pub use Select.{choose, launch, select}
unfoldable pub use Control.{finished, control}
