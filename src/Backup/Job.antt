-- ===== src/Backup/Job.antt =====
-- usr/lib/smd/lib/modules/backup.py: `Backup`, a backup that runs.
pub mod State
pub mod Stop
mod Commands
mod Hash
mod Steps
pub mod Next
pub mod Ends
mod Progress
mod Rises
pub mod Life
pub mod Depth
pub mod Control
pub mod Count
pub mod Locker
