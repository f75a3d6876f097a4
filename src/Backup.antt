-- ===== src/Backup.antt =====
-- usr/lib/smd/lib/modules/backup.py: the backups of the daemon.
pub mod Constants
pub mod Schedule
pub mod Text
pub mod Upload
pub mod Plan
pub mod Queue
pub mod Job
pub mod Server
