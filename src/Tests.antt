-- ===== src/Tests.antt =====
-- The theorems of the library at concrete inputs.
mod Server
mod Client
mod Data
mod Hooks
mod Backups
mod Machines
mod Daemon
mod Sessions
