-- ===== src/LockerServer.antt =====
-- usr/lib/smd/lib/modules/locker.py: `LockerServer`, which holds the lockers (the inhibitors) and
-- decides when the system suspends, hibernates and locks. The state is the object's slots and, in
-- `host`, what the calls on `server` act upon; log lines are left out. What the system answers in one
-- run of a handler is the handler's argument `env`.
mod State
mod Table
mod Power
mod Update
mod Steps
pub mod Sync
pub mod Keeps
pub mod Timed
pub mod Sound
pub mod Invariant
pub mod Sleep
pub mod Lockers
pub mod Exchange
unfoldable pub use Steps.{step, run}
pub use Steps.{Event}
pub use State.*
unfoldable pub use Table.{
  locker_close, locker_remove, new_locker, locker_name, locker_time, replace_locker, set_locker,
  add_named, locker_add, close_all, run_job, fire,
}
pub use Table.{AddError, invalid_name, invalid_time, unhashable}
unfoldable pub use Power.{
  start_backoff, screen, run_command, try_suspend, write_alarm_after, wake_set_beside, wake_set,
  read_alarm, wake_check, lid_event, lid_check, after_sleep, suspend, hibernate, shutdown,
  find_lid_switch, setup_lid, setup_server, reload,
}
unfoldable pub use Update.{
  add_item, add_items, add_list, action, report, update, trigger, notify, thread,
}
pub use Update.{refuse_backup, add_done}
