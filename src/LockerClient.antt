-- ===== src/LockerClient.antt =====
-- usr/lib/smd/lib/modules/locker.py: `LockerClient`, which runs the lock screen of one user, dims the
-- displays, and asks the server to suspend once the screen has been locked for long enough. Log lines
-- are left out.
mod State
mod Screen
mod Calls
pub mod Queue
pub mod Asleep
pub mod Locking
pub use State.*
unfoldable pub use Screen.{
  idle_init, screen_started, wake_check, dpms_on, dpms_off, lock_unlock, lock, notify_control,
  start_process, stop_process,
}
unfoldable pub use Calls.{
  wake_attempt, start_idle, setup_idle, setup_command, setup_battery, setup, thread, clear,
  shutdown, switch_power, before_sleep, woken, sleep, update, trigger, startup, run_job, fire, step,
  run,
}
pub use Screen.{act_if}
pub use Calls.{Event}
