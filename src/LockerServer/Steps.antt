-- ===== src/LockerServer/Steps.antt =====
-- usr/lib/smd/lib/modules/locker.py: the life of `LockerServer` as a sequence of calls, from the hooks
-- of `HOOKS_SERVER`, from the scheduler, and from the clock.
use spaceport.Base.{ℕ, ◌+◌, true, some, List, [], ◌∷◌}
use spaceport.Message.{Message}
use spaceport.Host.{Host}
use spaceport.LockerServer.State.{LockerServer, Env}
use spaceport.LockerServer.Table.{fire}
use spaceport.LockerServer.Power.{screen, suspend, hibernate, reload, shutdown, setup_server}
use spaceport.LockerServer.Update.{update, trigger, thread}

-- `HOOKS_SERVER`, with `setup_server`, an event of the scheduler that is due, time that passes, and the
-- daemon that begins to stop.
pub data Event : Type 0 where
  on_lock on_screen on_locker on_reload on_suspend on_hibernate : Message → Event
  on_daemon on_shutdown on_setup on_schedule on_stop : Event
  on_time : ℕ → Event

abbrev pub with_host : (Host → Host) → LockerServer → LockerServer
with_host f s = record s { host = f s.host }

-- The state after an event, whether its function returned or raised.
unfoldable pub step : Env → Event → LockerServer → LockerServer
step env (on_lock m) s = (trigger env m s).1
step env (on_screen m) s = (screen env (some m) true s).1
step env (on_locker m) s = (update m s).1
step env (on_reload m) s = (reload env m s).1
step env (on_suspend m) s = (suspend env m s).1
step env (on_hibernate m) s = (hibernate env m s).1
step env on_daemon s = (thread env s).1
step env on_shutdown s = shutdown s
step env on_setup s = (setup_server env s).1
step env on_schedule s = fire s
step env on_stop s = with_host (λ h. record h { stopping = true }) s
step env (on_time n) s = with_host (λ h. record h { now = h.now + n }) s

-- A run: each event with what the system answers in it.
unfoldable pub run : List (Env × Event) → LockerServer → LockerServer
run [] s = s
run ((env, e) ∷ es) s = run es (step env e s)
