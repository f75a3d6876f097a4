-- ===== src/LockerClient/Screen.antt =====
-- usr/lib/smd/lib/modules/locker.py: `LockerClient` and its processes: the idle process, the lock
-- screen, and the one that switches the displays of a locked screen off.
use spaceport.Base.{
  ℕ, ◌+◌, String, Bool, true, false, not, ◌&&◌, Option, none, some, List, [], ◌∷◌, ◌++◌,
  if◌then◌else◌, is_some,
}
use spaceport.Base.Int.{pos}
use spaceport.Value.{number, arr, end, field, any_text}
use spaceport.Util.{show_number}
use spaceport.Message
use spaceport.Constants.{hook_lock, msg_pre, msg_post, locker_time_blank, locker_time_backoff}
use spaceport.Host.{
  Host, Command, Effect, sent, ran, started, stopped, paused, resumed, nudged, displays_power, emit,
  wake_attempt as attempt_job, blank_backoff, add_task, task_event, cancel_task,
}
use spaceport.Ability.{Ability, can_lock, can_blank, can_suspend, can_hibernate}
use spaceport.LockerClient.State.{
  LockerClient, at_lock, idle_program, lock_program, dpms_program, Env, on_power, is_alive,
  is_locked,
}

abbrev pub act : Effect → LockerClient → LockerClient
act e s = record s { host = emit e s.host }

abbrev pub act_if : Bool → Effect → LockerClient → LockerClient
act_if b e s = record s { host = if b then emit e s.host else s.host }

-- The host once a program has been started; its process has the host's next number.
unfoldable pub start_process : List String → Host → Host
start_process args h = emit (started h.next args) (record h { next = h.next + 1 })

-- `stop(proc)`
unfoldable pub stop_process : Option ℕ → Host → Host
stop_process none h = h
stop_process (some p) h = emit (stopped p) h

-- `_notify_control(enable)`
unfoldable pub notify_control : Env → Bool → LockerClient → LockerClient
notify_control env enable s =
    let c = if enable then Command.notify_on else Command.notify_off in
    act_if (not (env.command_fails c)) (ran c) s

abbrev locker_exec : String
locker_exec = "/usr/lib/smd/libexec/smd-locker"

-- The arguments of `swayidle` that the abilities ask for.
unfoldable pub idle_args : Ability → List String
unfolding show_number
idle_args a =
    (if can_blank a
      then "timeout"
        ∷ show_number a.blank
        ∷ "/usr/lib/smd/libexec/smd-locker blank"
        ∷ "resume"
        ∷ "/usr/lib/smd/libexec/smd-locker power"
        ∷ []
      else [])
    ++ (if can_lock a then "timeout" ∷ show_number a.lock ∷ locker_exec ∷ [] else [])

-- `_idle_init`
unfoldable pub idle_init : Env → LockerClient → LockerClient
idle_init env s =
    let h = stop_process s.idle s.host in
    if not (can_blank s.ability) && not (can_lock s.ability)
    then record s { idle = none; host = h }
    else if env.start_fails idle_program
    then record s { idle = none; host = h }
    else record s {
      idle = some h.next;
      host =
          start_process ("/usr/bin/swayidle" ∷ "-C" ∷ "/dev/null" ∷ "-w" ∷ idle_args s.ability) h;
    }

-- `self._sleeper = cancel_nul(server, self._sleeper)`
abbrev pub cancel_sleeper : LockerClient → LockerClient
cancel_sleeper s = record s { sleeper = none; host = cancel_task s.sleeper s.host }

-- `self._backoff = cancel_nul(server, self._backoff)`
abbrev pub cancel_backoff : LockerClient → LockerClient
cancel_backoff s = record s { backoff = none; host = cancel_task s.backoff s.host }

-- `self._backoff_blank = cancel_nul(server, self._backoff_blank)`
abbrev pub cancel_blank : LockerClient → LockerClient
cancel_blank s = record s { backoff_blank = none; host = cancel_task s.backoff_blank s.host }

-- The locker that would keep the system from the sleep that the client can have.
abbrev pub sleep_blocked : LockerClient → Bool
sleep_blocked s =
    if can_suspend s.ability
    then any_text "suspend" s.lockers
    else can_hibernate s.ability && any_text "hibernate" s.lockers

-- `_wake_check`: a locked screen gets an event that will suspend the system.
unfoldable pub wake_check : LockerClient → LockerClient
wake_check s =
    if s.sleeping
    then cancel_sleeper s
    else if is_some s.backoff
    then s
    else if not (can_lock s.ability)
    then s
    else if sleep_blocked s
    then cancel_sleeper s
    else if is_some s.sleeper
    then s
    else record s {
      sleeper = task_event s.host;
      host =
          add_task (if can_suspend s.ability then s.ability.suspend else s.ability.hibernate)
            attempt_job 5 s.host;
    }

abbrev dpms_args : List String
dpms_args =
    "/usr/bin/swayidle"
    ∷ "-C"
    ∷ "/dev/null"
    ∷ "-w"
    ∷ "timeout"
    ∷ show_number locker_time_blank
    ∷ "swaymsg \"output * power off\""
    ∷ "resume"
    ∷ "swaymsg \"output * power on\""
    ∷ []

abbrev signal : (ℕ → Effect) → Option ℕ → Host → Host
signal f none h = h
signal f (some p) h = emit (f p) h

-- `_lock_dpms(True)`. Where the process does not start the slot keeps the old one, which was stopped.
unfoldable pub dpms_on : Env → LockerClient → LockerClient
dpms_on env s =
    let h = stop_process s.dpms (
      if is_alive env s.idle && not env.pause_fails then signal paused s.idle s.host else s.host) in
    if env.start_fails dpms_program
    then record s { host = h }
    else record s { dpms = some h.next; host = emit (nudged h.next) (start_process dpms_args h) }

-- `_lock_dpms(False)`
unfoldable pub dpms_off : Env → LockerClient → LockerClient
dpms_off env s =
    if not (is_some s.dpms)
    then s
    else let h = stop_process s.dpms s.host in
      if is_alive env s.idle && env.resume_fails
      then record s { dpms = none; host = h }
      else let h' = if is_alive env s.idle then signal resumed s.idle h else h in
        record s {
          dpms = none;
          host = if env.sway_fails then h' else emit (displays_power true) h';
        }

-- What `_lock_unlock` does with a lock screen that was started, whether it has ended or not.
unfoldable pub close_screen : Env → Bool → LockerClient → LockerClient
close_screen env unlock s =
    if not (is_some s.lockscreen)
    then s
    else dpms_off env (
        if unlock
        then record s {
          host =
              emit (sent (Message.new hook_lock (field "type" (number (pos msg_post)) end)))
                (stop_process s.lockscreen (signal nudged s.lockscreen s.host));
        }
        else s)

-- The slots that `_lock_unlock` resets; the next blanking waits for a while.
unfoldable pub reset_lock : LockerClient → LockerClient
reset_lock s =
    let h = cancel_task s.backoff (cancel_task s.sleeper s.host) in
    record s {
      sleeper = none;
      lockscreen = none;
      backoff = none;
      backoff_blank = task_event h;
      host = add_task locker_time_backoff blank_backoff 10 h;
    }

-- `_lock_unlock(unlock)`
unfoldable pub lock_unlock : Env → Bool → LockerClient → LockerClient
lock_unlock env unlock s =
    let s' = reset_lock (close_screen env unlock s) in
    if unlock then notify_control env false s' else s'

-- `_lock`, once the lock screen has started.
unfoldable pub screen_started : Env → LockerClient → LockerClient
screen_started env s =
    let s' = cancel_blank (wake_check (dpms_on env (notify_control env true s))) in
    let told = sent (
      Message.new hook_lock
        (field "type" (number (pos msg_pre)) (field "lockers" (arr s'.lockers) end))) in
    act told (
      act_if
        (not s'.ability.key
          && not (on_power (env.power at_lock))
          && not (env.command_fails Command.lock_keyring))
        (ran Command.lock_keyring) s')

-- `_lock(force)`
unfoldable pub lock : Env → Bool → LockerClient → LockerClient
lock env force s =
    if is_locked env s
    then s
    else if not (can_lock s.ability) && not force
    then s
    else if any_text "lock" s.lockers && not force
    then s
    else if env.start_fails lock_program
    then lock_unlock env true s
    else screen_started env
        (record s { lockscreen = some s.host.next; host = start_process s.cmd s.host })
