-- ===== src/LockerClient/Calls.antt =====
-- usr/lib/smd/lib/modules/locker.py: the functions of `LockerClient` that the hooks of `HOOKS`, the
-- scheduler and the service call.
use spaceport.Base.{
  Option, ℕ, ◌+◌, String, Bool, true, false, not, ◌&&◌, ◌||◌, none, some, List, [], ◌∷◌, ◌==◌,
  if◌then◌else◌, is_some,
}
use spaceport.Base.Int.{pos}
use spaceport.Value.{
  Value, number, text, arr, dict, Items, nil, cons, Fields, end, field, Result, ok, err, is_null,
  truthy, any_text, field_names,
}
use spaceport.Storage
use spaceport.Util.Exec.{split}
use spaceport.Message
use spaceport.Message.{Message, attr, attr_is}
use spaceport.Constants.{
  hook_ok, hook_lock, hook_locker, hook_power, hook_reload, msg_pre, msg_post, msg_status,
  msg_config, msg_update, trigger_lock, trigger_blank, trigger_timeout, trigger_key,
  locker_time_backoff,
}
use spaceport.Host.{
  Job, wake_attempt as attempt_job, wake_backoff as backoff_job, blank_backoff, sent,
  displays_power, add_task, task_event, due_task, remove_task,
}
use spaceport.Ability
use spaceport.Ability.{Ability, to_dict, can_blank}
use spaceport.LockerServer.{Reply, nothing, pass, code}
use spaceport.LockerClient.State.{
  LockerClient, Env, at_setup, at_resume, on_power, is_alive, is_locked,
}
use spaceport.LockerClient.Screen.{
  act, act_if, stop_process, notify_control, idle_init, cancel_sleeper, cancel_backoff,
  cancel_blank, wake_check, lock_unlock, lock,
}

abbrev pub Handled : Type 0
Handled = Result Reply × LockerClient

-- `_wake_attempt`
unfoldable pub wake_attempt : Env → LockerClient → LockerClient
wake_attempt env s =
    let s' = cancel_backoff (
      act (sent (Message.new hook_lock (field "trigger" (number (pos trigger_timeout)) end)))
        (lock env true (cancel_sleeper s))) in
    record s' {
      backoff = task_event s'.host;
      host = add_task locker_time_backoff backoff_job 10 s'.host;
    }

-- The abilities for the source of power, and which one it is.
abbrev pub use_power : Bool → LockerClient → LockerClient
use_power powered s = record s {
  ability = if powered then s.ability_ac else s.ability_battery;
  battery = not powered;
}

abbrev text_items : List String → Items
text_items [] = nil
text_items (k ∷ ks) = cons (text k) (text_items ks)

-- `self._cmd` from the configuration: a value that is no command leaves the default list itself.
abbrev pub set_command : Option (List String) → LockerClient → LockerClient
set_command none s = record s { cmd = s.default_cmd; shared = true }
set_command (some c) s = record s { cmd = c; shared = false }

-- `setup` once the lock command was split.
unfoldable pub start_idle :
    Env → Result (Option (List String)) → LockerClient → Result (Unit {0}) × LockerClient
start_idle env (err e) s = (err e, s)
start_idle env (ok c) s = (ok tt, idle_init env (cancel_blank (set_command c s)))

-- `setup` once the lock command was asked for, with the configuration after that.
unfoldable pub setup_idle :
    Env → Result Value × Fields → LockerClient → Result (Unit {0}) × LockerClient
setup_idle env (err e, c) s = (err e, record s { config = c })
setup_idle env (ok v, c) s = start_idle env (split env.shell v) (record s { config = c })

-- `setup` once `Ability.load(server, "battery")` was called.
unfoldable pub setup_command :
    Env → Result Ability × Fields → LockerClient → Result (Unit {0}) × LockerClient
setup_command env (err e, c) s = (err e, record s { config = c })
setup_command env (ok a, c) s =
    setup_idle env (Storage.get "locker.lock_command" (arr (text_items s.default_cmd)) false c)
      (use_power (on_power (env.power at_setup)) (record s { ability_battery = a; config = c }))

-- `setup` once `Ability.load(server, "power")` was called.
unfoldable pub setup_battery :
    Env → Result Ability × Fields → LockerClient → Result (Unit {0}) × LockerClient
setup_battery env (err e, c) s = (err e, record s { config = c })
setup_battery env (ok a, c) s =
    setup_command env (Ability.load "battery" c) (record s { ability_ac = a; config = c })

-- `setup`: what raises leaves what was set before it.
unfoldable pub setup : Env → LockerClient → Result (Unit {0}) × LockerClient
setup env s = setup_battery env (Ability.load "power" s.config) s

-- The lock screen as `thread` finds it.
abbrev pub watch_screen : Env → LockerClient → LockerClient
watch_screen env s =
    if is_locked env s
    then wake_check s
    else if is_some s.lockscreen
    then lock_unlock env true s
    else s

-- `thread`, the function that the service calls once a second
unfoldable pub thread : Env → LockerClient → LockerClient
thread env s =
    let s' = watch_screen env s in
    if not (is_some s'.idle) || is_alive env s'.idle
    then s'
    else record s' { idle = none; host = stop_process s'.idle s'.host }

-- `self._idle`, `self._cmd` and `self._lockers` are let go. A shared command is the default itself.
unfoldable pub clear : LockerClient → LockerClient
clear s = record s {
  idle = none;
  host = stop_process s.idle s.host;
  cmd = [];
  default_cmd = if s.shared then [] else s.default_cmd;
  lockers = nil;
}

-- `shutdown`
unfoldable pub shutdown : Env → LockerClient → LockerClient
shutdown env s = clear (lock_unlock env false s)

-- The message that tells the server of the abilities.
abbrev pub abilities_message : ℕ → LockerClient → Reply
abilities_message kind s = pass (
    Message.new hook_locker
      (field "type" (number (pos kind)) (field "abilities" (dict (to_dict s.ability)) end)))

-- The source of power is looked at: where it has changed, so do the abilities, and the server is told.
unfoldable pub switch_power : Env → Bool → LockerClient → Reply × LockerClient
switch_power env powered s =
    if not (if powered then s.battery else not s.battery)
    then (nothing, s)
    else let s' = idle_init env (use_power powered s) in (abilities_message msg_config s', s')

-- `sleep` before the system sleeps.
unfoldable pub before_sleep : Env → LockerClient → LockerClient
before_sleep env s = lock env true (cancel_backoff (record (cancel_sleeper s) { sleeping = true }))

-- `sleep` after it: the screen is locked, and the displays are on.
unfoldable pub woken : Env → LockerClient → LockerClient
woken env s =
    let s' = cancel_backoff (record s { sleeping = false }) in
    act_if (not env.sway_fails) (displays_power true)
      (if is_locked env s' then wake_check s' else lock env true s')

-- `sleep(message)`
unfoldable pub sleep : Env → Message → LockerClient → Reply × LockerClient
sleep env m s =
    if attr_is "type" m msg_pre
    then (code hook_ok, before_sleep env s)
    else switch_power env (on_power (env.power at_resume)) (woken env s)

-- The lockers that the server sends: the keys of a dict, or a list. The code keeps any other value as it
-- is, which the server does not send; here the lockers stay.
abbrev pub set_lockers : Value → LockerClient → LockerClient
set_lockers (dict d) s = record s { lockers = text_items (field_names d) }
set_lockers (arr vs) s = record s { lockers = vs }
set_lockers _ s = s

-- `update(message)`
unfoldable pub update : Env → Message → LockerClient → Reply × LockerClient
update env m s =
    if m.header == hook_power
    then (if attr_is "type" m msg_pre
        then switch_power env false s
        else if attr_is "type" m msg_post
        then switch_power env true s
        else (nothing, s))
    else if not (attr_is "type" m msg_status) || is_null (attr "lockers" m)
    then (nothing, s)
    else (nothing, set_lockers (attr "lockers" m) s)

-- `trigger(message)`
unfoldable pub trigger : Env → Message → LockerClient → LockerClient
trigger env m s =
    if not (is_null (attr "type" m))
    then s
    else if attr_is "trigger" m trigger_blank
    then (if not (can_blank s.ability)
        then s
        else if any_text "blank" s.lockers
        then s
        else if is_some s.backoff_blank
        then s
        else act_if (not env.sway_fails) (displays_power false) s)
    else if attr_is "trigger" m trigger_key && not s.ability.key
    then s
    else if is_some s.backoff_blank
        && attr_is "trigger" m trigger_lock
        && not (truthy (attr "force" m))
    then s
    else lock env (truthy (attr "force" m) || attr_is "trigger" m trigger_key) s

abbrev pub announce : Env → LockerClient → Result Reply × LockerClient
announce env s = let s' = notify_control env false s in (ok (abilities_message msg_update s'), s')

abbrev pub announce_after : Env → Result (Unit {0}) × LockerClient → Handled
announce_after env (err e, s) = (err e, s)
announce_after env (ok _, s) = announce env s

-- `startup(message)`
unfoldable pub startup : Env → Message → LockerClient → Handled
startup env m s =
    if not (m.header == hook_reload)
    then announce env s
    else if is_locked env s
    then (ok nothing, s)
    else announce_after env (setup env (clear s))

-- `_wake_attempt`, `_wake_backoff` and `_blank_backoff`, as the scheduler calls them.
unfoldable pub run_job : Env → Job → LockerClient → LockerClient
run_job env attempt_job s = wake_attempt env s
run_job env backoff_job s = record s { backoff = none }
run_job env blank_backoff s = record s { backoff_blank = none }
run_job env _ s = s

-- The event that is due, if there is one, leaves the queue and is run.
unfoldable pub fire : Env → LockerClient → LockerClient
fire env s = elim (due_task s.host) [
  | none ↦ s
  | some t ↦
      let h = s.host in
      run_job env t.job (record s { host = record h { queue = remove_task t.id h.queue } })
]

-- `HOOKS`, with `setup`, `shutdown`, an event of the scheduler that is due, time that passes, and the
-- service that begins to stop.
pub data Event : Type 0 where
  on_lock on_sleep on_update on_startup : Message → Event
  on_daemon on_shutdown on_setup on_schedule on_stop : Event
  on_time : ℕ → Event

-- The state after an event, whether its function returned or raised.
unfoldable pub step : Env → Event → LockerClient → LockerClient
step env (on_lock m) s = trigger env m s
step env (on_sleep m) s = (sleep env m s).1
step env (on_update m) s = (update env m s).1
step env (on_startup m) s = (startup env m s).1
step env on_daemon s = thread env s
step env on_shutdown s = shutdown env s
step env on_setup s = (setup env s).1
step env on_schedule s = fire env s
step env on_stop s = record s { host = record s.host { stopping = true } }
step env (on_time n) s = record s { host = record s.host { now = s.host.now + n } }

-- A run: each event with what the system answers in it.
unfoldable pub run : List (Env × Event) → LockerClient → LockerClient
run [] s = s
run ((env, e) ∷ es) s = run es (step env e s)
