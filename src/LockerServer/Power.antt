-- ===== src/LockerServer/Power.antt =====
-- usr/lib/smd/lib/modules/locker.py: `LockerServer` and the power of the machine: suspending,
-- hibernating, the RTC alarm, the lid and the displays.
use spaceport.Base.{
  ℕ, ◌+◌, String, Bool, true, false, not, ◌&&◌, ◌||◌, Option, none, some, List, [], ◌∷◌, ◌==◌, ltb,
  if◌then◌else◌, is_some, str_eq, codes, get_elem?,
}
use spaceport.Base.Dict.{lookup, contains}
use spaceport.Value.{end, Result, ok, err, attribute_error, truthy, starts_with}
use spaceport.Message
use spaceport.Message.{Message, attr, attr_is, uid_is, multicast}
use spaceport.Constants.{hook_monitor, hook_power, msg_pre, msg_post, locker_time_backoff}
use spaceport.Host.{
  Command, Effect, sent, ran, alarm_set, alarm_cleared, status_written, emit, seconds,
  backoff_clear, add_task, task_event, cancel_task,
}
use spaceport.Ability.{Locker, can_suspend, can_hibernate}
use spaceport.LockerServer.State.{
  LockerServer, Reply, nothing, pass, LidRead, lid_bytes, Probe, named, Env, connected_displays,
}
use spaceport.LockerServer.Table.{locker_remove, close_all}

abbrev pub Handled : Type 0
Handled = Result Reply × LockerServer

abbrev pub act : Effect → LockerServer → LockerServer
act e s = record s { host = emit e s.host }

-- `self._backoff = server.task(LOCKER_TIME_BACKOFF, self._backoff_clear)`
unfoldable pub start_backoff : LockerServer → LockerServer
start_backoff s = record s {
  backoff = task_event s.host;
  host = add_task locker_time_backoff backoff_clear 10 s.host;
}

-- The end of `screen`: who is told of the displays.
abbrev pub screen_reply : Option Message → LockerServer → Handled
screen_reply none s = (ok nothing, act (sent (Message.new hook_monitor end)) s)
screen_reply (some m) s = (ok (if m.header == hook_power then nothing else pass (multicast m)), s)

-- `self._displays = _connected_displays(server)`, and the reply.
abbrev pub look : Option Message → Result Bool → LockerServer → Handled
look message (err e) s = (err e, s)
look message (ok found) s = screen_reply message (record s { displays = found })

abbrev pub from_root : Option Message → Bool
from_root none = true
from_root (some m) = uid_is m 0

-- `screen(message, close)`
unfoldable pub screen : Env → Option Message → Bool → LockerServer → Handled
screen env message close s =
    if not (from_root message)
    then (ok nothing, s)
    else if is_some s.backoff
    then (ok nothing, s)
    else look message (connected_displays env) (if close then start_backoff s else s)

-- `nulexec(…, wait=True)`, with a failure logged.
unfoldable pub run_command : Env → Command → LockerServer → LockerServer
run_command env c s = if env.command_fails c then s else act (ran c) s

-- `_suspend(is_lid)`
unfoldable pub try_suspend : Env → Bool → LockerServer → LockerServer
try_suspend env is_lid s =
    if is_some s.backoff
    then s
    else if not (can_suspend s.ability)
    then if not (can_hibernate s.ability)
      then s
      else if contains "hibernate" s.lockers
      then s
      else if contains "backup" s.lockers
      then s
      else run_command env Command.hibernate s
    else if contains "suspend" s.lockers && not is_lid
    then s
    else if contains "backup" s.lockers && not is_lid
    then s
    else run_command env Command.suspend s

-- The second at which the alarm is to wake the system.
abbrev pub alarm_time : LockerServer → ℕ
alarm_time s = seconds s.host + s.ability.hibernate

abbrev pub alarm_is_set : LockerServer → LockerServer
alarm_is_set s = record s { host = emit (alarm_set (alarm_time s)) s.host; wake_alarm = true }

-- The writes of `_wake_set`. A device that is busy (0x10) is cleared and written once more.
unfoldable pub write_alarm_after : Option ℕ → Env → LockerServer → LockerServer
write_alarm_after none env s = alarm_is_set s
write_alarm_after (some e) env s =
    if e == 0x10
    then if is_some (env.alarm_write 1)
      then s
      else if is_some (env.alarm_write 2)
      then act alarm_cleared s
      else alarm_is_set (act alarm_cleared s)
    else s

abbrev pub write_alarm : Env → LockerServer → LockerServer
write_alarm env s = write_alarm_after (env.alarm_write 0) env s

-- Does a Hibernate locker stand beyond the time at which the alarm would wake the system?
abbrev pub blocks_alarm : Locker → LockerServer → Bool
blocks_alarm l s = elim l.expire [ none ↦ true | some t ↦ ltb (alarm_time s) t ]

-- `_wake_set`, with the Hibernate locker if there is one. One that ends before the alarm goes.
unfoldable pub wake_set_beside : Option Locker → Env → LockerServer → LockerServer
wake_set_beside none env s = write_alarm env s
wake_set_beside (some l) env s =
    if blocks_alarm l s then s else write_alarm env (locker_remove "hibernate" false s)

unfoldable pub wake_set : Env → LockerServer → LockerServer
wake_set env s =
    if not (can_hibernate s.ability)
    then s
    else wake_set_beside (lookup "hibernate" s.lockers) env s

-- What the content of the alarm says: it is empty once the alarm has gone off.
unfoldable pub read_alarm : Option String → Env → LockerServer → Bool × LockerServer
read_alarm none env s = (false, s)
read_alarm (some content) env s =
    if not (str_eq content "")
    then (false, if is_some (env.alarm_write 0) then s else act alarm_cleared s)
    else (true, s)

-- `_wake_check`: did the alarm wake the system?
unfoldable pub wake_check : Env → LockerServer → Bool × LockerServer
wake_check env s =
    if not s.wake_alarm
    then (false, s)
    else if not (can_hibernate s.ability) || contains "hibernate" s.lockers
    then (false, record s { wake_alarm = false })
    else read_alarm env.alarm_read env (record s { wake_alarm = false })

-- The 21st byte of what the lid switch sent.
abbrev pub lid_flag : LidRead → Option ℕ
lid_flag (lid_bytes v) = get_elem? v 20
lid_flag _ = none

-- The end of `_lid_check`, after `screen`.
abbrev pub lid_closed : Env → ℕ → Handled → Handled
lid_closed env flag (err e, s) = (err e, s)
lid_closed env flag (ok _, s) = (
  ok nothing,
  if flag == 1 && not s.displays && not s.suspending && not s.hibernating
      then try_suspend env true s
      else s,
)

-- `_lid_check`, once it has read the switch: 1 is a lid that closes.
unfoldable pub lid_event : Option ℕ → Env → LockerServer → Handled
lid_event none env s = (ok nothing, s)
lid_event (some flag) env s =
    if flag == 1 && is_some s.backoff
    then (ok nothing, s)
    else lid_closed env flag (screen env none (flag == 0) s)

-- `_lid_check`
unfoldable pub lid_check : Env → LockerServer → Handled
lid_check env s =
    if is_some s.backoff
      || not s.lid_open
      || s.suspending
      || s.hibernating
      || not s.ability.lid
      || contains "lid" s.lockers
    then (ok nothing, s)
    else lid_event (lid_flag env.lid_read) env s

-- The reply to a client's message, after a call that may have raised.
abbrev pub pass_after : Message → Handled → Handled
pass_after m (err e, s) = (err e, s)
pass_after m (ok _, s) = (ok (pass (multicast m)), s)

-- The end of a sleep: no new one for a while, and the displays are looked at again.
unfoldable pub after_sleep : Env → Message → LockerServer → Handled
after_sleep env m s =
    pass_after m
      (screen env none true (start_backoff (record s { host = cancel_task s.backoff s.host })))

-- The end of a suspension, with the answer of `_wake_check`.
abbrev pub hibernate_or_stay : Env → Message → Bool × LockerServer → Handled
hibernate_or_stay env m (woken, s) =
    if woken then (ok nothing, run_command env Command.hibernate s) else after_sleep env m s

-- `suspend(message)`
unfoldable pub suspend : Env → Message → LockerServer → Handled
suspend env m s =
    if not (uid_is m 0)
    then (ok nothing, s)
    else if attr_is "type" m msg_pre
    then if s.suspending
      then (ok nothing, record s { wake_alarm = false; hibernating = false })
      else (
        ok (pass (multicast m)),
        wake_set env (record s { wake_alarm = false; hibernating = false; suspending = true }),
      )
    else if attr_is "type" m msg_post
    then if not s.suspending
      then (ok nothing, s)
      else hibernate_or_stay env m
          (wake_check env (record s { suspending = false; hibernating = false }))
    else (ok (pass (multicast m)), s)

-- `hibernate(message)`
unfoldable pub hibernate : Env → Message → LockerServer → Handled
hibernate env m s =
    if not (uid_is m 0)
    then (ok nothing, s)
    else if attr_is "type" m msg_pre
    then if s.hibernating
      then (ok nothing, record s { wake_alarm = false; suspending = false })
      else (
        ok (pass (multicast m)),
        record s { wake_alarm = false; suspending = false; hibernating = true },
      )
    else if attr_is "type" m msg_post
    then if not s.hibernating
      then (ok nothing, record s { wake_alarm = false })
      else after_sleep env m
          (record s { wake_alarm = false; suspending = false; hibernating = false })
    else (ok (pass (multicast m)), s)

-- `shutdown`
unfoldable pub shutdown : LockerServer → LockerServer
shutdown s = record s { lid_open = false }

-- `_find_lid_switch`
unfoldable pub find_lid_switch : List (String × Probe) → Option String
find_lid_switch [] = none
find_lid_switch ((path, named n) ∷ rest) =
    let next = find_lid_switch rest in
    if starts_with (codes "Lid Switch") (codes n) then some path else next
find_lid_switch ((path, _) ∷ rest) = find_lid_switch rest

-- `setup_server`, with the path of the lid switch. After a failed `open` the slot holds `None`, and
-- asking it for a file number raises.
unfoldable pub setup_lid : Option String → Env → LockerServer → Handled
setup_lid none env s = screen env none true s
setup_lid (some path) env s =
    if str_eq path ""
    then screen env none true s
    else if env.lid_open_fails
    then (err attribute_error, s)
    else screen env none true (record s { lid_open = not env.lid_configure_fails })

unfoldable pub setup_server : Env → LockerServer → Handled
setup_server env s = setup_lid (find_lid_switch env.input_events) env (record s {
  host = emit (status_written []) s.host;
  lid_path = find_lid_switch env.input_events;
  lid_open = false;
})

-- `reload(message)`
unfoldable pub reload : Env → Message → LockerServer → Handled
reload env m s =
    if not (truthy (attr "all" m))
    then (ok nothing, s)
    else setup_server env
        (shutdown (record (close_all s.lockers s) { lockers = []; update = false }))
