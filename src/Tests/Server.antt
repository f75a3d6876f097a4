-- ===== src/Tests/Server.antt =====
-- The theorems on `LockerServer`, at concrete inputs.
use spaceport.Base.{
  ℕ, ◌+◌, ◌≡◌, ◌≢◌, refl, String, true, false, not, ◌&&◌, ◌||◌, none, some, List, [], ◌∷◌, ◌++◌,
  str_eq,
}
use spaceport.Base.Int.{pos}
use spaceport.Base.Dict.{lookup}
use spaceport.Value.{number, text, arr, dict, Fields, nil, cons, end, field, ok}
use spaceport.Util.{nes}
use spaceport.Message.{Message}
use spaceport.Constants.{
  hook_locker, hook_suspend, msg_pre, msg_post, msg_action, msg_config, msg_update, msg_status,
}
use spaceport.Host.{
  Host, Task, Command, Effect, locker_close as close_job, due_task, add_task, task_event, seconds,
}
use spaceport.Ability.{status, can_suspend, can_hibernate}
use spaceport.LockerServer.{
  LockerServer, Env, init, nothing, fields, Probe, LidRead, Event, run, step, fire, update,
  locker_add, try_suspend, suspend, action, locker_time, add_named, set_locker, replace_locker,
  new_locker,
}
use spaceport.LockerServer.Invariant.{IsSound, run-IsSound, init-IsSound}
use spaceport.LockerServer.Sleep.{try_suspend_runs, suspend_then_hibernate, count_runs, one_if}
use spaceport.LockerServer.Sync.{event_of}
use spaceport.LockerServer.Exchange.{told, abilities_arrive}
use spaceport.LockerServer.Lockers.{fire_closes, locker_add_sets, locker_add_removes, backup_guard}

abbrev host : Host
host = record { now = 5000; stopping = false; next = 0; queue = []; effects = [] }

-- A system on which every call works, whose RTC alarm has gone off, and whose lid switch does not open.
abbrev env : Env
env = record {
  command_fails = λ _. false;
  alarm_write = λ _. none;
  alarm_read = some "";
  lid_read = LidRead.lid_silent;
  input_events = ("event0", Probe.named "Lid Switch") ∷ [];
  lid_open_fails = true;
  lid_configure_fails = false;
  connected = [];
  active = [];
  default_display = [];
}

abbrev empty : LockerServer
empty = init host

-- A client asks for a Suspend locker for a minute.
abbrev request : Message
request = record {
  header = hook_locker;
  payload =
      field "type" (number (pos msg_action))
        (field "name" (text "suspend") (field "time" (number (pos 60)) end));
  pid = none;
  uid = some 1000;
  forwarded = false;
  is_multicast = false;
}

abbrev minute : List (Env × Event)
minute = (env, Event.on_locker request) ∷ (env, Event.on_time 60000) ∷ []

abbrev held : LockerServer
held = run minute empty

run-IsSound_example : IsSound (run minute empty)
run-IsSound_example = run-IsSound minute empty (init-IsSound host refl)

held-IsSound : IsSound held
held-IsSound = run-IsSound minute empty (init-IsSound host refl)

abbrev task : Task
task = record { id = 0; time = 65000; priority = 5; job = close_job "suspend" }

held_due : due_task held.host ≡ some task
unfolding run step update action locker_add locker_time due_task nes add_named set_locker
    replace_locker new_locker add_task
held_due = refl

suspend-ne-lid : ◌≢◌ {A = String} "suspend" "lid"
suspend-ne-lid p = cc

fire_closes_example :
    (event_of "suspend" held.lockers ≡ some 0)
    × (lookup "suspend" (fire held).lockers ≡ none)
    × (lookup "lid" (fire held).lockers ≡ lookup "lid" held.lockers)
    × ((fire held).update ≡ held.update || not (str_eq "suspend" "backup"))
fire_closes_example =
    fire_closes held task "suspend" "lid" held-IsSound held_due refl suspend-ne-lid

try_suspend_runs_example :
    (count_runs Command.suspend (try_suspend env true empty).host.effects
      ≡ count_runs Command.suspend empty.host.effects + one_if (can_suspend empty.ability && true))
    × (count_runs Command.hibernate (try_suspend env true empty).host.effects
        ≡ count_runs Command.hibernate empty.host.effects
          + one_if (not (can_suspend empty.ability) && can_hibernate empty.ability && true))
try_suspend_runs_example = try_suspend_runs env true empty

-- A message of root that the system sleeps, or has woken up.
abbrev sleeps : ℕ → Message
sleeps kind = record {
  header = hook_suspend;
  payload = field "type" (number (pos kind)) end;
  pid = none;
  uid = some 0;
  forwarded = false;
  is_multicast = false;
}

abbrev to_hibernate : LockerServer
to_hibernate = record empty { ability = record empty.ability { hibernate = 600 } }

suspend_then_hibernate_example :
    let s' = (suspend env (sleeps msg_post) (suspend env (sleeps msg_pre) to_hibernate).1).1 in
    (s'.host.effects
      ≡ (to_hibernate.host.effects ++ Effect.alarm_set (seconds to_hibernate.host + 600) ∷ [])
        ++ Effect.ran Command.hibernate ∷ [])
    × (s'.suspending ≡ false)
    × (s'.hibernating ≡ false)
    × (s'.wake_alarm ≡ false)
suspend_then_hibernate_example =
    suspend_then_hibernate env env (sleeps msg_pre) (sleeps msg_post) to_hibernate refl refl refl
      refl refl refl refl refl refl refl refl

locker_add_sets_example :
    let (e, s') = locker_add (text "suspend") (number (pos 60)) true empty in
    (e ≡ none)
    × (lookup "suspend" s'.lockers
        ≡ some (record {
          name = "suspend";
          event = task_event empty.host;
          expire = some (60 + seconds empty.host);
        }))
    × (lookup "lid" s'.lockers ≡ lookup "lid" empty.lockers)
unfolding locker_time
locker_add_sets_example =
    locker_add_sets "suspend" "lid" (number (pos 60)) true 59 empty refl refl refl (λ x p. cc)
      suspend-ne-lid

-- The table with a Suspend locker for a minute, set five seconds after the start of the clock.
abbrev since : LockerServer
since = record held {
  lockers = ("suspend", record { name = "suspend"; event = some 0; expire = some 65 }) ∷ [];
}

locker_add_removes_example :
    let (e, s') = locker_add (text "suspend") (number (pos 0)) true since in
    (e ≡ none)
    × (lookup "suspend" s'.lockers ≡ none)
    × (lookup "lid" s'.lockers ≡ lookup "lid" since.lockers)
unfolding locker_time
locker_add_removes_example =
    locker_add_removes "suspend" "lid" (number (pos 0)) true (pos 0) since refl refl refl refl
      suspend-ne-lid

-- A request for the Backup locker in a list.
abbrev for_minutes : Fields
for_minutes = field "name" (text "backup") (field "time" (number (pos 600)) end)

abbrev in_list : Message
in_list = record request { payload = field "list" (arr (cons (dict for_minutes) nil)) end }

backup_guard_example :
    ((action in_list empty).0 ≡ ok nothing)
    × (lookup "backup" (action in_list empty).1.lockers
        ≡ some (record {
          name = "backup";
          event = task_event empty.host;
          expire = some (600 + seconds empty.host);
        }))
unfolding nes locker_time
backup_guard_example =
    backup_guard in_list for_minutes 599 empty refl refl refl refl refl (λ x p. cc)

abbrev question : Message
question = record request {
  payload = field "type" (number (pos msg_status)) (field "locker" (text "suspend") end);
}

abilities_arrive_example :
    let s' = record empty { ability = to_hibernate.ability } in
    (update (told msg_config to_hibernate.ability) empty ≡ (ok nothing, s'))
    × (update (told msg_update to_hibernate.ability) empty ≡ (
      ok (
          fields (
            field "type"
              (number (pos msg_status))
              (field "lockers" (dict (status to_hibernate.ability empty.lockers)) end))),
      s',
    ))
abilities_arrive_example = abilities_arrive to_hibernate.ability empty
