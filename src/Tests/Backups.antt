-- ===== src/Tests/Backups.antt =====
-- The theorems on the backups, at concrete inputs.
use spaceport.Base.{
  suc, ◌≡◌, ◌≢◌, refl, String, true, false, Option, none, some, List, [], ◌∷◌, arith,
}
use spaceport.Base.Int.{pos}
use spaceport.Base.Dict.{lookup}
use spaceport.Value.{null, boolean, number, text, dict, nil, cons, end, field, Fields, ok}
use spaceport.Message.{Message, new, is_forward}
use spaceport.Constants.{hook_backup, msg_action, msg_post}
use spaceport.Backup.Schedule.{Schedule, runnable, is_full}
use spaceport.Backup.Schedule.Days.{runnable_days, any_item}
use spaceport.Backup.Upload.{Upload, new_upload, valid}
use spaceport.Backup.Upload.Target.{new_upload-valid}
use spaceport.Backup.Plan.{Plan, Files, newest, entry_count}
use spaceport.Backup.Queue.{Queue, Clock, empty, add, next, remove, add_plans, verdict}
use spaceport.Backup.Queue.Table.{Proper, add-Proper}
use spaceport.Backup.Queue.Choice.{Chosen, next-Chosen, queue-Proper}
use spaceport.Backup.Job.State.{Env, Backup, new_backup}
use spaceport.Backup.Job.Stop.{stop_now}
use spaceport.Backup.Job.Ends.{stop_now-state}
use spaceport.Backup.Job.Next.{next as next_step, next_fuel}
use spaceport.Backup.Job.Life.{run, Over, run-Over}
use spaceport.Backup.Job.Depth.{next_fuel_enough}
use spaceport.Backup.Job.Count.{count_after, count_after_lem}
use spaceport.Backup.Job.Locker.{delivered, backup_releases}
use spaceport.Backup.Server.{BackupServer, System, control}
use spaceport.Backup.Server.Requests.{Runs, control-Runs}
use spaceport.LockerServer.{LockerServer, init, update}
use spaceport.Host.{Host}

abbrev files : Files
files = record { is_dir = λ _. true; file_check = λ _. none; uuid_valid = λ _. true }

abbrev weekly : Schedule
weekly = record {
  days = some (cons (text "Tue") (cons (text "Sat") nil));
  cycle = some 4;
  increment = true;
}

abbrev home : Plan
home = record {
  id = "P00000000A";
  dir = none;
  key = some "/etc/smd/backup.pem";
  keep = newest 2;
  uuid = "5d1b";
  path = "/home/";
  wait = 86400;
  debug = false;
  upload = none;
  exclude = none;
  cmd_pre = null;
  cmd_post = null;
  schedule = weekly;
  description = null;
}

abbrev data_plan : Plan
data_plan = record home { id = "P00000000B"; uuid = "77f2"; path = "/data/" }

abbrev two_plans : Queue
two_plans = add data_plan false (add home false empty)

two_plans-Proper : Proper two_plans
two_plans-Proper =
    add-Proper data_plan false (add home false empty) (add-Proper home false empty (λ _. refl, tt))

abbrev clock : Clock
clock = record { files = files; reached = λ _. true; age = λ _. some (pos 0); weekday = 1 }

-- A system on which every call works.
abbrev env : Env
env = record {
  files = files;
  shell = record { expand = λ t. t; shell_split = λ t. ok (t ∷ []); join = λ _. "" };
  str_of = λ _. "";
  reached = λ _. true;
  alive = true;
  signal_fails = false;
  output = some (pos 0, ("9af1 */opt/data.pak", ""));
  start_fails = λ _. false;
  set_blocking_fails = false;
  make_dir_fails = λ _. false;
  remove_fails = λ _. false;
  remove_dir_fails = λ _. false;
  write_fails = λ _. false;
  chmod_fails = λ _. false;
  exists = λ _. true;
  is_file = λ _. true;
  size_of = λ _. some 4096;
  free = λ _. some 1000000;
  old_backups = [];
  new_key = "a2V5";
  today = "Thursday 26, November";
  date = "Nov 26 2026 12:00:00";
  restore_script = "#!/bin/bash";
  restore_script_no_key = "#!/bin/bash";
}

abbrev fresh : Backup
fresh = new_backup "/opt/backup" none none home true "20261126-1200"

abbrev calls : List (Env × Option String)
calls =
    (env, none)
    ∷ (env, some "a2V5")
    ∷ (env, none)
    ∷ (env, none)
    ∷ (env, none)
    ∷ (env, none)
    ∷ (env, none)
    ∷ (env, none)
    ∷ (env, none)
    ∷ (env, none)
    ∷ []

run-Over_example : Over (run calls fresh)
unfolding new_backup
run-Over_example = run-Over calls fresh (omega arith) (omega arith)

next_fuel_enough_example : next_fuel (suc (suc 5)) env none fresh ≡ next_step env none fresh
next_fuel_enough_example = next_fuel_enough 5 env none fresh

stop_now-state_example :
    ((stop_now env true fresh).state ≡ 10)
    × ((stop_now env true fresh).cancel ≡ true)
    × ((stop_now env true fresh).plan ≡ home)
unfolding new_backup
stop_now-state_example = stop_now-state env true fresh refl

queue-Proper_example :
    Proper (add_plans clock end (text "/home") none (home ∷ data_plan ∷ []) two_plans).1
    × Proper (next clock end (text "/home") false two_plans).1
    × Proper (remove (text "/home") two_plans).1
queue-Proper_example =
    queue-Proper clock end (text "/home") false none (home ∷ data_plan ∷ []) two_plans
      two_plans-Proper

next-Chosen_example :
    Chosen (verdict clock end null false) two_plans.entries (next clock end null false two_plans)
next-Chosen_example = next-Chosen clock end null false two_plans two_plans-Proper

abbrev system : System
system = record {
  env = env;
  clock = clock;
  plans = none;
  on_power = true;
  store_fails = false;
  remove_fails = false;
  rmtree_fails = false;
  now = "2026-11-26T12:00:00";
  stamp = "20261126-1200";
}

abbrev server : BackupServer
server = record { current = some fresh; queue = two_plans; stored = null; past = [] }

-- A request to stop the backup that runs.
abbrev stop_request : Message
stop_request =
    new hook_backup
      (field "type" (number (pos msg_action)) (field "action" (number (pos msg_post)) end))

control-Runs_example : Runs fresh (control system stop_request server).1
unfolding new_backup new is_forward
control-Runs_example = control-Runs system fresh server stop_request refl refl refl

abbrev host : Host
host = record { now = 5000; stopping = false; next = 0; queue = []; effects = [] }

abbrev lockers : LockerServer
lockers = record (init host) {
  lockers = ("backup", record { name = "backup"; event = none; expire = none }) ∷ [];
}

backup-ne-lock : ◌≢◌ {A = String} "backup" "lock"
backup-ne-lock h = cc

backup_releases_example :
    (lookup "backup" (update (delivered (some 7) (boolean false)) lockers).1.lockers ≡ none)
    × (lookup "lock" (update (delivered (some 7) (boolean false)) lockers).1.lockers
        ≡ lookup "lock" lockers.lockers)
backup_releases_example = backup_releases (some 7) "lock" lockers backup-ne-lock

abbrev target : Fields
target = field "host" (text "backup.local:2222") (field "user" (text "smd") end)

abbrev made : Upload × Fields
made = (
  record { host = some "backup.local"; port = some 2222; user = some "smd"; key = none },
  field "host" (text "backup.local")
      (field "user" (text "smd") (field "port" (number (pos 2222)) end)),
)

new_upload-valid_example : valid made.0 ≡ true
unfolding new_upload spaceport.Backup.Text.nes_text spaceport.Backup.Upload.split_user
    spaceport.Backup.Text.find spaceport.Backup.Upload.split_port spaceport.Backup.Text.rfind
    spaceport.Util.num spaceport.Util.int10 spaceport.Backup.Upload.port_of
    spaceport.Backup.Text.full_path
new_upload-valid_example = new_upload-valid target made refl

runnable_days_example : runnable weekly 1 ≡ true
unfolding runnable any_item spaceport.Util.lower
runnable_days_example = runnable_days weekly 1 (omega arith)

abbrev entry : Fields
entry = field "count" (number (pos 2)) end

count_after_lem_example :
    count_after false "2026-11-26T12:00:00" fresh (field "5d1b" (dict entry) end) ≡ ok 4
unfolding new_backup entry_count is_full
count_after_lem_example =
    count_after_lem false "2026-11-26T12:00:00" fresh entry (field "5d1b" (dict entry) end) 2 refl
      refl
