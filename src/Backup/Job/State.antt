-- ===== src/Backup/Job/State.antt =====
-- usr/lib/smd/lib/modules/backup.py: the state of `Backup`, a backup that runs, and what the system answers
-- to it. `_time`, which is only written to the log, is left out.
use spaceport.Base.{
  ℕ, ◌+◌, String, Bool, true, false, Option, none, some, List, [], ◌∷◌, ◌++◌, ◌==◌, if◌then◌else◌,
}
use spaceport.Base.Int.{ℤ}
use spaceport.Value.{Value, Exn}
use spaceport.Message.{Message}
use spaceport.Util.Exec.{Shell}
use spaceport.Backup.Constants.{waiting}
use spaceport.Backup.Upload.{Upload}
use spaceport.Backup.Plan.{Plan, Files}
use spaceport.Backup.Text.{backup_path}

-- The functions that a backup gives to the scheduler: `_step_read`, and `_step_timeout` with its `post`.
pub data Timer : Type 0 where
  step_read : Timer
  step_timeout : Bool → Timer

-- What a backup does outside its own state.
pub data Effect : Type 0 where
  -- `server.forward`
  forwarded : Message → Effect
  -- `server.notify`
  notified : String → String → String → Effect
  -- `Single.new(cmd, stdin)`, `Dual(p1, p2)` with the key of the second, `Multi(cmds, stop_error)`
  executed : List String → Option String → Effect
  piped : List String → List String → String → Effect
  commanded : List (List String) → Bool → Effect
  -- `server.watch(proc, self._next, (server, arg))`
  watched : ℕ → Option String → Effect
  -- `stop(proc, False)`, and the signals
  stopped halted continued asked : ℕ → Effect
  -- Directories and files
  made_dir removed_dir removed : String → Effect
  written : String → String → Effect
  -- `chmod(path, 0o0400)`
  protected : String → Effect
  -- The configuration of the backups, written back
  config_saved : Effect

-- The answers of the system during one run of a function.
pub record Env : Type 0 where
  pub files : Files
  -- Its `expand` puts in BACKUP_ID, BACKUP_DIR and BACKUP_PATH too.
  pub shell : Shell
  -- `str(v)` of a value that is no text
  pub str_of : Value → String
  pub reached : Upload → Bool
  -- `poll()` of the process is None
  pub alive : Bool
  -- A signal to the process raises an error
  pub signal_fails : Bool
  -- `output()` of the process: its exit code and what it wrote; none is an `OSError`
  pub output : Option (ℤ × (String × String))
  -- Starting a process with these words raises an `OSError`
  pub start_fails : List String → Bool
  pub set_blocking_fails : Bool
  pub make_dir_fails : String → Bool
  pub remove_fails : String → Bool
  pub remove_dir_fails : String → Bool
  pub write_fails : String → Bool
  pub chmod_fails : String → Bool
  pub exists : String → Bool
  pub is_file : String → Bool
  -- `getsize`, and `f_frsize * f_bavail` of `statvfs`
  pub size_of : String → Option ℕ
  pub free : String → Option ℕ
  -- The plan's old backups, as `glob` finds them, the newest first
  pub old_backups : List String
  -- `b64encode(urandom(BACKUP_KEY_SIZE))`
  pub new_key : String
  -- `strftime` of the time now, for the description and for the date
  pub today : String
  pub date : String
  -- `BACKUP_RESTORE_SCRIPT` and `BACKUP_RESTORE_SCRIPT_NO_KEY` of usr/lib/smd/lib/constants/files.py
  pub restore_script : String
  pub restore_script_no_key : String

pub record Backup : Type 0 where
  pub id : String
  pub key : Option String
  pub dir : String
  pub plan : Plan
  pub proc : Option ℕ
  pub last : Option String
  pub path : String
  pub size : Option String
  pub state : ℕ
  pub cancel : Bool
  pub paused : Bool
  pub reader : Option ℕ
  pub upload : Option Upload
  pub timeout : Option ℕ
  pub increment : Bool
  -- The next number of a task or a process, the tasks of this backup in the scheduler, and what was done.
  pub next_id : ℕ
  pub tasks : List (ℕ × Timer)
  pub effects : List Effect

abbrev pub or_else {ℓ} : {A : Type ℓ} → Option A → A → A
or_else none a = a
or_else (some a) b = a

abbrev pub first_of {ℓ} : {A : Type ℓ} → Option A → Option A → Option A
first_of none o = o
first_of (some a) o = some a

-- `Backup(work, key, upload, plan, inc)`, where `stamp` is the time in the name of its file.
unfoldable pub new_backup : String → Option String → Option Upload → Plan → Bool → String → Backup
new_backup work key upload plan inc stamp = record {
  id = plan.id;
  key = first_of plan.key key;
  dir = or_else plan.dir work;
  plan = plan;
  proc = none;
  last = none;
  path = backup_path (or_else plan.dir work) plan.id stamp;
  size = none;
  state = waiting;
  cancel = false;
  paused = false;
  reader = none;
  upload = first_of plan.upload upload;
  timeout = none;
  increment = inc;
  next_id = 0;
  tasks = [];
  effects = [];
}

abbrev pub emit : Effect → Backup → Backup
emit e j = record j { effects = j.effects ++ e ∷ [] }

abbrev pub remove_timer : ℕ → List (ℕ × Timer) → List (ℕ × Timer)
remove_timer i [] = []
remove_timer i ((k, t) ∷ q) = let rest = remove_timer i q in if k == i then rest else (k, t) ∷ rest

-- `server.cancel(event)`
unfoldable pub cancel_timer : Option ℕ → Backup → Backup
cancel_timer none j = j
cancel_timer (some i) j = record j { tasks = remove_timer i j.tasks }

-- `self._reader = server.task(BACKUP_READ_TIME, self._step_read, (server,))`
unfoldable pub read_later : Backup → Backup
read_later j = record j {
  next_id = j.next_id + 1;
  tasks = j.tasks ++ (j.next_id, step_read) ∷ [];
  reader = some j.next_id;
}

-- `self._timeout = server.task(BACKUP_TIMEOUT, self._step_timeout, (server, post))`
unfoldable pub timeout_later : Bool → Backup → Backup
timeout_later post j = record j {
  next_id = j.next_id + 1;
  tasks = j.tasks ++ (j.next_id, step_timeout post) ∷ [];
  timeout = some j.next_id;
}

-- `stop(self._proc, False)` of usr/lib/smd/lib/util/exec.py. Without the `False` it does nothing to these
-- processes, which are no `Popen`.
unfoldable pub stop_proc : Option ℕ → Backup → Backup
stop_proc none j = j
stop_proc (some p) j = emit (stopped p) j

-- A process was started.
abbrev pub with_proc : Effect → Backup → Backup
with_proc e j = record j {
  next_id = j.next_id + 1;
  proc = some j.next_id;
  effects = j.effects ++ e ∷ [];
}

-- How a function ends: with an exception that its caller sees, or without one.
abbrev pub Outcome : Type 0
Outcome = Option Exn × Backup

-- `if not self._update(…): return`
abbrev pub proceed : Bool × Backup → (Backup → Outcome) → Outcome
proceed (false, j) k = (none, j)
proceed (true, j) k = k j
