-- ===== src/Backup/Job/Control.antt =====
-- usr/lib/smd/lib/modules/backup.py: what `BackupServer` and the scheduler ask of a `Backup`.
use Prim.Native.String.{◌++◌}
use spaceport.Base.{
  ℕ, ◌+◌, String, Bool, true, false, not, ◌&&◌, ◌||◌, Option, none, some, ◌==◌, if◌then◌else◌,
  is_some,
}
use spaceport.Base.Int.{pos}
use spaceport.Value.{
  Value, null, boolean, number, text, dict, Fields, end, Result, ok, err, Exn, set_field,
}
use spaceport.Value.Do.{◌>>=◌}
use spaceport.Backup.Constants.{encrypt_compress, compress, packing, uploading, error, done}
use spaceport.Backup.Upload.{Upload, valid, check}
use spaceport.Backup.Plan.{count_of}
use spaceport.Backup.Job.State.{
  Effect, notified, halted, continued, asked, made_dir, removed_dir, Env, Backup, emit,
  cancel_timer, read_later,
}
use spaceport.Backup.Job.Stop.{stop_now}
use spaceport.Backup.Job.Next.{next}

-- `str(backup)`
abbrev pub backup_name : Backup → String
backup_name j = j.plan.path ++ " (" ++ j.id ++ ")"

abbrev pub running : Backup → Bool
running j = not j.cancel

-- How `start` fails: with a `ConnectionError`, with another `OSError`, or with another exception.
pub data StartError : Type 0 where
  unreachable no_place : StartError
  raised : Exn → StartError

abbrev pub state_dir : String
state_dir = "/var/cache/smd/backup"

abbrev pub started : Option Exn × Backup → Option StartError × Backup
started (none, j) = (none, j)
started (some e, j) = (some (raised e), j)

abbrev pub begin_job : Env → Backup → Option StartError × Backup
begin_job env j =
    if env.make_dir_fails state_dir
    then (some no_place, j)
    else (let j1 = emit (made_dir state_dir) j in
        started (
          next env none
            (emit (notified "Backup Status" ("Staring Backup " ++ backup_name j ++ "!") "yed") j1)))

abbrev pub replace_dir : Env → Backup → Option StartError × Backup
replace_dir env j =
    if env.files.is_dir j.path
    then if env.remove_dir_fails j.path
      then (some no_place, j)
      else begin_job env (emit (removed_dir j.path) j)
    else begin_job env j

abbrev pub is_os_error : Exn → Bool
is_os_error (Exn.os_error _) = true
is_os_error _ = false

abbrev pub if_reached :
    Result Bool → (Backup → Option StartError × Backup) → Backup → Option StartError × Backup
if_reached (ok true) k j = k j
if_reached (ok false) k j = (some unreachable, j)
if_reached (err e) k j = (some (if is_os_error e then no_place else raised e), j)

abbrev pub target_check : Env → Option Upload → Result Bool
target_check env none = ok true
target_check env (some u) = if valid u then check env.reached env.files.file_check u else ok true

-- `start(server)`
unfoldable pub start : Env → Backup → Option StartError × Backup
start env j = if_reached (target_check env j.upload) (replace_dir env) j

-- Is there a process that runs?
abbrev pub has_process : Env → Backup → Bool
has_process env j = is_some j.proc && env.alive

abbrev pub signal : (ℕ → Effect) → Env → Backup → Backup
signal e env j = elim j.proc as (λ _. Backup) [
  | none ↦ j
  | some p ↦ if env.alive then emit (e p) j else j
]

-- `resume(server)`: did it go on?
unfoldable pub resume : Env → Backup → Bool × Backup
resume env j =
    if has_process env j && env.signal_fails
    then (false, j)
    else (true, record (signal continued env j) { paused = false })

-- `suspend(server)`
unfoldable pub suspend : Env → Backup → Bool × Backup
suspend env j =
    if has_process env j && env.signal_fails
    then (false, j)
    else (true, record (signal halted env j) { paused = true })

-- `stop(server, force)`, which tests what `_stop` tests again
abbrev pub stop_job : Env → Bool → Backup → Backup
stop_job env force j = if j.cancel then j else stop_now env force j

abbrev pub size_value : Option String → Value
size_value none = null
size_value (some t) = text t

-- The entry that `save` writes for the plan, at the time `now`.
abbrev pub saved_entry : String → ℕ → Backup → Value
saved_entry now count j = dict (
    Fields.field "size" (size_value j.size) (
      Fields.field "last" (text now) (
        Fields.field "count" (number (pos (count + 1)))
          (Fields.field "error" (boolean (j.state == error)) end))))

-- What the state file holds, where another value than a dict counts as none.
abbrev pub state_of : Value → Fields
state_of (dict d) = d
state_of _ = end

-- `save(server, file)`: was the backup a success, and what the file is to hold. The entry of a plan that is
-- no dict has no `get`.
unfoldable pub save : String → Backup → Value → Result (Bool × Fields)
save now j stored = count_of j.plan.uuid (state_of stored) >>= λ count.
    ok (j.state == done, set_field j.plan.uuid (saved_entry now count j) (state_of stored))

abbrev pub is_read : ℕ → Bool
is_read state =
    state == packing || state == compress || state == uploading || state == encrypt_compress

-- `_step_read(server)`: what the process writes goes to the log.
unfoldable pub step_read : Env → Backup → Backup
step_read env j =
    let j1 = cancel_timer j.reader j in
    if not (has_process env j1) || j1.cancel || not (is_read j1.state)
    then j1
    else if j1.paused || j1.state == uploading
    then read_later j1
    else read_later (if env.signal_fails then j1 else signal asked env j1)

-- `_step_timeout(server, post)`
unfoldable pub step_timeout : Env → Bool → Backup → Option Exn × Backup
step_timeout env post j = if post then next env none j else (none, stop_now env true j)
