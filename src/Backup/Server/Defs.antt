-- ===== src/Backup/Server/Defs.antt =====
-- usr/lib/smd/lib/modules/backup.py: `BackupServer`. An exception is one that its caller sees.
use Prim.Native.String.{◌++◌}
use spaceport.Base.{
  String, Bool, true, false, not, ◌&&◌, ◌||◌, Option, none, some, List, [], ◌∷◌, ◌++◌ as ◌<++>◌,
  ◌==◌, if◌then◌else◌, is_some,
}
use spaceport.Value.{Value, dict, Items, Fields, Result, ok, err}
use spaceport.Message.{Message, attr_is}
use spaceport.Constants.{hook_shutdown, msg_pre, msg_post}
use spaceport.Backup.Text.{nes_text}
use spaceport.Backup.Plan.{Plans, is_match}
use spaceport.Backup.Queue.{Queue, Clock, Removed, is_false, is_none, removed, remove}
use spaceport.Backup.Job.State.{Effect, notified, Env, Backup}
use spaceport.Backup.Job.Control.{resume, suspend, stop_job, save, running, backup_name}

-- `_current` and `_queue`; what the state file holds, where a file that cannot be read counts as null; and what
-- was done beside the current backup.
pub record BackupServer : Type 0 where
  pub current : Option Backup
  pub queue : Queue
  pub stored : Value
  pub past : List Effect

-- What the system answers while a request is handled.
pub record System : Type 0 where
  pub env : Env
  pub clock : Clock
  -- `Plans(CONFIG_BACKUP)`; none is the `OSError` or `ValueError` that it raises.
  pub plans : Option Plans
  -- The file of the battery says that there is power.
  pub on_power : Bool
  pub store_fails : Bool
  -- `remove` of the state file and `rmtree` of the directory of the incremental states raise an `OSError`.
  pub remove_fails : Bool
  pub rmtree_fails : Bool
  -- `datetime.now().isoformat()`, and the time in the name of a backup
  pub now : String
  pub stamp : String

-- What a hook function gives back.
pub data Answer : Type 0 where
  nothing : Answer
  -- `{"result": text}`, `as_error(text)` and a bare text
  result failed words : String → Answer
  -- `{"plans": …}`
  statuses : Items → Answer

abbrev pub Handled : Type 0
Handled = Result Answer × BackupServer

abbrev pub name_of : Option Backup → String
name_of none = "None"
name_of (some j) = backup_name j

abbrev pub is_running : Option Backup → Bool
is_running none = false
is_running (some j) = running j

-- `server.notify("Backup Status", body, "yed")`
abbrev pub notify : String → BackupServer → BackupServer
notify body s = record s { past = s.past <++> notified "Backup Status" body "yed" ∷ [] }

-- `self._current = None`: what the backup did is kept.
abbrev pub forget : Backup → BackupServer → BackupServer
forget j s = record s { current = none; past = s.past <++> j.effects }

-- The write of the state file, whose error only goes to the log where a backup is saved.
abbrev pub store : System → Fields → BackupServer → BackupServer
store sys d s = if sys.store_fails then s else record s { stored = dict d }

abbrev pub saved :
    System → Result (Bool × Fields) → BackupServer → (Bool → BackupServer → Handled) → Handled
saved sys (err e) s k = (err e, s)
saved sys (ok (success, d)) s k = k success (store sys d s)

-- `self._current.save(server, BACKUP_STATE)`
unfoldable pub remember : System → Backup → BackupServer → (Bool → BackupServer → Handled) → Handled
remember sys j s k = saved sys (save sys.now j s.stored) s k

-- `_on_battery(force)`, which is true where there is power
abbrev pub has_power : System → Bool → Bool
has_power sys force = force || sys.on_power

abbrev pub resumed : Bool × Backup → BackupServer → Handled
resumed (false, j) s = (ok nothing, record s { current = some j })
resumed (true, j) s =
    (ok nothing, notify ("Backup " ++ backup_name j ++ " resumed!") (record s { current = some j }))

abbrev pub hook_running : System → Message → Backup → BackupServer → Handled
hook_running sys m j s =
    if m.header == hook_shutdown
    then (let j1 = stop_job sys.env false j in
        remember sys j1 (record s { current = some j1 }) (λ success s1. (ok nothing, forget j1 s1)))
    else if attr_is "type" m msg_post && j.paused
    then if has_power sys false then resumed (resume sys.env j) s else (ok nothing, s)
    else if attr_is "type" m msg_pre && not j.paused
    then (ok nothing, record s { current = some (suspend sys.env j).1 })
    else (ok nothing, s)

-- `hook(server, message)`
unfoldable pub hook : System → Message → BackupServer → Handled
hook sys m s = elim s.current as (λ _. Handled) [
  | none ↦ (ok nothing, s)
  | some j ↦ if running j then hook_running sys m j s else (ok nothing, s)
]

abbrev pub removed_text : Removed → String
removed_text is_false = "False"
removed_text is_none = ""
removed_text (removed p) = p.uuid ++ "/[" ++ p.id ++ "]"

abbrev pub removal : Result Removed × Queue → BackupServer → Handled
removal (err e, q) s = (err e, record s { queue = q })
removal (ok is_none, q) s =
    (ok (result "Backup was not found in queue or running."), record s { queue = q })
removal (ok r, q) s = (
  ok (result ("Backup " ++ removed_text r ++ " was removed from the queue.")),
  record s { queue = q },
)

abbrev pub stop_current : System → Value → Backup → BackupServer → Handled
stop_current sys path j s =
    let j1 = stop_job sys.env true j in
    (
      ok (
          result (
            if is_some (nes_text path)
            then "Backup \"" ++ j.plan.id ++ "\" was stopped."
            else "Backup " ++ backup_name j ++ " was stopped.")),
      record s { current = some j1 },
    )

abbrev pub matches : Value → Option Backup → Bool
matches path none = false
matches path (some j) = running j && (not (is_some (nes_text path)) || is_match path j.plan)

-- A backup that does not run is taken out of the queue.
abbrev pub stop_waiting : Value → BackupServer → Handled
stop_waiting path s =
    if is_some (nes_text path)
    then removal (remove path s.queue) s
    else (ok (result "There is no Backup running."), s)

-- `_stop(server, path)`
unfoldable pub stop : System → Value → BackupServer → Handled
stop sys path s = elim s.current as (λ _. Handled) [
  | none ↦ stop_waiting path s
  | some j ↦ if matches path (some j) then stop_current sys path j s else stop_waiting path s
]
