-- ===== src/Backup/Server/Control.antt =====
-- usr/lib/smd/lib/modules/backup.py: `control` of `BackupServer`, the requests about backups.
use Prim.Native.String.{◌++◌}
use spaceport.Base.{
  ◌*◌, ◌^◌, String, Bool, true, false, not, ◌&&◌, ◌||◌, Option, none, some, [], ◌∷◌, ◌++◌ as ◌<++>◌,
  ltb, if◌then◌else◌,
}
use spaceport.Base.Int.{pos, negsuc}
use spaceport.Value.{
  Value, null, boolean, number, float, Items, Result, ok, err, type_error, truthy,
}
use spaceport.Message.{Message, attr, attr_is, is_forward}
use spaceport.Constants.{
  msg_pre, msg_post, msg_status, msg_action, msg_config, msg_update, msg_user,
}
use spaceport.Backup.Constants.{error}
use spaceport.Backup.Plan.{Plans}
use spaceport.Backup.Queue.{is_empty}
use spaceport.Backup.Job.State.{removed_dir, Backup}
use spaceport.Backup.Job.Control.{
  resume, suspend, stop_job, running, backup_name, state_of, state_dir,
}
use spaceport.Backup.Server.Defs.{
  BackupServer, System, nothing, result, failed, statuses, Handled, notify, forget, remember, stop,
}
use spaceport.Backup.Server.Status.{status}
use spaceport.Backup.Server.Select.{select, save_plans}

-- What is told of the plans; their file is written only after that.
abbrev pub told_plans : Plans → Result Items → BackupServer → Handled
told_plans p (err e) s = (err e, s)
told_plans p (ok vs) s = (ok (statuses vs), save_plans p s)

-- `_status(server)`
unfoldable pub status_of : System → BackupServer → Handled
status_of sys s = elim sys.plans as (λ _. Handled) [
  | none ↦ (ok (failed "could not load backup config"), s)
  | some p ↦ told_plans p (status (state_of s.stored) s.queue s.current p.entries) s
]

-- `v < BACKUP_STATE_ERROR`
unfoldable pub is_before_error : Value → Result Bool
is_before_error (number (pos n)) = ok (ltb n error)
is_before_error (number (negsuc n)) = ok true
is_before_error (boolean b) = ok true
is_before_error (float sign m k) = ok (sign || ltb m (error * 2 ^ k))
is_before_error _ = err type_error

abbrev pub quiet : Handled → Handled
quiet (err e, s) = (err e, s)
quiet (ok a, s) = (ok nothing, s)

abbrev pub go_on : System → BackupServer → Handled
go_on sys s = if is_empty s.queue then (ok nothing, s) else quiet (select sys null false false s)

abbrev pub end_words : Bool → String
end_words true = " completed!"
end_words false = " was stopped with errors!"

-- The current backup is over: it is saved and forgotten, and the next plan of the queue is taken.
unfoldable pub finished : System → Backup → BackupServer → Handled
finished sys j s = remember sys j s (λ success s1.
    go_on sys (forget j (notify ("Backup " ++ backup_name j ++ end_words success) s1)))

abbrev pub stopped_now : System → Message → Backup → BackupServer → Handled
stopped_now sys m j s = if truthy (attr "final" m) then finished sys j s else (ok nothing, s)

abbrev pub ended : System → Message → Backup → BackupServer → Result Bool → Handled
ended sys m j s (err e) = (err e, s)
ended sys m j s (ok true) = (ok nothing, s)
ended sys m j s (ok false) =
    let j1 = stop_job sys.env false j in stopped_now sys m j1 (record s { current = some j1 })

-- A message of the daemon itself: a backup has changed its state.
unfoldable pub on_update : System → Message → BackupServer → Handled
on_update sys m s =
    if not (attr_is "type" m msg_update)
    then (ok nothing, s)
    else elim s.current as (λ _. Handled) [
      | none ↦ (ok nothing, s)
      | some j ↦ ended sys m j s (is_before_error (attr "state" m))
    ]

-- The state file and the incremental states are removed.
unfoldable pub clear_cache : System → BackupServer → Handled
clear_cache sys s =
    if sys.remove_fails
    then (ok (failed "Cannot clear the Backup cache!"), s)
    else (let s1 = record s { stored = null } in
        if sys.rmtree_fails
        then (ok (failed "Cannot clear the Backup cache!"), s1)
        else (ok (result ""), record s1 { past = s1.past <++> removed_dir state_dir ∷ [] }))

abbrev pub select_asked : System → Message → BackupServer → Handled
select_asked sys m s =
    select sys (attr "dir" m) (truthy (attr "force" m)) (truthy (attr "full" m)) s

unfoldable pub while_idle : System → Message → BackupServer → Handled
while_idle sys m s =
    if attr_is "type" m msg_user
    then clear_cache sys s
    else if attr_is "type" m msg_action && attr_is "action" m msg_pre
    then select_asked sys m s
    else (ok (result "No Backup is running."), s)

-- A backup was suspended or resumed, or the signal failed.
abbrev pub shifted : String → String → String → Bool × Backup → BackupServer → Handled
shifted did does fails (false, j) s = (ok (failed fails), record s { current = some j })
shifted did does fails (true, j) s = (
  ok (result (did ++ " Backup " ++ backup_name j ++ ".")),
  notify ("Backup " ++ backup_name j ++ does) (record s { current = some j }),
)

unfoldable pub shift : System → Message → Backup → BackupServer → Handled
shift sys m j s =
    if attr_is "action" m msg_pre
    then if j.paused
      then (ok (failed "Backup is already suspended!"), s)
      else shifted "Suspended" " suspended." "Cannot suspend Backup!" (suspend sys.env j) s
    else if not j.paused
    then (ok (failed "Backup is already running!"), s)
    else shifted "Resumed" " resumed!" "Cannot resume Backup!" (resume sys.env j) s

unfoldable pub while_running : System → Message → Backup → BackupServer → Handled
while_running sys m j s =
    if attr_is "type" m msg_user
    then (ok (result "There is currently a Backup running."), s)
    else if attr_is "type" m msg_config
    then shift sys m j s
    else if attr_is "type" m msg_action && attr_is "action" m msg_pre
    then select_asked sys m s
    else if attr_is "type" m msg_action && attr_is "action" m msg_post
    then stop sys (attr "dir" m) s
    else (ok (failed "unknown/invalid backup command"), s)

abbrev pub by_current : System → Message → BackupServer → Option Backup → Handled
by_current sys m s none = while_idle sys m s
by_current sys m s (some j) = if running j then while_running sys m j s else while_idle sys m s

-- `control(server, message)`
unfoldable pub control : System → Message → BackupServer → Handled
control sys m s =
    if attr_is "type" m msg_status
    then status_of sys s
    else if is_forward m (some 0) none
    then on_update sys m s
    else by_current sys m s s.current
