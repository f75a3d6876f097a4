-- ===== src/Backup/Server/Select.antt =====
-- usr/lib/smd/lib/modules/backup.py: `_select` of `BackupServer`, which starts the next backup.
use Prim.Native.String.{◌++◌}
use spaceport.Base.{
  ℕ, String, Bool, true, not, ◌&&◌, Option, none, some, [], ◌∷◌, ◌++◌ as ◌<++>◌, ltb, if◌then◌else◌,
  is_some,
}
use spaceport.Value.{Value, dict, Fields, Result, ok, err, value_error}
use spaceport.Backup.Text.{nes_text}
use spaceport.Backup.Upload.{Upload}
use spaceport.Backup.Plan.{Plan, Plans, incremental}
use spaceport.Backup.Queue.{Queue, is_empty, next, add_plans}
use spaceport.Backup.Job.State.{config_saved, Backup, new_backup}
use spaceport.Backup.Job.Control.{
  StartError, unreachable, no_place, raised, is_os_error, start, stop_job, backup_name, running,
  state_of,
}
use spaceport.Backup.Server.Defs.{
  BackupServer, System, result, failed, words, Handled, is_running, name_of, notify, forget,
  has_power,
}

abbrev pub nothing_to_run : BackupServer → Handled
nothing_to_run s = (ok (result "No Backups are scheduled or could be started!"), s)

abbrev pub host_name : Option Upload → String
host_name none = "None"
host_name (some u) = elim u.host as (λ _. String) [ none ↦ "None" | some h ↦ h ]

-- The end of `_select`: a backup that could not start is stopped and forgotten.
abbrev pub launched : System → Option StartError × Backup → BackupServer → Handled
launched sys (none, j) s =
    (ok (words ("Backup " ++ backup_name j ++ " started!")), record s { current = some j })
launched sys (some unreachable, j) s =
    let told =
      notify ("Backup target \"" ++ host_name j.upload ++ "\" is not reachable, not backing up!")
        s in
    (
      ok (failed "Cannot connect to the Backup upload server!"),
      forget (stop_job sys.env true j) told,
    )
launched sys (some no_place, j) s =
    (ok (failed "Cannot start Backup!"), forget (stop_job sys.env true j) s)
launched sys (some (raised e), j) s = (err e, record s { current = some j })

-- A plan was chosen: its backup is counted, made and started.
abbrev pub launch_counted : System → Plans → Plan → Result (Bool × Fields) → BackupServer → Handled
launch_counted sys p n (err e) s = (err e, s)
launch_counted sys p n (ok (inc, d)) s =
    if sys.store_fails
    then (ok (failed "Cannot write the Backup state"), s)
    else launched sys (start sys.env (new_backup p.dir p.key p.upload n inc sys.stamp))
        (record s { stored = dict d })

unfoldable pub launch : System → Bool → Plans → Plan → BackupServer → Handled
launch sys force_full p n s =
    launch_counted sys p n (incremental n force_full (state_of s.stored)) s

abbrev pub chosen : System → Bool → Plans → Result (Option Plan) × Queue → BackupServer → Handled
chosen sys full p (err e, q) s = (
  if is_os_error e then ok (failed "Cannot read the Backup state!") else err e,
  record s { queue = q },
)
chosen sys full p (ok none, q) s = nothing_to_run (record s { queue = q })
chosen sys full p (ok (some n), q) s = launch sys full p n (record s { queue = q })

-- The next plan of the queue is taken.
unfoldable pub choose : System → Value → Bool → Bool → Plans → BackupServer → Handled
choose sys path force full p s =
    if is_empty s.queue
    then nothing_to_run s
    else chosen sys full p (next sys.clock (state_of s.stored) path force s.queue) s

-- `if p.updated: p.save(server)`
abbrev pub save_plans : Plans → BackupServer → BackupServer
save_plans p s =
    if p.updated && is_some p.storage then record s { past = s.past <++> config_saved ∷ [] } else s

abbrev pub queued :
    System → Value → Bool → Bool → Plans → Option (Result ℕ) × Queue → BackupServer → Handled
queued sys path force full p (none, q) s = (err value_error, record s { queue = q })
queued sys path force full p (some (err e), q) s = (err e, record s { queue = q })
queued sys path force full p (some (ok n), q) s =
    let s1 = save_plans p (record s { queue = q }) in
    if is_running s.current
    then (
      ok (
          result (
            if ltb 0 n
            then "Backup added to queue."
            else "Backup is already in queue or running!")),
      s1,
    )
    else choose sys path force full p s1

abbrev pub running_id : Option Backup → Option String
running_id none = none
running_id (some j) = if running j then some j.id else none

-- The plans that are wanted are put into the queue.
unfoldable pub enqueue : System → Value → Bool → Bool → BackupServer → Handled
enqueue sys path force full s = elim sys.plans as (λ _. Handled) [
  | none ↦ (ok (failed "Cannot load the Backup config!"), s)
  | some p ↦
      queued sys path force full p
        (add_plans sys.clock (state_of s.stored) path (running_id s.current) p.entries s.queue) s
]

-- `_select(server, path, force, force_full)`
unfoldable pub select : System → Value → Bool → Bool → BackupServer → Handled
select sys path force full s =
    if not (has_power sys force)
    then (
      ok (
          failed
            "Cannot run on battery power, please connect to AC power or use the \"-f\" switch!"),
      s,
    )
    else if not (is_some (nes_text path)) && is_running s.current
    then (ok (result ("Backup " ++ name_of s.current ++ " is currently running!")), s)
    else enqueue sys path force full s
