-- ===== src/Backup/Job/Stop.antt =====
-- usr/lib/smd/lib/modules/backup.py: how `Backup` changes its state, and how it ends.
use Prim.Native.String.{◌++◌}
use spaceport.Base.{
  ℕ, String, Bool, true, false, not, ◌&&◌, ◌||◌, Option, none, some, List, [], ◌∷◌, ◌==◌,
  if◌then◌else◌,
}
use spaceport.Base.Int.{pos}
use spaceport.Value.{Value, null, boolean, number, text, Fields, end, Result, ok, err}
use spaceport.Message.{Message, new}
use spaceport.Constants.{hook_locker, hook_backup, msg_action, msg_update}
use spaceport.Util.Exec.{split_all}
use spaceport.Backup.Constants.{uploading, error, done}
use spaceport.Backup.Job.State.{
  forwarded, commanded, watched, removed_dir, removed, Env, Backup, emit, cancel_timer,
  timeout_later, stop_proc, with_proc,
}

-- The message for the Backup locker: `time` is None to take it, False to release it.
abbrev pub locker_message : Value → Message
locker_message time = new hook_locker (
    Fields.field "type" (number (pos msg_action)) (
      Fields.field "name" (text "backup")
        (Fields.field "time" time (Fields.field "force" (boolean true) end))))

-- The message that a backup has left its state.
abbrev pub state_message : String → ℕ → ℕ → Message
state_message uuid prev state = new hook_backup (
    Fields.field "type" (number (pos msg_update)) (
      Fields.field "uuid" (text uuid)
        (Fields.field "prev" (number (pos prev)) (Fields.field "state" (number (pos state)) end))))

-- The last message of a backup.
abbrev pub final_message : String → ℕ → Message
final_message uuid state = new hook_backup (
    Fields.field "type" (number (pos msg_update)) (
      Fields.field "uuid" (text uuid)
        (Fields.field "state" (number (pos state)) (Fields.field "final" (boolean true) end))))

-- The beginning of `_next`: no event of the backup is left.
abbrev pub cancel_timers : Backup → Backup
cancel_timers j = cancel_timer j.timeout (cancel_timer j.reader j)

-- `_next` of a backup that was stopped, from its test on.
unfoldable pub finish_stopped : Backup → Backup
finish_stopped j =
    let j1 = stop_proc j.proc j in
    let j2 = emit (forwarded (locker_message (boolean false))) j1 in
    emit (forwarded (final_message j.plan.uuid j.state)) j2

-- `_next` of a backup that was stopped
unfoldable pub finish : Backup → Backup
finish j = finish_stopped (cancel_timers j)

abbrev pub is_none : Value → Bool
is_none null = true
is_none _ = false

abbrev pub first_command : List (List String) → List String
first_command [] = []
first_command (c ∷ cs) = c

-- `server.watch(self._proc, self._next, (server, arg))`
unfoldable pub watch : Option String → Backup → Backup
watch arg j = elim j.proc [ none ↦ j | some p ↦ emit (watched p arg) j ]

abbrev pub post_commands : Env → Result (Option (List (List String))) → Backup → Backup
post_commands env (err e) j = j
post_commands env (ok none) j = finish j
post_commands env (ok (some [])) j = finish j
post_commands env (ok (some (c ∷ cs))) j =
    let waits = timeout_later true j in
    if env.start_fails c
    then finish waits
    else watch none (with_proc (commanded (c ∷ cs) false) waits)

-- `_start_post_cmd`, whose errors `_stop` keeps to itself
unfoldable pub start_post_cmd : Env → Backup → Backup
start_post_cmd env j =
    if is_none j.plan.cmd_post
    then finish j
    else post_commands env (split_all env.shell j.plan.cmd_post) j

-- `remove_file(path)`
unfoldable pub remove_file : Env → String → Backup → Backup
remove_file env path j =
    if env.is_file path && not (env.remove_fails path) then emit (removed path) j else j

unfoldable pub mark_stopped : Backup → Backup
mark_stopped j = record j { cancel = true; paused = false }

-- `self._timeout = cancel_nul(server, self._timeout)`
abbrev pub no_timeout : Backup → Backup
no_timeout j = record j { timeout = none }

unfoldable pub cancel_nul : Backup → Backup
cancel_nul j = no_timeout (cancel_timer j.timeout j)

-- The first half of `_stop`: everything of the backup is ended.
unfoldable pub clean_up : Backup → Backup
clean_up j =
    let j1 = cancel_nul (mark_stopped j) in emit (removed_dir j.path) (stop_proc j1.proc j1)

-- The state that a stopped backup is left in.
unfoldable pub end_state : Env → Bool → Backup → Backup
end_state env force j =
    if force || not (j.state == uploading)
    then remove_file env (j.path ++ ".tar") (record j { state = error })
    else record j { state = done }

-- `_stop(server, force)`
unfoldable pub stop_now : Env → Bool → Backup → Backup
stop_now env force j = if j.cancel then j else start_post_cmd env (end_state env force (clean_up j))

-- `_update`, where the backup was not stopped: the state is changed and told.
unfoldable pub enter : ℕ → Backup → Backup
enter state j =
    emit (forwarded (state_message j.plan.uuid j.state state))
      (record j { state = state; paused = false })

-- `_update(server, state)`: `_paused.wait()` returns at once, since it is called when `_paused` is set.
unfoldable pub update : Env → ℕ → Backup → Bool × Backup
update env state j =
    if j.cancel
    then (false, stop_now env true j)
    else if state == error
    then (false, stop_now env true (enter state j))
    else (true, enter state j)

-- `return self._update(server, BACKUP_STATE_ERROR)`
unfoldable pub fail : Env → Backup → Backup
fail env j = (update env error j).1
