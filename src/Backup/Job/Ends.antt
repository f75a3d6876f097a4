-- ===== src/Backup/Job/Ends.antt =====
-- usr/lib/smd/lib/modules/backup.py: what a stopped backup is, and where a step of `Backup` leaves it.
use Prim.Native.String.{◌++◌}
use spaceport.Base.{
  ℕ, ◌≡◌, refl, String, Bool, true, false, not, ◌||◌, Option, none, some, List, [], ◌∷◌, ◌==◌,
  if◌then◌else◌, ◌⊎◌, arith,
}
use spaceport.Value.{Result, ok, err}
use spaceport.Util.Exec.{split_all}
use spaceport.Backup.Constants.{error, done, uploading}
use spaceport.Backup.Job.State.{
  commanded, Env, Backup, cancel_timer, timeout_later, stop_proc, with_proc,
}
use spaceport.Backup.Job.Stop.{
  finish_stopped, finish, watch, post_commands, start_post_cmd, remove_file, end_state, clean_up,
  mark_stopped, cancel_nul, stop_now, enter, update, fail, cancel_timers,
}

-- Two backups that agree on their state, on whether they were stopped, and on their plan.
abbrev pub Same : Backup → Backup → Type 0
Same j k = (j.state ≡ k.state) × (j.cancel ≡ k.cancel) × (j.plan ≡ k.plan)

pub cancel_timer-Same : (o : Option ℕ) (j : Backup) → Same (cancel_timer o j) j
unfolding cancel_timer
cancel_timer-Same none j = (refl, refl, refl)
cancel_timer-Same (some i) j = (refl, refl, refl)

pub stop_proc-Same : (o : Option ℕ) (j : Backup) → Same (stop_proc o j) j
unfolding stop_proc
stop_proc-Same none j = (refl, refl, refl)
stop_proc-Same (some i) j = (refl, refl, refl)

pub cancel_timers-Same : (j : Backup) → Same (cancel_timers j) j
cancel_timers-Same j =
    ground
      (arith, cancel_timer-Same j.timeout (cancel_timer j.reader j), cancel_timer-Same j.reader j)

pub finish_stopped-Same : (j : Backup) → Same (finish_stopped j) j
unfolding finish_stopped
finish_stopped-Same j = stop_proc-Same j.proc j

pub finish-Same : (j : Backup) → Same (finish j) j
unfolding finish
finish-Same j = ground (arith, finish_stopped-Same (cancel_timers j), cancel_timers-Same j)

pub watch-Same : (arg : Option String) (j : Backup) → Same (watch arg j) j
unfolding watch
watch-Same arg j = ground arith

post_commands-Same :
    (env : Env) (r : Result (Option (List (List String)))) (j : Backup)
    → Same (post_commands env r j) j
unfolding timeout_later
post_commands-Same env (err e) j = (refl, refl, refl)
post_commands-Same env (ok none) j = finish-Same j
post_commands-Same env (ok (some [])) j = finish-Same j
post_commands-Same env (ok (some (c ∷ cs))) j = ground (
  arith,
  finish-Same (timeout_later true j),
  watch-Same none (with_proc (commanded (c ∷ cs) false) (timeout_later true j)),
)

pub start_post_cmd-Same : (env : Env) (j : Backup) → Same (start_post_cmd env j) j
unfolding start_post_cmd
start_post_cmd-Same env j =
    ground (arith, finish-Same j, post_commands-Same env (split_all env.shell j.plan.cmd_post) j)

cancel_nul-Same : (j : Backup) → Same (cancel_nul j) j
unfolding cancel_nul
cancel_nul-Same j = cancel_timer-Same j.timeout j

pub clean_up-Same :
    (j : Backup)
    → ((clean_up j).state ≡ j.state) × ((clean_up j).cancel ≡ true) × ((clean_up j).plan ≡ j.plan)
unfolding clean_up mark_stopped
clean_up-Same j =
    let j1 = cancel_nul (mark_stopped j) in
    ground (arith, stop_proc-Same j1.proc j1, cancel_nul-Same (mark_stopped j))

pub remove_file-Same : (env : Env) (path : String) (j : Backup) → Same (remove_file env path j) j
unfolding remove_file
remove_file-Same env path j = ground arith

-- The state that a stopped backup is left in.
abbrev pub last_state : Bool → ℕ → ℕ
last_state force state = if force || not (state == uploading) then error else done

end_state-cancel :
    (env : Env) (force : Bool) (j : Backup)
    → ((end_state env force j).state ≡ last_state force j.state)
      × ((end_state env force j).cancel ≡ j.cancel)
      × ((end_state env force j).plan ≡ j.plan)
unfolding end_state
end_state-cancel env force j =
    ground (arith, remove_file-Same env (j.path ++ ".tar") (record j { state = error }))

-- A backup that runs and is stopped is left in the state DONE exactly where the stop is not forced and comes while it
-- uploads, and else in the state ERROR. It is stopped then, and its plan is the same.
pub stop_now-state :
    (env : Env) (force : Bool) (j : Backup)
    → j.cancel ≡ false
    → ((stop_now env force j).state ≡ last_state force j.state)
      × ((stop_now env force j).cancel ≡ true)
      × ((stop_now env force j).plan ≡ j.plan)
unfolding stop_now
stop_now-state env force j h = ground (
  arith,
  clean_up-Same j,
  end_state-cancel env force (clean_up j),
  start_post_cmd-Same env (end_state env force (clean_up j)),
)

-- `_stop` stops a backup.
pub stop_now-cancel : (env : Env) (force : Bool) (j : Backup) → (stop_now env force j).cancel ≡ true
unfolding stop_now
stop_now-cancel env force j = ground (
  arith,
  clean_up-Same j,
  end_state-cancel env force (clean_up j),
  start_post_cmd-Same env (end_state env force (clean_up j)),
)

pub update_cases :
    (env : Env) (state : ℕ) (j : Backup)
    → ((update env state j).0 ≡ false) × ((update env state j).1.cancel ≡ true)
      ⊎ (update env state j ≡ (true, enter state j))
unfolding update
update_cases env state j =
    ground (arith, stop_now-cancel env true j, stop_now-cancel env true (enter state j))

pub fail-cancel : (env : Env) (j : Backup) → (fail env j).cancel ≡ true
unfolding fail update
fail-cancel env j =
    ground (arith, stop_now-cancel env true j, stop_now-cancel env true (enter error j))

pub enter_state : (s : ℕ) (j : Backup) → (enter s j).state ≡ s
unfolding enter
enter_state s j = refl
