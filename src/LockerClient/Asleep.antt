-- ===== src/LockerClient/Asleep.antt =====
-- usr/lib/smd/lib/modules/locker.py: the wake event of `LockerClient` while the system sleeps.
use spaceport.Base.{
  ℕ, Option, none, some, String, ◌≡◌, refl, ap, sym, ◌∙◌, Bool, true, false, not, ◌&&◌, ◌||◌, none,
  some, List, [], ◌∷◌, inl, inr, arith, Option-cases, if◌then◌else◌, is_some,
}
use spaceport.Value.{
  Value, any_text, truthy, is_null, null, boolean, number, float, text, arr, dict, Fields, end,
  field, Result, ok, err,
}
use spaceport.Base.Int.{pos}
use spaceport.Util.Exec.{split}
use spaceport.Message
use spaceport.Message.{Message, attr, attr_is}
use spaceport.Constants.{hook_lock, trigger_lock, trigger_blank, trigger_key, trigger_timeout}
use spaceport.Host.{
  Host, Effect, emit, sent, Job, locker_close, backoff_clear, wake_attempt as attempt_job,
  wake_backoff, blank_backoff, displays_power, due_task, add_task, cancel_task, task_event,
}
use spaceport.Host.Queue.{job_of}
use spaceport.LockerClient.Queue.{
  Owns, remove_task-Owns, cancel_task-Owns, cancel_own-Owns, add_task-Owns, add_attempt-Owns,
  NoAttempt, Owns-NoAttempt,
}
use spaceport.Ability.{Ability, can_lock, can_blank}
use spaceport.LockerClient.State.{lock_program, LockerClient, Env, init, is_locked, is_alive}
use spaceport.LockerClient.Screen.{
  act_if, notify_control, idle_init, cancel_sleeper, cancel_backoff, wake_check, dpms_on,
  start_process, stop_process, dpms_off, close_screen, reset_lock, lock_unlock, screen_started,
  lock, cancel_blank, sleep_blocked,
}
use spaceport.LockerClient.Calls.{
  wake_attempt, use_power, set_command, start_idle, setup_idle, setup_command, setup_battery, setup,
  watch_screen, thread, clear, shutdown, switch_power, before_sleep, woken, sleep, set_lockers,
  update, trigger, announce_after, startup, run_job, fire, Event, on_lock, on_sleep, on_update,
  on_startup, on_daemon, on_shutdown, on_setup, on_schedule, on_stop, on_time, step, run,
}

pub record IsQuiet (s : LockerClient) : Type 0 where
  pub none_pending : s.sleeping ≡ true → s.sleeper ≡ none
  pub owned : Owns s.sleeper s.host.queue

move :
    {s s' : LockerClient}
    → IsQuiet s
    → s'.sleeping ≡ s.sleeping
    → s'.sleeper ≡ s.sleeper
    → Owns s.sleeper s'.host.queue
    → IsQuiet s'
move h e f o = record {
  none_pending = λ a. f ∙ h.none_pending (sym e ∙ a);
  owned = λ i p. f ∙ o i p;
}

keep :
    {s s' : LockerClient}
    → IsQuiet s
    → s'.sleeping ≡ s.sleeping
    → s'.sleeper ≡ s.sleeper
    → s'.host.queue ≡ s.host.queue
    → IsQuiet s'
keep h e f q = move h e f (λ i p. h.owned i (ap (job_of i) (sym q) ∙ p))

drop : {s : LockerClient} → s.sleeper ≡ none → Owns none s.host.queue → IsQuiet s
drop f o = record { none_pending = λ _. f; owned = λ i p. f ∙ o i p }

awake : {s : LockerClient} → s.sleeping ≡ false → Owns s.sleeper s.host.queue → IsQuiet s
awake f o = record { none_pending = λ e. cc; owned = o }

IsQuiet-if : (b : Bool) (x y : LockerClient) → IsQuiet x → IsQuiet y → IsQuiet (if b then x else y)
IsQuiet-if true x y h k = h
IsQuiet-if false x y h k = k

IsQuiet-if_result {ℓ} :
    {A : Type ℓ} (b : Bool) (x y : A × LockerClient)
    → IsQuiet x.1
    → IsQuiet y.1
    → IsQuiet (if b then x else y).1
IsQuiet-if_result true x y h k = h
IsQuiet-if_result false x y h k = k

ruleset branches = (IsQuiet-if, IsQuiet-if_result)

IsQuiet-cases :
    (b : Bool) (x y : LockerClient)
    → IsQuiet x
    → (b ≡ false → IsQuiet y)
    → IsQuiet (if b then x else y)
IsQuiet-cases true x y h k = h
IsQuiet-cases false x y h k = k refl

is_none : {A : Type 0} (o : Option A) → is_some o ≡ false → o ≡ none
is_none none h = refl
is_none (some a) h = cc

slept : (s : LockerClient) → Owns s.sleeper s.host.queue → IsQuiet (cancel_sleeper s)
slept s o = drop refl (cancel_own-Owns s.sleeper s.host o)

-- The event that suspends the system is added, where there was none.
new_sleeper :
    (n : ℕ) (s : LockerClient)
    → s.sleeping ≡ false
    → IsQuiet s
    → s.sleeper ≡ none
    → IsQuiet (record s { sleeper = task_event s.host; host = add_task n attempt_job 5 s.host })
new_sleeper n s off h e = awake off (add_attempt-Owns n 5 s.host (λ i p. sym e ∙ h.owned i p))

pub wake_check-IsQuiet : (s : LockerClient) → IsQuiet s → IsQuiet (wake_check s)
unfolding wake_check
wake_check-IsQuiet s h =
    let q = slept s h.owned in
    IsQuiet-cases s.sleeping _ _ q (λ off.
      let n =
        IsQuiet-cases (is_some s.sleeper) s _ h
          (λ e. new_sleeper _ s off h (is_none s.sleeper e)) in
      IsQuiet-if (is_some s.backoff) s _ h
        (IsQuiet-if (not (can_lock s.ability)) s _ h (IsQuiet-if (sleep_blocked s) _ _ q n)))

-- What is done outside leaves the queue as it is.
queue-stop_process : (o : Option ℕ) (h : Host) → (stop_process o h).queue ≡ h.queue
unfolding stop_process
queue-stop_process none h = refl
queue-stop_process (some p) h = refl

queue-if : (b : Bool) (x y : Host) → x.queue ≡ y.queue → (if b then x else y).queue ≡ y.queue
queue-if true x y h = h
queue-if false x y h = refl

act_if-IsQuiet : (b : Bool) (e : Effect) (s : LockerClient) → IsQuiet s → IsQuiet (act_if b e s)
act_if-IsQuiet b e s h = keep h refl refl (queue-if b (emit e s.host) s.host refl)

idle_init-IsQuiet : (env : Env) (s : LockerClient) → IsQuiet s → IsQuiet (idle_init env s)
unfolding idle_init start_process
idle_init-IsQuiet env s h =
    keep h (ground arith) (ground arith) (ground (arith, queue-stop_process s.idle s.host))

dpms_on-IsQuiet : (env : Env) (s : LockerClient) → IsQuiet s → IsQuiet (dpms_on env s)
unfolding dpms_on start_process stop_process
dpms_on-IsQuiet env s h = keep h (ground arith) (ground arith) (ground arith)

notify_control-IsQuiet :
    (env : Env) (b : Bool) (s : LockerClient) → IsQuiet s → IsQuiet (notify_control env b s)
unfolding notify_control
notify_control-IsQuiet env b s h = act_if-IsQuiet _ _ s h

close_screen-IsQuiet :
    (env : Env) (b : Bool) (s : LockerClient) → IsQuiet s → IsQuiet (close_screen env b s)
unfolding close_screen dpms_off stop_process
close_screen-IsQuiet env b s h = keep h (ground arith) (ground arith) (ground arith)

reset_lock-IsQuiet : (s : LockerClient) → IsQuiet s → IsQuiet (reset_lock s)
unfolding reset_lock
reset_lock-IsQuiet s h =
    let h0 = cancel_task s.sleeper s.host in
    drop refl (
      add_task-Owns none _ blank_backoff 10 (cancel_task s.backoff h0) refl
        (cancel_task-Owns none s.backoff h0 (cancel_own-Owns s.sleeper s.host h.owned)))

lock_unlock-IsQuiet :
    (env : Env) (b : Bool) (s : LockerClient) → IsQuiet s → IsQuiet (lock_unlock env b s)
unfolding lock_unlock
lock_unlock-IsQuiet env b s h =
    let r = reset_lock-IsQuiet (close_screen env b s) (close_screen-IsQuiet env b s h) in
    IsQuiet-if b _ _ (notify_control-IsQuiet env false _ r) r

cancel_blank-IsQuiet : (s : LockerClient) → IsQuiet s → IsQuiet (cancel_blank s)
cancel_blank-IsQuiet s h =
    move h refl refl (cancel_task-Owns s.sleeper s.backoff_blank s.host h.owned)

screen_started-IsQuiet : (env : Env) (s : LockerClient) → IsQuiet s → IsQuiet (screen_started env s)
unfolding screen_started
screen_started-IsQuiet env s h =
    let s' = notify_control env true s in
    let k = dpms_on-IsQuiet env s' (notify_control-IsQuiet env true s h) in
    let w = wake_check (dpms_on env s') in
    let q = wake_check-IsQuiet (dpms_on env s') k in
    keep (act_if-IsQuiet _ _ (cancel_blank w) (cancel_blank-IsQuiet w q)) refl refl refl

begun-IsQuiet :
    (s : LockerClient)
    → IsQuiet s
    → IsQuiet (record s { lockscreen = some s.host.next; host = start_process s.cmd s.host })
unfolding start_process
begun-IsQuiet s h = keep h refl refl refl

pub lock-IsQuiet :
    (env : Env) (force : Bool) (s : LockerClient) → IsQuiet s → IsQuiet (lock env force s)
unfolding lock
lock-IsQuiet env force s h =
    let s' = record s { lockscreen = some s.host.next; host = start_process s.cmd s.host } in
    let k = screen_started-IsQuiet env s' (begun-IsQuiet s h) in
    let u = lock_unlock-IsQuiet env true s h in
    let started =
      IsQuiet-if (env.start_fails lock_program) (lock_unlock env true s) (screen_started env s') u
        k in
    let l = IsQuiet-if (any_text "lock" s.lockers && not force) s _ h started in
    let a = IsQuiet-if (not (can_lock s.ability) && not force) s _ h l in
    IsQuiet-if (is_locked env s) s _ h a

wake_attempt-IsQuiet : (env : Env) (s : LockerClient) → IsQuiet s → IsQuiet (wake_attempt env s)
unfolding wake_attempt
wake_attempt-IsQuiet env s h =
    let l = lock env true (cancel_sleeper s) in
    let q = lock-IsQuiet env true (cancel_sleeper s) (slept s h.owned) in
    let t = sent (Message.new hook_lock (field "trigger" (number (pos trigger_timeout)) end)) in
    let h0 = cancel_task l.backoff (emit t l.host) in
    move q refl refl (
      add_task-Owns l.sleeper _ wake_backoff 10 h0 refl
        (cancel_task-Owns l.sleeper l.backoff (emit t l.host) q.owned))

switch_power-IsQuiet :
    (env : Env) (powered : Bool) (s : LockerClient)
    → IsQuiet s
    → IsQuiet (switch_power env powered s).1
unfolding switch_power
switch_power-IsQuiet env powered s h =
    let k = idle_init-IsQuiet env (use_power powered s) (keep h refl refl refl) in
    search (branches, h, k)

pub before_sleep-IsQuiet :
    (env : Env) (s : LockerClient) → Owns s.sleeper s.host.queue → IsQuiet (before_sleep env s)
unfolding before_sleep
before_sleep-IsQuiet env s o = lock-IsQuiet env true _ (
    drop refl (
      cancel_task-Owns none s.backoff (cancel_task s.sleeper s.host)
        (cancel_own-Owns s.sleeper s.host o)))

woken-IsQuiet : (env : Env) (s : LockerClient) → IsQuiet s → IsQuiet (woken env s)
unfolding woken
woken-IsQuiet env s h =
    let s' = cancel_backoff (record s { sleeping = false }) in
    let a : IsQuiet s' = awake refl (cancel_task-Owns s.sleeper s.backoff s.host h.owned) in
    act_if-IsQuiet _ _ _ (
      IsQuiet-if (is_locked env s') (wake_check s') (lock env true s') (wake_check-IsQuiet s' a)
        (lock-IsQuiet env true s' a))

sleep-IsQuiet : (env : Env) (m : Message) (s : LockerClient) → IsQuiet s → IsQuiet (sleep env m s).1
unfolding sleep
sleep-IsQuiet env m s h =
    let b = before_sleep-IsQuiet env s h.owned in
    let w = woken-IsQuiet env s h in search (branches, b, w, switch_power-IsQuiet)

set_lockers-IsQuiet : (v : Value) (s : LockerClient) → IsQuiet s → IsQuiet (set_lockers v s)
set_lockers-IsQuiet (dict _) s h = keep h refl refl refl
set_lockers-IsQuiet (arr _) s h = keep h refl refl refl
set_lockers-IsQuiet null s h = h
set_lockers-IsQuiet (boolean _) s h = h
set_lockers-IsQuiet (number _) s h = h
set_lockers-IsQuiet (float _ _ _) s h = h
set_lockers-IsQuiet (text _) s h = h

update-IsQuiet :
    (env : Env) (m : Message) (s : LockerClient) → IsQuiet s → IsQuiet (update env m s).1
unfolding update
update-IsQuiet env m s h = search (branches, h, switch_power-IsQuiet, set_lockers-IsQuiet)

trigger-IsQuiet :
    (env : Env) (m : Message) (s : LockerClient) → IsQuiet s → IsQuiet (trigger env m s)
unfolding trigger
trigger-IsQuiet env m s h =
    let off = act_if (not env.sway_fails) (displays_power false) s in
    let b1 = IsQuiet-if (is_some s.backoff_blank) s off h (act_if-IsQuiet _ _ s h) in
    let b2 = IsQuiet-if (any_text "blank" s.lockers) s _ h b1 in
    let b3 = IsQuiet-if (not (can_blank s.ability)) s _ h b2 in
    let l1 = lock-IsQuiet env (truthy (attr "force" m) || attr_is "trigger" m trigger_key) s h in
    let waits =
      is_some s.backoff_blank
      && attr_is "trigger" m trigger_lock
      && not (truthy (attr "force" m)) in
    let l2 = IsQuiet-if waits s _ h l1 in
    let l3 = IsQuiet-if (attr_is "trigger" m trigger_key && not s.ability.key) s _ h l2 in
    let all = IsQuiet-if (attr_is "trigger" m trigger_blank) _ _ b3 l3 in
    IsQuiet-if (not (is_null (attr "type" m))) s _ h all

set_command-IsQuiet :
    (c : Option (List String)) (s : LockerClient) → IsQuiet s → IsQuiet (set_command c s)
set_command-IsQuiet none s h = keep h refl refl refl
set_command-IsQuiet (some c) s h = keep h refl refl refl

start_idle-IsQuiet :
    (env : Env) (r : Result (Option (List String))) (s : LockerClient)
    → IsQuiet s
    → IsQuiet (start_idle env r s).1
unfolding start_idle
start_idle-IsQuiet env (err _) s h = h
start_idle-IsQuiet env (ok c) s h =
    idle_init-IsQuiet env _ (cancel_blank-IsQuiet (set_command c s) (set_command-IsQuiet c s h))

setup_idle-IsQuiet :
    (env : Env) (r : Result Value × Fields) (s : LockerClient)
    → IsQuiet s
    → IsQuiet (setup_idle env r s).1
unfolding setup_idle
setup_idle-IsQuiet env (err _, c) s h = keep h refl refl refl
setup_idle-IsQuiet env (ok v, c) s h =
    start_idle-IsQuiet env (split env.shell v) (record s { config = c }) (keep h refl refl refl)

setup_command-IsQuiet :
    (env : Env) (r : Result Ability × Fields) (s : LockerClient)
    → IsQuiet s
    → IsQuiet (setup_command env r s).1
unfolding setup_command
setup_command-IsQuiet env (err _, c) s h = keep h refl refl refl
setup_command-IsQuiet env (ok a, c) s h = setup_idle-IsQuiet env _ _ (keep h refl refl refl)

setup_battery-IsQuiet :
    (env : Env) (r : Result Ability × Fields) (s : LockerClient)
    → IsQuiet s
    → IsQuiet (setup_battery env r s).1
unfolding setup_battery
setup_battery-IsQuiet env (err _, c) s h = keep h refl refl refl
setup_battery-IsQuiet env (ok a, c) s h = setup_command-IsQuiet env _ _ (keep h refl refl refl)

setup-IsQuiet : (env : Env) (s : LockerClient) → IsQuiet s → IsQuiet (setup env s).1
unfolding setup
setup-IsQuiet env s h = setup_battery-IsQuiet env _ s h

watch_screen-IsQuiet : (env : Env) (s : LockerClient) → IsQuiet s → IsQuiet (watch_screen env s)
watch_screen-IsQuiet env s h =
    let u = IsQuiet-if (is_some s.lockscreen) _ s (lock_unlock-IsQuiet env true s h) h in
    IsQuiet-if (is_locked env s) _ _ (wake_check-IsQuiet s h) u

thread-IsQuiet : (env : Env) (s : LockerClient) → IsQuiet s → IsQuiet (thread env s)
unfolding thread
thread-IsQuiet env s h =
    let k = watch_screen-IsQuiet env s h in
    let s' = watch_screen env s in
    IsQuiet-if (not (is_some s'.idle) || is_alive env s'.idle) s' _ k
      (keep k refl refl (queue-stop_process s'.idle s'.host))

clear-IsQuiet : (s : LockerClient) → IsQuiet s → IsQuiet (clear s)
unfolding clear
clear-IsQuiet s h = keep h refl refl (queue-stop_process s.idle s.host)

shutdown-IsQuiet : (env : Env) (s : LockerClient) → IsQuiet s → IsQuiet (shutdown env s)
unfolding shutdown
shutdown-IsQuiet env s h =
    clear-IsQuiet (lock_unlock env false s) (lock_unlock-IsQuiet env false s h)

announce_after-IsQuiet :
    (env : Env) (r : Result (Unit {0}) × LockerClient)
    → IsQuiet r.1
    → IsQuiet (announce_after env r).1
announce_after-IsQuiet env (ok _, s) h = notify_control-IsQuiet env false s h
announce_after-IsQuiet env (err _, s) h = h

run_job-IsQuiet : (env : Env) (j : Job) (s : LockerClient) → IsQuiet s → IsQuiet (run_job env j s)
unfolding run_job
run_job-IsQuiet env (locker_close _) s h = h
run_job-IsQuiet env backoff_clear s h = h
run_job-IsQuiet env attempt_job s h = wake_attempt-IsQuiet env s h
run_job-IsQuiet env wake_backoff s h = keep h refl refl refl
run_job-IsQuiet env blank_backoff s h = keep h refl refl refl

fire-IsQuiet : (env : Env) (s : LockerClient) → IsQuiet s → IsQuiet (fire env s)
unfolding fire
fire-IsQuiet env s h = elim (Option-cases (due_task s.host)) [
  | inl e ↦ rw (fire, e) h
  | inr (t, e) ↦
      rw (fire, e)
        (run_job-IsQuiet env t.job _
          (move h refl refl (remove_task-Owns s.sleeper t.id s.host.queue h.owned)))
]

startup-IsQuiet :
    (env : Env) (m : Message) (s : LockerClient) → IsQuiet s → IsQuiet (startup env m s).1
unfolding startup
startup-IsQuiet env m s h =
    let q = notify_control-IsQuiet env false s h in
    let k =
      announce_after-IsQuiet env (setup env (clear s)) (setup-IsQuiet env _ (clear-IsQuiet s h)) in
    search (branches, h, q, k)

step-IsQuiet : (env : Env) (e : Event) (s : LockerClient) → IsQuiet s → IsQuiet (step env e s)
unfolding step
step-IsQuiet env (on_lock m) s h = trigger-IsQuiet env m s h
step-IsQuiet env (on_sleep m) s h = sleep-IsQuiet env m s h
step-IsQuiet env (on_update m) s h = update-IsQuiet env m s h
step-IsQuiet env (on_startup m) s h = startup-IsQuiet env m s h
step-IsQuiet env on_daemon s h = thread-IsQuiet env s h
step-IsQuiet env on_shutdown s h = shutdown-IsQuiet env s h
step-IsQuiet env on_setup s h = setup-IsQuiet env s h
step-IsQuiet env on_schedule s h = fire-IsQuiet env s h
step-IsQuiet env on_stop s h = keep h refl refl refl
step-IsQuiet env (on_time n) s h = keep h refl refl refl

steps-IsQuiet : (es : List (Env × Event)) (s : LockerClient) → IsQuiet s → IsQuiet (run es s)
unfolding run
steps-IsQuiet [] s h = h
steps-IsQuiet ((env, e) ∷ es) s h = steps-IsQuiet es (step env e s) (step-IsQuiet env e s h)

pub asleep-NoAttempt :
    (s : LockerClient) → IsQuiet s → s.sleeping ≡ true → (s.sleeper ≡ none) × NoAttempt s.host.queue
asleep-NoAttempt s q e =
    let f = q.none_pending e in (f, Owns-NoAttempt s.host.queue (λ i p. sym f ∙ q.owned i p))

-- From the start, with a scheduler that holds no event that would ask the server to suspend, and after any sequence of
-- hook calls, scheduled events and passing time, with any answers of the system: while a client was told that the
-- system goes to sleep, and not yet that it woke up, it keeps no such event, and the scheduler holds none.
pub no_sleeper_asleep :
    (es : List (Env × Event)) (c : Fields) (h : Host)
    → NoAttempt h.queue
    → (run es (init c h)).sleeping ≡ true
    → ((run es (init c h)).sleeper ≡ none) × NoAttempt (run es (init c h)).host.queue
no_sleeper_asleep es c h n e =
    let q = steps-IsQuiet es (init c h) (awake refl (λ i p. absurd (n i p))) in
    asleep-NoAttempt (run es (init c h)) q e
