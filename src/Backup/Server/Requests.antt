-- ===== src/Backup/Server/Requests.antt =====
-- usr/lib/smd/lib/modules/backup.py: what requests do to the backup that runs.
use spaceport.Base.{
  ℕ, ◌≡◌, refl, ap, String, Bool, true, false, not, Option, none, some, if◌then◌else◌, is_some,
  arith, inl, inr, Option-cases,
}
use spaceport.Value.{Value, Items, Result, ok, err, truthy}
use spaceport.Message.{Message, attr, attr_is, is_forward}
use spaceport.Constants.{msg_pre, msg_status}
use spaceport.Backup.Text.{nes_text}
use spaceport.Backup.Plan.{Plan, Plans}
use spaceport.Backup.Queue.{Queue, Removed, is_false, is_none, removed, add_plans, remove}
use spaceport.Backup.Job.State.{Env, Backup}
use spaceport.Backup.Job.Ends.{stop_now-state}
use spaceport.Backup.Job.Control.{resume, suspend, stop_job, running, state_of}
use spaceport.Backup.Server.{BackupServer, System, Handled, result, failed, stop, select, control}
use spaceport.Backup.Server.Defs.{matches, stop_current, stop_waiting, removal, is_running}
use spaceport.Backup.Server.Select.{enqueue, queued, save_plans, running_id}
use spaceport.Backup.Server.Status.{status}
use spaceport.Backup.Server.Control.{
  status_of, told_plans, shift, shifted, while_running, select_asked, by_current,
}

abbrev pub plan_of : Option Backup → Option Plan
plan_of none = none
plan_of (some j) = some j.plan

suspend-plan : (env : Env) (j : Backup) → (suspend env j).1.plan ≡ j.plan
unfolding suspend
suspend-plan env j = ground arith

resume-plan : (env : Env) (j : Backup) → (resume env j).1.plan ≡ j.plan
unfolding resume
resume-plan env j = ground arith

stop_job-plan : (env : Env) (force : Bool) (j : Backup) → (stop_job env force j).plan ≡ j.plan
stop_job-plan env force j = ground (arith, stop_now-state env force j)

module _ (sys : System) (j : Backup) where
  save_plans-current : (p : Plans) (s : BackupServer) → (save_plans p s).current ≡ s.current
  save_plans-current p s = ground arith

  queued-current :
      (path : Value) (force full : Bool) (p : Plans) (r : Option (Result ℕ) × Queue)
      (s : BackupServer)
      → is_running s.current ≡ true
      → (queued sys path force full p r s).1.current ≡ s.current
  queued-current path force full p (none, q) s h = refl
  queued-current path force full p (some (err e), q) s h = refl
  queued-current path force full p (some (ok n), q) s h =
      ground (arith, save_plans-current p (record s { queue = q }))

  enqueue-current :
      (path : Value) (force full : Bool) (s : BackupServer)
      → is_running s.current ≡ true
      → (enqueue sys path force full s).1.current ≡ s.current
  unfolding enqueue
  enqueue-current path force full s h = elim (Option-cases sys.plans) [
    | inl e ↦ rw (e, enqueue) refl
    | inr (p, e) ↦
        rw (e, enqueue)
          (queued-current path force full p
            (add_plans sys.clock (state_of s.stored) path (running_id s.current) p.entries s.queue)
            s h)
  ]

  select-current :
      (path : Value) (force full : Bool) (s : BackupServer)
      → is_running s.current ≡ true
      → (select sys path force full s).1.current ≡ s.current
  unfolding select
  select-current path force full s h = ground (arith, enqueue-current path force full s h)

  told_plans-current :
      (p : Plans) (r : Result Items) (s : BackupServer) → (told_plans p r s).1.current ≡ s.current
  told_plans-current p (err e) s = refl
  told_plans-current p (ok vs) s = save_plans-current p s

  status_of-current : (s : BackupServer) → (status_of sys s).1.current ≡ s.current
  unfolding status_of
  status_of-current s = elim (Option-cases sys.plans) [
    | inl e ↦ rw (e, status_of) refl
    | inr (p, e) ↦
        rw (e, status_of)
          (told_plans-current p (status (state_of s.stored) s.queue s.current p.entries) s)
  ]

  removal-current :
      (r : Result Removed × Queue) (s : BackupServer) → (removal r s).1.current ≡ s.current
  removal-current (err e, q) s = refl
  removal-current (ok is_none, q) s = refl
  removal-current (ok is_false, q) s = refl
  removal-current (ok (removed p), q) s = refl

-- The current backup of a server is one of the plan of j.
abbrev pub Runs : Backup → BackupServer → Type 0
Runs j s = plan_of s.current ≡ some j.plan

unchanged-Runs :
    (j : Backup) (s t : BackupServer) → s.current ≡ some j → t.current ≡ s.current → Runs j t
unchanged-Runs j s t h e = rw (e, h) refl

if_Runs :
    (j : Backup) (b : Bool) (x y : Handled)
    → Runs j x.1
    → Runs j y.1
    → Runs j (if b then x else y).1
if_Runs j b x y h k = ground arith

module _ (sys : System) (j : Backup) (s : BackupServer) where
  waiting_Runs : (path : Value) → s.current ≡ some j → Runs j (stop_waiting path s).1
  waiting_Runs path h =
      if_Runs j (is_some (nes_text path)) (removal (remove path s.queue) s)
        (ok (result "There is no Backup running."), s)
        (unchanged-Runs j s (removal (remove path s.queue) s).1 h
          (removal-current sys j (remove path s.queue) s))
        (unchanged-Runs j s s h refl)

  stop-Runs : (path : Value) → s.current ≡ some j → Runs j (stop sys path s).1
  unfolding stop
  stop-Runs path h =
      rw (h, stop)
        (if_Runs j (matches path (some j)) (stop_current sys path j s) (stop_waiting path s)
          (ap some (stop_job-plan sys.env true j)) (waiting_Runs path h))

  shifted-Runs :
      (did does fails : String) (r : Bool × Backup)
      → r.1.plan ≡ j.plan
      → Runs j (shifted did does fails r s).1
  shifted-Runs did does fails (false, k) h = rw h refl
  shifted-Runs did does fails (true, k) h = rw h refl

  shift-Runs : (m : Message) → s.current ≡ some j → Runs j (shift sys m j s).1
  unfolding shift
  shift-Runs m h =
      if_Runs j (attr_is "action" m msg_pre)
        (if j.paused
          then (ok (failed "Backup is already suspended!"), s)
          else shifted "Suspended" " suspended." "Cannot suspend Backup!" (suspend sys.env j) s)
        (if not j.paused
          then (ok (failed "Backup is already running!"), s)
          else shifted "Resumed" " resumed!" "Cannot resume Backup!" (resume sys.env j) s)
        (if_Runs j j.paused (ok (failed "Backup is already suspended!"), s)
          (shifted "Suspended" " suspended." "Cannot suspend Backup!" (suspend sys.env j) s)
          (unchanged-Runs j s s h refl)
          (shifted-Runs "Suspended" " suspended." "Cannot suspend Backup!" (suspend sys.env j)
            (suspend-plan sys.env j)))
        (if_Runs j (not j.paused) (ok (failed "Backup is already running!"), s)
          (shifted "Resumed" " resumed!" "Cannot resume Backup!" (resume sys.env j) s)
          (unchanged-Runs j s s h refl)
          (shifted-Runs "Resumed" " resumed!" "Cannot resume Backup!" (resume sys.env j)
            (resume-plan sys.env j)))

  while_running-Runs :
      (m : Message) → s.current ≡ some j → running j ≡ true → Runs j (while_running sys m j s).1
  unfolding while_running
  while_running-Runs m h r =
      let asked = unchanged-Runs j s (select_asked sys m s).1 h (
        select-current sys j (attr "dir" m) (truthy (attr "force" m)) (truthy (attr "full" m)) s
          (rw h r)) in
      ground (arith, asked, shift-Runs m h, stop-Runs (attr "dir" m) h, unchanged-Runs j s s h refl)

  by_current-Runs :
      (m : Message) (o : Option Backup)
      → s.current ≡ some j
      → o ≡ some j
      → running j ≡ true
      → Runs j (by_current sys m s o).1
  by_current-Runs m o h e r = rw (e, r) (while_running-Runs m h r)

  -- A request that is no message of the daemon itself never changes which backup is the current one, while one
  -- runs: whatever it asks for, the current backup is still one of the same plan.
  pub control-Runs :
      (m : Message)
      → is_forward m (some 0) none ≡ false
      → s.current ≡ some j
      → running j ≡ true
      → Runs j (control sys m s).1
  unfolding control
  control-Runs m f h r =
      let rest = by_current sys m s s.current in
      rw f (
        if_Runs j (attr_is "type" m msg_status) (status_of sys s) rest
          (unchanged-Runs j s (status_of sys s).1 h (status_of-current sys j s))
          (by_current-Runs m s.current h h r))
