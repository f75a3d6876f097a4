-- ===== src/LockerServer/Invariant.antt =====
-- usr/lib/smd/lib/modules/locker.py: what holds of `LockerServer` in every run.
use spaceport.Base.{
  ℕ, ◌≡◌, refl, Bool, true, false, not, ◌&&◌, Option, none, some, List, [], ◌∷◌, arith, inl, inr,
  Bool-cases, if◌then◌else◌,
}
use spaceport.Value.{Value, arr, dict, Items, nil, cons, Result, ok, err, get_or_null, truthy}
use spaceport.Message.{Message, attr}
use spaceport.Host.{Host, Job, locker_close as close_job, backoff_clear}
use spaceport.LockerServer.State.{LockerServer, Env, Reply, init}
use spaceport.LockerServer.Table.{AddError, locker_add, locker_close, run_job, fire}
use spaceport.LockerServer.Power.{
  Handled, wake_check, after_sleep, suspend, hibernate, shutdown, hibernate_or_stay, wake_set,
}
use spaceport.LockerServer.Update.{
  item_done, add_item, go_on, add_items, add_list, add_done, action, take_abilities,
  abilities_taken, update, trigger, notify, thread,
}
use spaceport.LockerServer.Steps.{Event, step, run}
use spaceport.LockerServer.Keeps.{IsSynced, fire-IsSynced}
use spaceport.LockerServer.Timed.{IsTimed, fire-IsTimed}
use spaceport.LockerServer.Sound.{
  Kept, Kept-refl, Kept-trans, branches, locker_add-Kept, screen-Kept, run_command-Kept,
  try_suspend-Kept, lid_check-Kept, wake_set-Kept, wake_check-Kept, after_sleep-Kept,
  setup_server-Kept, reload-Kept,
}

item_done-Kept :
    (name : Value) (r : Option AddError × LockerServer)
    → IsSynced r.1
    → Kept r.1 (item_done name r).1
item_done-Kept name (none, s) y = Kept-refl s y
item_done-Kept name (some e, s) y = Kept-refl s y

add_done-Kept :
    (name : Value) (r : Option AddError × LockerServer)
    → IsSynced r.1
    → Kept r.1 (add_done name r).1
add_done-Kept name (none, s) y = Kept-refl s y
add_done-Kept name (some e, s) y = Kept-refl s y

add_item-Kept : (v : Value) (s : LockerServer) → IsSynced s → Kept s (add_item v s).1
unfolding add_item
add_item-Kept (dict d) s y =
    let k =
      locker_add-Kept (get_or_null "name" d) (get_or_null "time" d) (truthy (get_or_null "force" d))
        s y in
    let r =
      locker_add (get_or_null "name" d) (get_or_null "time" d) (truthy (get_or_null "force" d)) s in
    search (branches, Kept-trans k (item_done-Kept (get_or_null "name" d) r k.synced))
add_item-Kept _ s y = Kept-refl s y

go_on-Kept :
    {s : LockerServer} (r : Option (Result Reply) × LockerServer) (rest : Handled)
    → Kept s r.1
    → Kept s rest.1
    → Kept s (go_on r rest).1
go_on-Kept (none, s) rest k l = l
go_on-Kept (some e, s) rest k l = k

add_items-Kept : (vs : Items) (s : LockerServer) → IsSynced s → Kept s (add_items vs s).1
unfolding add_items
add_items-Kept nil s y = Kept-refl s y
add_items-Kept (cons v vs) s y =
    let k = add_item-Kept v s y in
    go_on-Kept (add_item v s) (add_items vs (add_item v s).1) k
      (Kept-trans k (add_items-Kept vs (add_item v s).1 k.synced))

add_list-Kept : (v : Value) (s : LockerServer) → IsSynced s → Kept s (add_list v s).1
unfolding add_list
add_list-Kept (arr vs) s y = search (branches, add_items-Kept)
add_list-Kept _ s y = Kept-refl s y

action-Kept : (m : Message) (s : LockerServer) → IsSynced s → Kept s (action m s).1
unfolding action
action-Kept m s y =
    let name = attr "name" m in
    let r = locker_add name (attr "time" m) (truthy (attr "force" m)) s in
    let k = locker_add-Kept name (attr "time" m) (truthy (attr "force" m)) s y in
    search (branches, add_list-Kept, Kept-trans k (add_done-Kept name r k.synced))

take_abilities-Kept : (v : Value) (s : LockerServer) → IsSynced s → Kept s (take_abilities v s).1
take_abilities-Kept (dict d) s y = record {
  synced = y;
  suspending_same = refl;
  hibernating_same = refl;
  timed = λ t. t;
}
take_abilities-Kept _ s y = Kept-refl s y

abilities_taken-Kept :
    (m : Message) (r : Result (Unit {0}) × LockerServer)
    → IsSynced r.1
    → Kept r.1 (abilities_taken m r).1
abilities_taken-Kept m (err e, s) y = Kept-refl s y
abilities_taken-Kept m (ok u, s) y = search branches

update-Kept : (m : Message) (s : LockerServer) → IsSynced s → Kept s (update m s).1
unfolding update
update-Kept m s y =
    let k = take_abilities-Kept (attr "abilities" m) s y in
    let r = take_abilities (attr "abilities" m) s in
    search (branches, action-Kept, Kept-trans k (abilities_taken-Kept m r k.synced)) depth 6

trigger-Kept :
    (env : Env) (m : Message) (s : LockerServer) → IsSynced s → Kept s (trigger env m s).1
unfolding trigger
trigger-Kept env m s y = search (branches, try_suspend-Kept) depth 9

notify-Kept : (s : LockerServer) → IsSynced s → Kept s (notify s)
unfolding notify
notify-Kept s y = elim (Bool-cases (not s.update)) [
  | inl quiet ↦ rw quiet (Kept-refl s y)
  | inr told ↦
      rw told
        (record { synced = y; suspending_same = refl; hibernating_same = refl; timed = λ t. t })
]

thread-Kept : (env : Env) (s : LockerServer) → IsSynced s → Kept s (thread env s).1
unfolding thread
thread-Kept env s y =
    let k = notify-Kept s y in Kept-trans k (lid_check-Kept env (notify s) k.synced)

-- What holds between two calls: the lockers, the backoff and the scheduler are in step, the system is not both
-- suspending and hibernating, and a locker has an end just where it has an event, until the daemon stops.
pub record IsSound (s : LockerServer) : Type 0 where
  pub synced : IsSynced s
  pub alone : s.suspending && s.hibernating ≡ false
  pub timed : IsTimed s

Kept-IsSound : {s s' : LockerServer} → IsSound s → Kept s s' → IsSound s'
Kept-IsSound h k = record {
  synced = k.synced;
  alone = rw (k.suspending_same, k.hibernating_same) h.alone;
  timed = k.timed h.timed;
}

IsSound-if_result {ℓ} :
    {A : Type ℓ} (b : Bool) (x y : A × LockerServer)
    → IsSound x.1
    → IsSound y.1
    → IsSound (if b then x else y).1
IsSound-if_result true x y p q = p
IsSound-if_result false x y p q = q

hibernate_or_stay-Kept :
    (env : Env) (m : Message) (r : Bool × LockerServer)
    → IsSynced r.1
    → Kept r.1 (hibernate_or_stay env m r).1
hibernate_or_stay-Kept env m (woken, s) y = search (branches, run_command-Kept, after_sleep-Kept)

module _ (env : Env) (m : Message) (s : LockerServer) (h : IsSound s) where
  suspend_begins :
      IsSound
        (wake_set env (record s { wake_alarm = false; hibernating = false; suspending = true }))
  suspend_begins =
      let s' : LockerServer = record s {
        wake_alarm = false;
        hibernating = false;
        suspending = true;
      } in
      Kept-IsSound (record { synced = h.synced; alone = refl; timed = h.timed })
        (wake_set-Kept env s' h.synced)

  suspend_ends :
      IsSound
        (hibernate_or_stay env m
          (wake_check env (record s { suspending = false; hibernating = false }))).1
  suspend_ends =
      let s' : LockerServer = record s { suspending = false; hibernating = false } in
      let k = wake_check-Kept env s' h.synced in
      Kept-IsSound (record { synced = h.synced; alone = refl; timed = h.timed })
        (Kept-trans k (hibernate_or_stay-Kept env m (wake_check env s') k.synced))

  suspend_again : IsSound (record s { wake_alarm = false; hibernating = false })
  suspend_again = record { synced = h.synced; alone = ground arith; timed = h.timed }

  suspend-IsSound : IsSound (suspend env m s).1
  unfolding suspend
  suspend-IsSound =
      search (IsSound-if_result, suspend_begins, suspend_ends, suspend_again, h) depth 7

  hibernate_again : IsSound (record s { wake_alarm = false; suspending = false })
  hibernate_again = record { synced = h.synced; alone = refl; timed = h.timed }

  hibernate_begins :
      IsSound (record s { wake_alarm = false; suspending = false; hibernating = true })
  hibernate_begins = record { synced = h.synced; alone = refl; timed = h.timed }

  hibernate_stray : IsSound (record s { wake_alarm = false })
  hibernate_stray = record { synced = h.synced; alone = h.alone; timed = h.timed }

  hibernate_ends :
      IsSound
        (after_sleep env m
          (record s { wake_alarm = false; suspending = false; hibernating = false })).1
  hibernate_ends =
      let s' : LockerServer = record s {
        wake_alarm = false;
        suspending = false;
        hibernating = false;
      } in
      Kept-IsSound (record { synced = h.synced; alone = refl; timed = h.timed })
        (after_sleep-Kept env m s' h.synced)

  hibernate-IsSound : IsSound (hibernate env m s).1
  unfolding hibernate
  hibernate-IsSound =
      search
        (IsSound-if_result, hibernate_begins, hibernate_ends, hibernate_again, hibernate_stray, h)
        depth 7

flags-run_job :
    (j : Job) (i : ℕ) (s : LockerServer)
    → ((run_job j i s).suspending ≡ s.suspending) × ((run_job j i s).hibernating ≡ s.hibernating)
unfolding run_job locker_close
flags-run_job (close_job k) i s = (refl, refl)
flags-run_job backoff_clear i s = (refl, refl)
flags-run_job _ i s = (refl, refl)

fire-Kept : (s : LockerServer) → IsSynced s → Kept s (fire s)
unfolding fire
fire-Kept s y = record {
  synced = fire-IsSynced s y;
  suspending_same = grind (arith, flags-run_job);
  hibernating_same = grind (arith, flags-run_job);
  timed = fire-IsTimed s;
}

-- Every call keeps the invariant, whatever the message and whatever the system answers.
step-IsSound : (env : Env) (e : Event) (s : LockerServer) → IsSound s → IsSound (step env e s)
unfolding step shutdown
step-IsSound env (Event.on_lock m) s h = Kept-IsSound h (trigger-Kept env m s h.synced)
step-IsSound env (Event.on_screen m) s h = Kept-IsSound h (screen-Kept env (some m) true s h.synced)
step-IsSound env (Event.on_locker m) s h = Kept-IsSound h (update-Kept m s h.synced)
step-IsSound env (Event.on_reload m) s h = Kept-IsSound h (reload-Kept env m s h.synced)
step-IsSound env (Event.on_suspend m) s h = suspend-IsSound env m s h
step-IsSound env (Event.on_hibernate m) s h = hibernate-IsSound env m s h
step-IsSound env Event.on_daemon s h = Kept-IsSound h (thread-Kept env s h.synced)
step-IsSound env Event.on_shutdown s h = record {
  synced = h.synced;
  alone = h.alone;
  timed = h.timed;
}
step-IsSound env Event.on_setup s h = Kept-IsSound h (setup_server-Kept env s h.synced)
step-IsSound env Event.on_schedule s h = Kept-IsSound h (fire-Kept s h.synced)
step-IsSound env Event.on_stop s h = record { synced = h.synced; alone = h.alone; timed = λ e. cc }
step-IsSound env (Event.on_time n) s h = record {
  synced = h.synced;
  alone = h.alone;
  timed = h.timed;
}

-- In every run from a state in which the lockers, the backoff and the scheduler's tasks belong together one to one, a
-- locker has an end just where it has an event unless the daemon stops, and the system is not both suspending and
-- hibernating, whatever the messages and whatever the system answers, this stays so: while the daemon does not stop,
-- each locker with an end has the task that closes it; no task is ever left that would close another locker or end a
-- later backoff, and the two sleeps exclude one another.
pub run-IsSound : (es : List (Env × Event)) (s : LockerServer) → IsSound s → IsSound (run es s)
unfolding run
run-IsSound [] s h = h
run-IsSound ((env, e) ∷ es) s h = run-IsSound es (step env e s) (step-IsSound env e s h)

-- A new `LockerServer` beside an empty queue meets the invariant.
pub init-IsSound : (h : Host) → h.queue ≡ [] → IsSound (init h)
init-IsSound h e = record {
  synced = record {
    distinct = tt;
    named = λ k l p. cc;
    owned = λ i k p. ground arith;
    armed = λ i k p. cc;
    waiting = λ i p. ground arith;
    ending = λ i p. cc;
    fresh = λ i p. rw e refl;
    unique = rw e tt;
  };
  alone = refl;
  timed = λ b k l p. cc;
}
