-- ===== src/LockerServer/Sound.antt =====
-- usr/lib/smd/lib/modules/locker.py: the invariant of `LockerServer` under every call, each with
-- whatever the system answers.
use spaceport.Base.{
  ℕ, ◌≡◌, refl, ◌∙◌, String, Bool, true, false, not, Option, none, some, [], ◌∷◌, arith, inl, inr,
  Bool-cases, if◌then◌else◌, is_some, ◌==◌,
}
use spaceport.Base.Dict.{Dict}
use spaceport.Value.{Value, Result, ok, err}
use spaceport.Message.{Message}
use spaceport.Host.{Command, Effect, alarm_cleared, emit, status_written, cancel_task}
use spaceport.Ability.{Locker}
use spaceport.LockerServer.State.{LockerServer, Env, connected_displays}
use spaceport.LockerServer.Table.{
  locker_close, locker_remove, new_locker, replace_locker, set_locker, add_named, locker_add,
  close_all,
}
use spaceport.LockerServer.Power.{
  Handled, act, start_backoff, screen, alarm_is_set, run_command, try_suspend, wake_set, wake_check,
  lid_event, lid_check, after_sleep, shutdown, setup_server, reload, look, write_alarm_after,
  wake_set_beside, read_alarm, lid_closed, pass_after, setup_lid, find_lid_switch,
}
use spaceport.LockerServer.Keeps.{
  IsSynced, locker_remove-IsSynced, locker_add-IsSynced, close_all-Sync, restart_backoff-IsSynced,
  backoff_if-IsSynced,
}
use spaceport.LockerServer.Timed.{
  IsTimed, locker_remove-IsTimed, locker_add-IsTimed, start_backoff-IsTimed,
  restart_backoff-IsTimed,
}

-- A call that keeps the lockers in step with the scheduler, and is no part of a sleep.
pub record Kept (s s' : LockerServer) : Type 0 where
  pub synced : IsSynced s'
  pub suspending_same : s'.suspending ≡ s.suspending
  pub hibernating_same : s'.hibernating ≡ s.hibernating
  pub timed : IsTimed s → IsTimed s'

flags-locker_remove :
    (k : String) (notify : Bool) (s : LockerServer)
    → ((locker_remove k notify s).suspending ≡ s.suspending)
      × ((locker_remove k notify s).hibernating ≡ s.hibernating)
unfolding locker_remove locker_close
flags-locker_remove k notify s = ground arith

flags-new_locker :
    (k : String) (e : Option ℕ) (s : LockerServer)
    → ((new_locker k e s).suspending ≡ s.suspending)
      × ((new_locker k e s).hibernating ≡ s.hibernating)
unfolding new_locker
flags-new_locker k none s = (refl, refl)
flags-new_locker k (some e) s = (refl, refl)

flags-locker_add :
    (name expires : Value) (force : Bool) (s : LockerServer)
    → ((locker_add name expires force s).1.suspending ≡ s.suspending)
      × ((locker_add name expires force s).1.hibernating ≡ s.hibernating)
unfolding locker_add add_named set_locker replace_locker
flags-locker_add name expires force s = grind (arith, flags-locker_remove, flags-new_locker)

locker_remove-Kept :
    (k : String) (notify : Bool) (s : LockerServer) → IsSynced s → Kept s (locker_remove k notify s)
locker_remove-Kept k notify s y = record {
  synced = locker_remove-IsSynced k notify s y;
  suspending_same = (flags-locker_remove k notify s).0;
  hibernating_same = (flags-locker_remove k notify s).1;
  timed = locker_remove-IsTimed k notify s;
}

pub locker_add-Kept :
    (name expires : Value) (force : Bool) (s : LockerServer)
    → IsSynced s
    → Kept s (locker_add name expires force s).1
locker_add-Kept name expires force s y = record {
  synced = locker_add-IsSynced name expires force s y;
  suspending_same = (flags-locker_add name expires force s).0;
  hibernating_same = (flags-locker_add name expires force s).1;
  timed = locker_add-IsTimed name expires force s;
}

pub Kept-refl : (s : LockerServer) → IsSynced s → Kept s s
Kept-refl s y = record {
  synced = y;
  suspending_same = refl;
  hibernating_same = refl;
  timed = λ t. t;
}

pub Kept-trans : {s t u : LockerServer} → Kept s t → Kept t u → Kept s u
Kept-trans p q = record {
  synced = q.synced;
  suspending_same = q.suspending_same ∙ p.suspending_same;
  hibernating_same = q.hibernating_same ∙ p.hibernating_same;
  timed = λ t. q.timed (p.timed t);
}

pub Kept-if :
    (b : Bool) {s x y : LockerServer}
    → (b ≡ true → Kept s x)
    → (b ≡ false → Kept s y)
    → Kept s (if b then x else y)
Kept-if true p q = p refl
Kept-if false p q = q refl

-- The same for a call that also returns something.
pub Kept-if_result {ℓ} :
    {A : Type ℓ} (b : Bool) {s : LockerServer} (x y : A × LockerServer)
    → (b ≡ true → Kept s x.1)
    → (b ≡ false → Kept s y.1)
    → Kept s (if b then x else y).1
Kept-if_result true x y p q = p refl
Kept-if_result false x y p q = q refl

flags-close_all :
    (ls : Dict Locker) (s : LockerServer)
    → ((close_all ls s).suspending ≡ s.suspending) × ((close_all ls s).hibernating ≡ s.hibernating)
unfolding close_all locker_close
flags-close_all [] s = (refl, refl)
flags-close_all ((k, l) ∷ ls) s = flags-close_all ls (locker_close l false false s)

flags-backoff_if :
    (close : Bool) (s : LockerServer)
    → let s' = if close then start_backoff s else s in
      (s'.suspending ≡ s.suspending) × (s'.hibernating ≡ s.hibernating)
unfolding start_backoff
flags-backoff_if true s = (refl, refl)
flags-backoff_if false s = (refl, refl)

is_none : {A : Type 0} (o : Option A) → is_some o ≡ false → o ≡ none
is_none none h = refl
is_none (some a) h = cc

look-Kept :
    (m : Option Message) (r : Result Bool) (s : LockerServer) → IsSynced s → Kept s (look m r s).1
look-Kept none (ok b) s y = record {
  synced = y;
  suspending_same = refl;
  hibernating_same = refl;
  timed = λ t. t;
}
look-Kept (some m) (ok b) s y = record {
  synced = y;
  suspending_same = refl;
  hibernating_same = refl;
  timed = λ t. t;
}
look-Kept m (err e) s y = Kept-refl s y

backoff_if-IsTimed :
    (close : Bool) (s : LockerServer) → IsTimed s → IsTimed (if close then start_backoff s else s)
backoff_if-IsTimed true s t = start_backoff-IsTimed s t
backoff_if-IsTimed false s t = t

backoff_if-Kept :
    (close : Bool) (s : LockerServer)
    → s.backoff ≡ none
    → IsSynced s
    → Kept s (if close then start_backoff s else s)
backoff_if-Kept close s h y = record {
  synced = backoff_if-IsSynced close s h y;
  suspending_same = (flags-backoff_if close s).0;
  hibernating_same = (flags-backoff_if close s).1;
  timed = backoff_if-IsTimed close s;
}

-- An effect, and a field that is no part of what is kept.
pub act-Kept : (e : Effect) (s : LockerServer) → IsSynced s → Kept s (act e s)
act-Kept e s y = record {
  synced = y;
  suspending_same = refl;
  hibernating_same = refl;
  timed = λ t. t;
}

pub alarm_is_set-Kept : (s : LockerServer) → IsSynced s → Kept s (alarm_is_set s)
alarm_is_set-Kept s y = record {
  synced = y;
  suspending_same = refl;
  hibernating_same = refl;
  timed = λ t. t;
}

pub ruleset branches = (Kept-if, Kept-if_result, Kept-refl, act-Kept, alarm_is_set-Kept)

pub screen-Kept :
    (env : Env) (m : Option Message) (close : Bool) (s : LockerServer)
    → IsSynced s
    → Kept s (screen env m close s).1
unfolding screen
screen-Kept env m close s y = elim (Bool-cases (is_some s.backoff)) [
  | inl on ↦ rw on (search branches)
  | inr off ↦
      let k = backoff_if-Kept close s (is_none s.backoff off) y in
      let l =
        look-Kept m (connected_displays env) (if close then start_backoff s else s) k.synced in
      rw off (search (branches, Kept-trans k l))
]

-- A command, or any other effect, is no part of the state that is kept.
pub run_command-Kept :
    (env : Env) (c : Command) (s : LockerServer) → IsSynced s → Kept s (run_command env c s)
unfolding run_command
run_command-Kept env c s y = search branches

pub try_suspend-Kept :
    (env : Env) (is_lid : Bool) (s : LockerServer) → IsSynced s → Kept s (try_suspend env is_lid s)
unfolding try_suspend
try_suspend-Kept env is_lid s y = search (branches, run_command-Kept) depth 8

write_alarm_after-Kept :
    (o : Option ℕ) (env : Env) (s : LockerServer) → IsSynced s → Kept s (write_alarm_after o env s)
unfolding write_alarm_after
write_alarm_after-Kept none env s y = alarm_is_set-Kept s y
write_alarm_after-Kept (some e) env s y =
    let k = act-Kept alarm_cleared s y in
    search (branches, Kept-trans k (alarm_is_set-Kept (act alarm_cleared s) k.synced))

wake_set_beside-Kept :
    (o : Option Locker) (env : Env) (s : LockerServer)
    → IsSynced s
    → Kept s (wake_set_beside o env s)
unfolding wake_set_beside
wake_set_beside-Kept none env s y = write_alarm_after-Kept (env.alarm_write 0) env s y
wake_set_beside-Kept (some l) env s y =
    let k = locker_remove-Kept "hibernate" false s y in
    let s' = locker_remove "hibernate" false s in
    let w = write_alarm_after-Kept (env.alarm_write 0) env s' k.synced in
    search (branches, Kept-trans k w)

pub wake_set-Kept : (env : Env) (s : LockerServer) → IsSynced s → Kept s (wake_set env s)
unfolding wake_set
wake_set-Kept env s y = search (branches, wake_set_beside-Kept)

read_alarm-Kept :
    (o : Option String) (env : Env) (s : LockerServer) → IsSynced s → Kept s (read_alarm o env s).1
unfolding read_alarm
read_alarm-Kept none env s y = Kept-refl s y
read_alarm-Kept (some c) env s y = search branches

pub wake_check-Kept : (env : Env) (s : LockerServer) → IsSynced s → Kept s (wake_check env s).1
unfolding wake_check
wake_check-Kept env s y =
    let s' : LockerServer = record s { wake_alarm = false } in
    let k : Kept s s' = record {
      synced = y;
      suspending_same = refl;
      hibernating_same = refl;
      timed = λ t. t;
    } in
    search (branches, k, Kept-trans k (read_alarm-Kept env.alarm_read env s' y))

lid_closed-Kept :
    (env : Env) (flag : ℕ) (h : Handled) → IsSynced h.1 → Kept h.1 (lid_closed env flag h).1
lid_closed-Kept env flag (err e, s) y = Kept-refl s y
lid_closed-Kept env flag (ok r, s) y = search (branches, try_suspend-Kept)

lid_event-Kept :
    (o : Option ℕ) (env : Env) (s : LockerServer) → IsSynced s → Kept s (lid_event o env s).1
unfolding lid_event
lid_event-Kept none env s y = Kept-refl s y
lid_event-Kept (some flag) env s y =
    let k = screen-Kept env none (flag == 0) s y in
    let c = lid_closed-Kept env flag (screen env none (flag == 0) s) k.synced in
    search (branches, Kept-trans k c)

pub lid_check-Kept : (env : Env) (s : LockerServer) → IsSynced s → Kept s (lid_check env s).1
unfolding lid_check
lid_check-Kept env s y = search (branches, lid_event-Kept)

pass_after-Kept : (m : Message) (h : Handled) → IsSynced h.1 → Kept h.1 (pass_after m h).1
pass_after-Kept m (err e, s) y = Kept-refl s y
pass_after-Kept m (ok r, s) y = Kept-refl s y

restart-Kept :
    (s : LockerServer)
    → IsSynced s
    → Kept s (start_backoff (record s { host = cancel_task s.backoff s.host }))
unfolding start_backoff
restart-Kept s y = record {
  synced = restart_backoff-IsSynced s y;
  suspending_same = refl;
  hibernating_same = refl;
  timed = restart_backoff-IsTimed s;
}

pub after_sleep-Kept :
    (env : Env) (m : Message) (s : LockerServer) → IsSynced s → Kept s (after_sleep env m s).1
unfolding after_sleep
after_sleep-Kept env m s y =
    let s' = start_backoff (record s { host = cancel_task s.backoff s.host }) in
    let k = restart-Kept s y in
    let k' = screen-Kept env none true s' k.synced in
    Kept-trans k (Kept-trans k' (pass_after-Kept m (screen env none true s') k'.synced))

setup_lid-Kept :
    (o : Option String) (env : Env) (s : LockerServer) → IsSynced s → Kept s (setup_lid o env s).1
unfolding setup_lid
setup_lid-Kept none env s y = screen-Kept env none true s y
setup_lid-Kept (some path) env s y =
    let s' : LockerServer = record s { lid_open = not env.lid_configure_fails } in
    let k : Kept s s' = record {
      synced = y;
      suspending_same = refl;
      hibernating_same = refl;
      timed = λ t. t;
    } in
    search (branches, screen-Kept, Kept-trans k (screen-Kept env none true s' y))

pub setup_server-Kept : (env : Env) (s : LockerServer) → IsSynced s → Kept s (setup_server env s).1
unfolding setup_server
setup_server-Kept env s y =
    let s' : LockerServer = record s {
      host = emit (status_written []) s.host;
      lid_path = find_lid_switch env.input_events;
      lid_open = false;
    } in
    let k : Kept s s' = record {
      synced = y;
      suspending_same = refl;
      hibernating_same = refl;
      timed = λ t. t;
    } in
    Kept-trans k (setup_lid-Kept (find_lid_switch env.input_events) env s' y)

pub reload-Kept :
    (env : Env) (m : Message) (s : LockerServer) → IsSynced s → Kept s (reload env m s).1
unfolding reload shutdown
reload-Kept env m s y =
    let s' : LockerServer = record (close_all s.lockers s) {
      lockers = [];
      update = false;
      lid_open = false;
    } in
    let k : Kept s s' = record {
      synced = close_all-Sync s.lockers s y;
      suspending_same = (flags-close_all s.lockers s).0;
      hibernating_same = (flags-close_all s.lockers s).1;
      timed = λ t h k l p. cc;
    } in
    search (branches, Kept-trans k (setup_server-Kept env s' k.synced))
