-- ===== src/Hydra/Stop/Waiting.antt =====
-- usr/lib/smd/lib/modules/hydra.py: how long `VM._thread` waits for a machine whose process has ended.
use spaceport.Base.{
  ℕ, zero, suc, ◌+◌, ◌≡◌, ◌<◌, refl, sym, ap, ◌∙◌, false, not, if◌then◌else◌, if_true, if_false,
  ltb, arith, [], lt→ltb,
}
use mathlib.Core.Path.{subst}
use spaceport.Hydra.State.{
  State, stopped, waiting, running, Vm, Shared, Env, returned, is_running, After, and_then,
}
use spaceport.Hydra.Stop.{kill, stopped_now, wait_turn, thread, without_process}
use spaceport.Hydra.Devices.Single.{Owned}
use spaceport.Hydra.Stop.Release.{force_stop_lem, given_back, erase_all}

-- Some turns of `_thread`, as long as none raises
unfoldable pub turns : ℕ → Env → Vm → Shared → After
turns zero env v s = (returned, (v, s))
turns (suc n) env v s = and_then (turns n env) (thread env v s)

-- The machine as it has waited for so many turns
abbrev pub waited : ℕ → Vm → Vm
waited n v = record v { wait = n; state = waiting }

-- It waits on for a turn, where turns are left.
waits_on :
    (env : Env) (n : ℕ) (v : Vm) (s : Shared)
    → is_running env v ≡ false
    → n + 1 < 10
    → thread env (waited n v) s ≡ (returned, (waited (n + 1) v, s))
unfolding thread wait_turn
waits_on env n v s dead less =
    let w : Vm = waited (n + 1) v in
    let last : After = stopped_now (kill env w s) in
    let live : After =
      if env.sockets
      then (returned, (record (waited n v) { state = running }, s))
      else (returned, (waited n v, s)) in
    if_true (not (is_running env v)) (if ltb (n + 1) 10 then (returned, (w, s)) else last) live
      (ap not dead)
    ∙ if_true (ltb (n + 1) 10) (returned, (w, s)) last (lt→ltb (n + 1) 10 less)

-- A machine that was stopped by force
abbrev ended_vm : Vm → Vm
ended_vm v = record (without_process v) { usb = []; state = stopped }

-- The last turn stops it.
stops_at_last :
    (env : Env) (n : ℕ) (v : Vm) (s : Shared)
    → is_running env v ≡ false
    → n + 1 ≡ 10
    → Owned v.usb s.usb
    → thread env (waited n v) s ≡ (
      returned,
      (
        ended_vm (waited (n + 1) v),
        given_back env (waited (n + 1) v) (record s { usb = erase_all v.usb s.usb }),
      ),
    )
unfolding thread wait_turn
stops_at_last env n v s dead ten o =
    let w : Vm = waited (n + 1) v in
    let last : After = stopped_now (kill env w s) in
    let live : After =
      if env.sockets
      then (returned, (record (waited n v) { state = running }, s))
      else (returned, (waited n v, s)) in
    if_true (not (is_running env v)) (if ltb (n + 1) 10 then (returned, (w, s)) else last) live
      (ap not dead)
    ∙ if_false (ltb (n + 1) 10) (returned, (w, s)) last (rw ten refl)
    ∙ ap stopped_now (force_stop_lem env w s o)

stops_after :
    (m n : ℕ) (env : Env) (v : Vm) (s : Shared)
    → is_running env v ≡ false
    → Owned v.usb s.usb
    → n + suc m ≡ 10
    → ((turns (suc m) env (waited n v) s).0 ≡ returned)
      × ((turns (suc m) env (waited n v) s).1.0.state ≡ stopped)
unfolding turns
stops_after zero n env v s dead o ten =
    subst
      (λ (a : After).
        ((and_then (turns 0 env) a).0 ≡ returned)
        × ((and_then (turns 0 env) a).1.0.state ≡ stopped))
      (sym (stops_at_last env n v s dead (omega arith) o)) (refl, refl)
stops_after (suc m) n env v s dead o ten =
    subst
      (λ (a : After).
        ((and_then (turns (suc m) env) a).0 ≡ returned)
        × ((and_then (turns (suc m) env) a).1.0.state ≡ stopped))
      (sym (waits_on env n v s dead (omega arith)))
      (stops_after m (n + 1) env v s dead o (omega arith))

-- A machine that waits for its sockets while its process does not run, and that has waited for fewer than ten turns, is
-- stopped, and nothing is raised, once it has waited for ten, where its devices stand in the table of all.
pub waiting_ends :
    (m : ℕ) (env : Env) (v : Vm) (s : Shared)
    → v.state ≡ waiting
    → is_running env v ≡ false
    → Owned v.usb s.usb
    → v.wait + suc m ≡ 10
    → ((turns (suc m) env v s).0 ≡ returned) × ((turns (suc m) env v s).1.0.state ≡ stopped)
waiting_ends m env v s w dead o ten =
    subst
      (λ (st : State).
        ((turns (suc m) env (record v { state = st }) s).0 ≡ returned)
        × ((turns (suc m) env (record v { state = st }) s).1.0.state ≡ stopped))
      (sym w) (stops_after m v.wait env v s dead o ten)
