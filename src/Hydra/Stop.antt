-- ===== src/Hydra/Stop.antt =====
-- usr/lib/smd/lib/modules/hydra.py: `VM._stop` and `VM._thread`. What the process printed, and the files of the machine,
-- are left out.
pub mod Release
pub mod Waiting
use spaceport.Base.{
  ℕ, ◌+◌, String, Bool, true, false, not, ◌&&◌, Option, none, some, [], ltb, if◌then◌else◌, is_some,
}
use spaceport.Base.Int.{ℤ, is_zero}
use spaceport.Value.{Value, Result, ok, err}
use spaceport.Util.{num}
use spaceport.Hydra.State.{
  State, stopped, waiting, running, done, failed, Vm, Shared, Env, Answer, Ended, returned, error,
  crash, is_running, After,
}
use spaceport.Hydra.Machine.{is_stopped, is_waiting, is_sleeping, cmd, ended, close_adapters}
use spaceport.Hydra.Devices.{usb_clean}
use spaceport.Hydra.Pages.{pages}

-- The end of `_stop`, after `_usb_clean`: an `Error` of `pages` is only logged.
abbrev pub released : Env → After → After
released env (returned, (v, s)) = (
  returned,
  (
    record v { state = stopped },
    if v.memory_reserve then (pages env.writes v.vmid none true s).1 else s,
  ),
)
released env (e, r) = (e, r)

-- The machine without its process, its event and its interfaces
abbrev pub without_process : Vm → Vm
without_process v = record v {
  has_proc = false;
  has_output = true;
  frozen = false;
  adapters = [];
  event = none;
}

-- `_stop` from where it kills the process
unfoldable pub force_stop : Env → Vm → Shared → After
force_stop env v s = released env (usb_clean env (without_process v) s)

-- The event that stops the machine after the grace.
abbrev pub with_grace : Env → Ended → Vm → Shared → After
with_grace env returned v s = (returned, (record v { event = env.task }, s))
with_grace env e v s = (e, (v, s))

-- The second request, where the first failed and no guest agent is known
abbrev pub second_request : Env → Ended → Vm → Shared → After
second_request env returned v s = with_grace env returned v s
second_request env _ v s = let (a, v') = cmd env 1 false v in with_grace env (ended a) v' s

-- `_stop` where the machine is asked to shut down.
unfoldable pub soft_stop : Env → Vm → Shared → After
soft_stop env v s =
    let (a, v') = cmd env 0 true v in
    if v.agent then with_grace env (ended a) v' s else second_request env (ended a) v' s

abbrev pub with_timeout : Env → Result ℤ → Vm → Shared → After
with_timeout env (err _) v s = (error "timeout must be a non-zero positive number", (v, s))
with_timeout env (ok z) v s =
    if is_zero z
    then (error "timeout must be a non-zero positive number", (v, s))
    else soft_stop env v s

-- `_stop(server, manager, force, timeout, tap)`
unfoldable pub stop : Env → Bool → Value → Bool → Vm → Shared → After
stop env force timeout tap v s =
    if is_stopped v.state
    then (returned, (v, s))
    else if not force && tap
    then (if is_sleeping v.state
        then (error "cannot ACPI shutdown while suspended", (v, s))
        else let (a, v') = cmd env 0 true v in (ended a, (v', s)))
    else if not force && is_waiting v.state
    then (error "cannot non-force stop while waiting", (v, s))
    else if not force && is_running env v
    then (if is_some v.event
        then (error "soft shutdown already in progress", (v, s))
        else if is_sleeping v.state
        then (error "cannot ACPI shutdown while suspended", (v, s))
        else with_timeout env (num timeout false true) v s)
    else force_stop env v s

-- `_stop(server, manager, True)`
abbrev pub kill : Env → Vm → Shared → After
kill env v s = if is_stopped v.state then (returned, (v, s)) else force_stop env v s

abbrev pub hydra_wait_time : ℕ
hydra_wait_time = 10

-- What `_thread` does after a stop: it goes on, as a machine that waits no more.
abbrev pub stopped_now : After → After
stopped_now (returned, (v, s)) = (returned, (record v { state = stopped }, s))
stopped_now r = r

-- `_thread` for a machine that waits for its sockets
unfoldable pub wait_turn : Env → Vm → Shared → After
wait_turn env v s =
    let w = record v { wait = v.wait + 1 } in
    if not (is_running env v)
    then (if ltb (v.wait + 1) hydra_wait_time
        then (returned, (w, s))
        else stopped_now (kill env w s))
    else if env.sockets
    then (returned, (record v { state = running }, s))
    else (returned, (v, s))

-- `_thread(server, manager)`
unfoldable pub thread : Env → Vm → Shared → After
thread env v s = elim v.state as (λ _. After) [
  | stopped ↦ (returned, (v, s))
  | done ↦ stopped_now (kill env v s)
  | failed ↦ kill env v s
  | waiting ↦ wait_turn env v s
  | _ ↦ (returned, (v, s))
]
