-- ===== src/Hydra/Machine.antt =====
-- usr/lib/smd/lib/modules/hydra.py: the functions of `VM` that ask the machine for something, and its network interfaces.
use spaceport.Base.{
  ℕ, String, Bool, true, false, not, ◌&&◌, ◌||◌, Option, none, some, List, [], ◌∷◌, if◌then◌else◌,
}
use spaceport.Base.Dict.{Dict}
use spaceport.Value.{attribute_error}
use spaceport.Hydra.State.{
  State, done, failed, stopped, waiting, running, sleeping, Vm, Env, Answer, replied, timed_out,
  refused, Ended, returned, error, crash, is_running, Interface,
}

abbrev pub is_stopped : State → Bool
is_stopped stopped = true
is_stopped _ = false

abbrev pub is_waiting : State → Bool
is_waiting waiting = true
is_waiting _ = false

abbrev pub is_active : State → Bool
is_active running = true
is_active _ = false

abbrev pub is_sleeping : State → Bool
is_sleeping sleeping = true
is_sleeping _ = false

-- `__stop`, which is called once the process has ended
unfoldable pub on_exit : Vm → Vm
on_exit v =
    if is_stopped v.state
    then v
    else if is_waiting v.state
    then record v { state = failed }
    else record v { state = done }

abbrev state_text : State → String
state_text failed = "error"
state_text running = "running"
state_text waiting = "waiting"
state_text sleeping = "sleeping"
state_text _ = "stopped"

-- `_status()`
pub record Status : Type 0 where
  pub alive : Bool
  pub usb : Dict ℕ
  pub vmid : ℕ
  pub guest : Bool
  pub status : String

unfoldable pub status : Env → Vm → Status
status env v = record {
  alive = is_running env v;
  usb = v.usb;
  vmid = v.vmid;
  guest = v.agent;
  status = elim v.event [ none ↦ state_text v.state | some _ ↦ "stopping" ];
}

abbrev pub heard : Bool → Answer → Vm → Vm
heard ga (replied _) v = record v { agent = v.agent || ga }
heard ga _ v = v

-- `_cmd(server, command, args, ga, timeout)`, the i-th command of a call: nothing, where the machine does not run.
unfoldable pub cmd : Env → ℕ → Bool → Vm → Option Answer × Vm
cmd env i ga v =
    if is_running env v then (some (env.answers i), heard ga (env.answers i) v) else (none, v)

-- A command that fails raises.
abbrev pub ended : Option Answer → Ended
ended (some timed_out) = error "timed out"
ended (some refused) = error "refused"
ended _ = returned

-- Where a `TimeoutError` is only logged.
abbrev pub ended_late : Option Answer → Ended
ended_late (some refused) = error "refused"
ended_late _ = returned

-- `_ping(server)`: the status, and whether the guest answers
unfoldable pub ping : Env → Vm → (Status × Bool) × Vm
ping env v =
    let (a, v') = cmd env 0 true v in
    ((status env v, elim (ended a) [ returned ↦ true | _ ↦ false ]), v')

-- `_hibernate(server)`
unfoldable pub hibernate : Env → Vm → Ended × Vm
hibernate env v =
    if is_stopped v.state
    then (returned, v)
    else if is_waiting v.state
    then (error "cannot hibernate while waiting", v)
    else if not (is_active v.state)
    then (error "not able to hibernate", v)
    else let (a, v') = cmd env 0 true v in (ended_late a, v')

-- `_restart(server, reset)`
unfoldable pub restart : Env → Bool → Vm → Ended × Vm
restart env reset v =
    if is_stopped v.state
    then (returned, v)
    else if is_waiting v.state
    then (error "cannot restart/reset while waiting", v)
    else if not (is_active v.state)
    then (error "not able to restart/reset", v)
    else let (a, v') = cmd env 0 (not reset) v in (ended_late a, v')

-- `_sleep(server, sleep)`: a signal to the process that the machine has.
unfoldable pub sleep : Bool → Vm → Ended × Vm
sleep asleep v =
    if asleep && is_sleeping v.state
    then (error "already sleeping", v)
    else if not asleep && not (is_sleeping v.state)
    then (error "not currently sleeping", v)
    else if not (is_active v.state) && not (is_sleeping v.state)
    then (error "not able to sleep", v)
    else if not v.has_proc
    then (crash attribute_error, v)
    else (returned, record v { state = if asleep then sleeping else running; frozen = asleep })

-- `_close_adapters(server)`: what cannot be removed is logged.
unfoldable pub close_adapters : Vm → Vm
close_adapters v = record v { adapters = [] }

-- `_init_adapters(server)`, where the interfaces can be made or not: where it fails, it takes them away.
unfoldable pub init_with : Bool → List Interface → Vm → Ended × Vm
init_with links [] v = (returned, v)
init_with links (_ ∷ _) v =
    if links then (returned, v) else (error "cannot create interfaces", close_adapters v)

-- The k-th call of `_init_adapters` in a start
unfoldable pub init_adapters : Env → ℕ → Vm → Ended × Vm
init_adapters env k v = init_with (env.links k) v.adapters v
