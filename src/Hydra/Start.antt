-- ===== src/Hydra/Start.antt =====
-- usr/lib/smd/lib/modules/hydra.py: `VM._start` and `VM._build_adapters`. What `_build` checks and the arguments that it makes are
-- parameters: whether it fails before it reserves memory, or afterwards.
pub mod Failures
use spaceport.Base.{
  ℕ, ◌+◌, String, Bool, true, false, not, ◌&&◌, Option, none, some, List, [], ◌∷◌, ◌++◌, length,
  is_some, if◌then◌else◌,
}
use Prim.Native.String.{◌++◌ as str_append}
use spaceport.Base.Int.{round_div}
use spaceport.Util.{show_number}
use spaceport.Value.{attribute_error}
use spaceport.Hydra.State.{
  State, stopped, waiting, running, Interface, Vm, Shared, Env, Ended, returned, error, crash,
  is_running, After, and_then,
}
use spaceport.Hydra.Machine.{is_sleeping, sleep, init_adapters}
use spaceport.Hydra.Pages.{pages}
use spaceport.Hydra.Stop.{kill}

-- An entry of `network`: whether it is a dict that is not empty, and the values that it has.
pub record Network : Type 0 where
  pub valid : Bool
  pub bridge : Option String
  pub device : Option String

-- What `_start` meets: the outcome of the checks of `_build_restriced`, of `_build_drives` and of `_build_bios` with the
-- `save` that follows it, the entries
-- of `network`, and whether the process can be started.
pub record Setup : Type 0 where
  pub checks : Ended
  pub drives : Ended
  pub bios : Ended
  pub network : List Network
  pub spawns : Bool

abbrev pub hydra_bridge : String
hydra_bridge = "vmi0"

abbrev pub hydra_reserve_size : ℕ
hydra_reserve_size = 2

-- The interface of an entry, where n were made before
unfoldable pub interface : ℕ → ℕ → Network → Interface
interface vmid n a = record {
  auto = not (is_some a.device);
  bridge = elim a.bridge [ none ↦ hydra_bridge | some b ↦ b ];
  device = elim a.device [
    | none ↦
        str_append hydra_bridge
          (str_append "s" (str_append (show_number vmid) (str_append "n" (show_number n))))
    | some d ↦ d
  ];
}

-- The loop of `_build_adapters`
unfoldable pub adapters_from : ℕ → List Network → List Interface → List Interface
adapters_from vmid [] made = made
adapters_from vmid (a ∷ others) made =
    adapters_from vmid others
      (if a.valid then made ++ interface vmid (length made) a ∷ [] else made)

-- `_build_adapters(server, bus)`: without entries it leaves the interfaces as they are.
unfoldable pub build_adapters : List Network → Vm → Vm
build_adapters [] v = v
build_adapters (a ∷ others) v = record v { adapters = adapters_from v.vmid (a ∷ others) [] }

-- The memory that `_build_restriced` reserves, in pages of two megabytes
unfoldable pub reserve_for : Env → Option ℕ → Vm → Shared → Ended × Shared
reserve_for env none v s = (error "memory size must be a non-zero positive number", s)
reserve_for env (some n) v s =
    if v.memory_reserve
    then pages env.writes v.vmid (some (round_div n hydra_reserve_size)) false s
    else (returned, s)

-- The three parts of `_build`, after the checks of the first
unfoldable pub build_with : Env → Ended → Ended → Setup → Vm → Shared → After
build_with env drives bios u v s =
    let (e, s1) = reserve_for env v.memory_size v s in
    and_then
      (λ v2 s2. and_then (λ v3 s3. (bios, (build_adapters u.network v3, s3))) (drives, (v2, s2)))
      (e, (v, s1))

-- `_build(server, manager, uid)`
unfoldable pub build : Env → Setup → Vm → Shared → After
build env u v s = and_then (build_with env u.drives u.bios u) (u.checks, (v, s))

-- `_init_adapters` and, where it raises an `OSError`, once more
unfoldable pub retry : Env → Ended × Vm → Ended × Vm
retry env (error _, v) = init_adapters env 1 v
retry env r = r

unfoldable pub make_adapters : Env → Vm → Ended × Vm
make_adapters env v = retry env (init_adapters env 0 v)

-- The process is started. Where it cannot be, `_stop` is called on a machine that is marked as stopped.
unfoldable pub launch : Env → Setup → Vm → Shared → After
launch env u v s =
    if not u.spawns
    then (error "cannot start", (kill env (record v { state = stopped; wait = 0 }) s).1)
    else let w = record v { wait = 0; has_proc = true; frozen = false } in
      if not env.alive
      then (returned, (record w { state = waiting }, s))
      else if env.sockets
      then (returned, (record w { state = running }, s))
      else (returned, (record w { state = waiting }, s))

-- `_start` of a machine that was built: its interfaces, and its process
unfoldable pub start_built : Env → Setup → Vm → Shared → After
start_built env u v s = let (e, w) = make_adapters env v in and_then (launch env u) (e, (w, s))

-- `_start` of a machine that runs: one that sleeps is woken, and `_process` is no attribute.
unfoldable pub start_running : Vm → Shared → After
start_running v s =
    if is_sleeping v.state
    then (let (e, w) = sleep false v in (e, (w, s)))
    else (crash attribute_error, (v, s))

-- `_start(server, manager, uid)`
unfoldable pub start : Env → Setup → Vm → Shared → After
start env u v s =
    if is_running env v
    then start_running v s
    else and_then (start_built env u)
        (build env u (record v { state = stopped; has_proc = false }) s)
