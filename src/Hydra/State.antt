-- ===== src/Hydra/State.antt =====
-- usr/lib/smd/lib/modules/hydra.py: the state of a `VM`, what the machines share, and what the system answers to a call.
-- Of the configuration, the settings that the modelled functions read are fields.
use spaceport.Base.{ℕ, String, Bool, ◌&&◌, Option, List}
use spaceport.Base.Int.{ℤ}
use spaceport.Base.Dict.{Dict}
use spaceport.Base.Table.{Table}
use spaceport.Value.{Value, Exn}

-- `HYDRA_STATE_DONE` and the others, and their numbers
pub data State : Type 0 where
  done failed stopped waiting running sleeping : State

abbrev pub state_number : State → ℕ
state_number done = 0x4
state_number failed = 0x5
state_number stopped = 0x10
state_number waiting = 0x1
state_number running = 0x2
state_number sleeping = 0x3

-- `Interface`
pub record Interface : Type 0 where
  pub auto : Bool
  pub bridge : String
  pub device : String

-- A `VM`: its number, the path of its file, `_state`; whether it has a `_proc`; `_wait`, `_event`, `_agent` and whether `_output` was set; `_usb`, the
-- numbers of its devices by name; `_adapters`; whether its process was last sent SIGSTOP; and its settings `memory.reserve` and `memory.size`, where that is a
-- positive number.
pub record Vm : Type 0 where
  pub vmid : ℕ
  pub path : String
  pub state : State
  pub has_proc : Bool
  pub wait : ℕ
  pub event : Option ℕ
  pub agent : Bool
  pub has_output : Bool
  pub usb : Dict ℕ
  pub adapters : List Interface
  pub frozen : Bool
  pub memory_reserve : Bool
  pub memory_size : Option ℕ

-- What the functions of a machine use of the `HydraServer`: `_usb`, the machines by device; `_pages`, the pages by
-- machine; and the number that was last written to `HYDRA_RESERVE`.
pub record Shared : Type 0 where
  pub usb : Dict ℕ
  pub pages : Table ℕ
  pub reserved : ℤ

-- How a function ends: it returns, it raises an `OSError` (which `Error` is), or another exception.
pub data Ended : Type 0 where
  returned : Ended
  error : String → Ended
  crash : Exn → Ended

-- What a machine answers to a command.
pub data Answer : Type 0 where
  replied : Value → Answer
  timed_out refused : Answer

-- What the system answers in one call: whether the process of the machine is alive; its answers, in order; whether the
-- permissions of the sockets can be set; whether a first and a second try make its network interfaces; the event that `task` gives; whether `HYDRA_RESERVE` can be written; and
-- Python's `lower`.
pub record Env : Type 0 where
  pub alive : Bool
  pub answers : ℕ → Answer
  pub sockets : Bool
  pub links : ℕ → Bool
  pub task : Option ℕ
  pub writes : Bool
  pub lower : String → String

-- `_running()`
abbrev pub is_running : Env → Vm → Bool
is_running env v = v.has_proc && env.alive

-- A machine and what it shares, after a call
abbrev pub After : Type 0
After = Ended × (Vm × Shared)

-- What follows a call is skipped when the call raises.
abbrev pub and_then : (Vm → Shared → After) → After → After
and_then f (returned, (v, s)) = f v s
and_then f (e, r) = (e, r)
