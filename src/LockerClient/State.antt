-- ===== src/LockerClient/State.antt =====
-- usr/lib/smd/lib/modules/locker.py: the state of `LockerClient`, and what the system can answer.
use spaceport.Base.{ℕ, String, Bool, false, not, Option, none, some, List, [], ◌∷◌, ◌==◌}
use spaceport.Value.{Items, nil, Fields}
use spaceport.Util.Exec.{Shell}
use spaceport.Host.{Host, Command}
use spaceport.Ability.{Ability, defaults}

pub record LockerClient : Type 0 where
  -- The lock command; `DEFAULT_LOCKER_LOCKER` itself where `shared`, whose content is `default_cmd`.
  pub cmd : List String
  pub shared : Bool
  pub default_cmd : List String
  -- Processes, by their numbers.
  pub dpms : Option ℕ
  pub idle : Option ℕ
  pub lockscreen : Option ℕ
  pub battery : Bool
  -- Events of the scheduler.
  pub sleeper : Option ℕ
  pub backoff : Option ℕ
  pub backoff_blank : Option ℕ
  -- The names of the lockers, as the server sent them.
  pub lockers : Items
  pub ability : Ability
  pub ability_ac : Ability
  pub ability_battery : Ability
  pub sleeping : Bool
  -- `service.config`, and what the calls on `server` act upon
  pub config : Fields
  pub host : Host

-- The value of `DEFAULT_LOCKER_LOCKER` in the file.
abbrev pub default_locker_locker : List String
default_locker_locker = "/usr/bin/swaylock" ∷ "-n" ∷ []

-- `LockerClient()`
abbrev pub init : Fields → Host → LockerClient
init config h = record {
  cmd = [];
  shared = false;
  default_cmd = default_locker_locker;
  dpms = none;
  idle = none;
  lockscreen = none;
  battery = false;
  sleeper = none;
  backoff = none;
  backoff_blank = none;
  lockers = nil;
  ability = defaults;
  ability_ac = defaults;
  ability_battery = defaults;
  sleeping = false;
  config = config;
  host = h;
}

-- The calls of `_on_power`, and the programs that are started.
pub data Site : Type 0 where
  at_setup at_lock at_resume : Site

pub data Program : Type 0 where
  idle_program lock_program dpms_program : Program

-- The answers of the system during one run of a handler.
pub record Env : Type 0 where
  -- The content of `LOCKER_PATH_BATTERY`; none is an `OSError`
  pub power : Site → Option (List ℕ)
  -- `poll() is not None`
  pub exited : ℕ → Bool
  -- `nulexec` raises an `OSError`
  pub start_fails : Program → Bool
  pub command_fails : Command → Bool
  -- The signals to the idle process raise an `OSError`
  pub pause_fails : Bool
  pub resume_fails : Bool
  -- `swaymsg` raises an `OSError`
  pub sway_fails : Bool
  -- The home directory, the variables and the shell's syntax, as `split` reads them
  pub shell : Shell

starts_with_one : List ℕ → Bool
starts_with_one [] = false
starts_with_one (c ∷ _) = c == 0x31

-- `_on_power`
unfoldable pub on_power : Option (List ℕ) → Bool
unfolding starts_with_one
on_power none = false
on_power (some content) = starts_with_one content

-- A process that has not ended: `x is not None and x.poll() is None`.
abbrev pub is_alive : Env → Option ℕ → Bool
is_alive env none = false
is_alive env (some p) = not (env.exited p)

-- `_locked`
abbrev pub is_locked : Env → LockerClient → Bool
is_locked env s = is_alive env s.lockscreen
