-- ===== src/LockerServer/State.antt =====
-- usr/lib/smd/lib/modules/locker.py: the state of `LockerServer`, and what the system can answer.
use spaceport.Base.{
  ℕ, suc, String, Bool, true, false, not, Option, none, some, List, [], ◌∷◌, ◌==◌, leb,
  if◌then◌else◌,
}
use spaceport.Base.Dict.{Dict}
use spaceport.Value.{Value, Fields, Result, ok, err, index_error}
use spaceport.Message.{Message}
use spaceport.Host.{Host, Command}
use spaceport.Ability.{Ability, Locker, defaults}

pub record LockerServer : Type 0 where
  pub lid_open : Bool
  pub update : Bool
  pub ability : Ability
  pub backoff : Option ℕ
  pub lockers : Dict Locker
  pub lid_path : Option String
  pub displays : Bool
  pub wake_alarm : Bool
  pub suspending : Bool
  pub hibernating : Bool
  pub host : Host

-- `LockerServer()`
abbrev pub init : Host → LockerServer
init h = record {
  lid_open = false;
  update = false;
  ability = defaults;
  backoff = none;
  lockers = [];
  lid_path = none;
  displays = false;
  wake_alarm = false;
  suspending = false;
  hibernating = false;
  host = h;
}

-- What a hook function returns to `Hook.run`.
pub data Reply : Type 0 where
  nothing : Reply
  fields : Fields → Reply
  -- `as_error(text)`
  failed : String → Reply
  -- `as_error(f"Invaid Locker syntax for {name}: {err}")`
  bad_syntax : Value → String → Reply
  -- A message, and the number of a message with no payload.
  pass : Message → Reply
  code : ℕ → Reply

-- A read from the lid switch: an `OSError`, no event, or bytes.
pub data LidRead : Type 0 where
  lid_error lid_silent : LidRead
  lid_bytes : List ℕ → LidRead

-- What a file in /dev/input says of itself.
pub data Probe : Type 0 where
  unreadable undecodable : Probe
  named : String → Probe

-- The answers of the system during one run of a handler.
pub record Env : Type 0 where
  -- `nulexec` cannot start the command; what is started and takes too long has run, and its `OSError` is only logged.
  pub command_fails : Command → Bool
  -- The `errno` of the n-th write to the RTC alarm, where it fails
  pub alarm_write : ℕ → Option ℕ
  -- The content of the RTC alarm; none is an `OSError`
  pub alarm_read : Option String
  pub lid_read : LidRead
  pub input_events : List (String × Probe)
  pub lid_open_fails : Bool
  pub lid_configure_fails : Bool
  -- The first byte of each display's file, where there is one; none is an `OSError`
  pub connected : List (Option (List ℕ))
  pub active : List (Option (List ℕ))
  pub default_display : List (Option (List ℕ))

-- Reads whose first byte is b.
abbrev pub count_first : ℕ → List (Option (List ℕ)) → ℕ
count_first b [] = 0
count_first b (some (c ∷ _) ∷ rest) =
    if c == b then suc (count_first b rest) else count_first b rest
count_first b (_ ∷ rest) = count_first b rest

-- Is the one default display something else than enabled?
default_elsewhere : List (Option (List ℕ)) → Result Bool
default_elsewhere (none ∷ []) = ok true
default_elsewhere (some [] ∷ []) = err index_error
default_elsewhere (some (c ∷ _) ∷ []) = ok (not (c == 0x65))
default_elsewhere _ = ok true

-- `_connected_displays`: are there displays other than the built-in one?
unfoldable pub connected_displays : Env → Result Bool
unfolding default_elsewhere
connected_displays env =
    if leb (count_first 0x63 env.connected) 1
    then ok false
    else if not (count_first 0x65 env.active == 1)
    then ok true
    else default_elsewhere env.default_display
