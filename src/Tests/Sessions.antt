-- ===== src/Tests/Sessions.antt =====
-- The theorems on the session of a user, at concrete inputs.
use spaceport.Base.{ℕ, ◌≡◌, refl, true, false, some, none, [], ◌∷◌, ◌==◌, if◌then◌else◌}
use spaceport.Base.Int.{pos}
use spaceport.Value.{number, end, field}
use spaceport.Message.{Message}
use spaceport.Constants.{hook_lock}
use spaceport.Session.{Session, Env, targets, lock}
use spaceport.Session.Thaw.{frozen, reached, lock_thaws}

-- Two windows, one of which is the lock screen; the other has a second process in its group.
abbrev env : Env
env = record {
  group_of = λ p. some (if p == 54 then 50 else p);
  kills_group = λ g. true;
  kills = λ p. true;
  windows =
      some (record { pid = 50; app = "firefox" } ∷ record { pid = 51; app = "swaylock" } ∷ []);
  starts = λ c. true;
}

abbrev session : Session
session = record {
  ignore = [];
  last_ac = none;
  startup = [];
  profiles = ("power_battery", some (("dim" ∷ []) ∷ [])) ∷ [];
  can_freeze = true;
  signals = [];
  commands = [];
  stopped = [];
}

abbrev of_type : ℕ → ℕ → Message
of_type header n = record {
  header = header;
  payload = field "type" (number (pos n)) end;
  pid = none;
  uid = none;
  forwarded = false;
  is_multicast = false;
}

lock_thaws_example :
    frozen env 54 (lock env (of_type hook_lock 1) (lock env (of_type hook_lock 0) session)) ≡ (
      if reached env 54 (
        targets env []
          (record { pid = 50; app = "firefox" } ∷ record { pid = 51; app = "swaylock" } ∷ []))
      then false
      else frozen env 54 session)
lock_thaws_example =
    lock_thaws env (of_type hook_lock 0) (of_type hook_lock 1) session
      (record { pid = 50; app = "firefox" } ∷ record { pid = 51; app = "swaylock" } ∷ []) 54 refl
      refl refl refl refl
