-- ===== src/Tests/Client.antt =====
-- The theorems on `LockerClient`, at concrete inputs.
use spaceport.Base.{ℕ, ◌≡◌, refl, true, false, none, some, List, [], ◌∷◌}
use spaceport.Base.Int.{pos}
use spaceport.Value.{number, text, nil, cons, Fields, end, field, ok}
use spaceport.Message.{Message}
use spaceport.Constants.{hook_lock, hook_suspend, msg_pre, trigger_blank, trigger_lock}
use spaceport.Host.{Host, wake_attempt as attempt_job}
use spaceport.LockerClient.{
  LockerClient, Env, Event, init, run, step, sleep, before_sleep, lock, thread, screen_started,
  wake_check, dpms_on, notify_control,
}
use spaceport.LockerClient.Queue.{NoAttempt}
use spaceport.LockerClient.Asleep.{no_sleeper_asleep}

abbrev host : Host
host = record { now = 5000; stopping = false; next = 0; queue = []; effects = [] }

-- A system on mains power on which every call works, with a shell that has one word in each text.
abbrev env : Env
env = record {
  power = λ _. some (0x31 ∷ []);
  exited = λ _. false;
  start_fails = λ _. false;
  command_fails = λ _. false;
  pause_fails = false;
  resume_fails = false;
  sway_fails = false;
  shell = record { expand = λ t. t; shell_split = λ t. ok (t ∷ []); join = λ _. "" };
}

abbrev fresh : LockerClient
fresh = init end host

abbrev message : ℕ → Fields → Message
message header payload = record {
  header = header;
  payload = payload;
  pid = none;
  uid = some 0;
  forwarded = false;
  is_multicast = false;
}

abbrev before : Message
before = message hook_suspend (field "type" (number (pos msg_pre)) end)

abbrev asleep : List (Env × Event)
asleep = (env, Event.on_sleep before) ∷ (env, Event.on_daemon) ∷ []

asleep_sleeping : (run asleep (init end host)).sleeping ≡ true
unfolding run step thread sleep before_sleep lock screen_started wake_check dpms_on notify_control
asleep_sleeping = refl

no_sleeper_asleep_example :
    ((run asleep (init end host)).sleeper ≡ none)
    × NoAttempt (run asleep (init end host)).host.queue
no_sleeper_asleep_example = no_sleeper_asleep asleep end host (λ i p. cc) asleep_sleeping

-- A client whose screen has been locked for a while, with the event that will suspend the system.
abbrev soon : LockerClient
soon = record fresh {
  sleeper = some 0;
  host = record host {
    next = 1;
    queue = record { id = 0; time = 9000; priority = 5; job = attempt_job } ∷ [];
  };
}

abbrev blank : Message
blank = message hook_lock (field "trigger" (number (pos trigger_blank)) end)

-- A client that knows of a Lock locker is asked to lock.
abbrev kept_open : LockerClient
kept_open = record fresh { lockers = cons (text "lock") nil }

abbrev ask : Message
ask = message hook_lock (field "trigger" (number (pos trigger_lock)) end)

-- A client whose lock command is the default list itself.
abbrev by_default : LockerClient
by_default = record fresh { cmd = fresh.default_cmd; shared = true }
