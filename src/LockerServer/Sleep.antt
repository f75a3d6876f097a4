-- ===== src/LockerServer/Sleep.antt =====
-- usr/lib/smd/lib/modules/locker.py: when `LockerServer` puts the system to sleep, and who may ask.
use spaceport.Base.{
  ℕ, ◌+◌, ◌≡◌, refl, String, Bool, true, false, not, ◌&&◌, ◌||◌, none, some, List, [], ◌∷◌, ◌++◌,
  arith, if◌then◌else◌, is_some, str_eq,
}
use spaceport.Base.Dict.{lookup, contains}
use spaceport.Value.{ok, err, attribute_error}
use spaceport.Message.{Message, attr_is, uid_is, multicast}
use spaceport.Constants.{msg_pre, msg_post}
use spaceport.Host.{Command, Effect, ran, alarm_set, emit, seconds, status_written}
use spaceport.Ability.{can_suspend, can_hibernate}
use spaceport.LockerServer.State.{LockerServer, Env, nothing, pass}
use spaceport.LockerServer.Power.{
  act, screen, run_command, try_suspend, write_alarm_after, wake_set_beside, wake_set, read_alarm,
  wake_check, suspend, hibernate, setup_lid, setup_server, find_lid_switch, alarm_is_set,
  hibernate_or_stay,
}

-- How often a command was run.
abbrev same_command : Command → Command → Bool
same_command Command.suspend Command.suspend = true
same_command Command.hibernate Command.hibernate = true
same_command Command.lock_keyring Command.lock_keyring = true
same_command Command.notify_on Command.notify_on = true
same_command Command.notify_off Command.notify_off = true
same_command _ _ = false

abbrev is_run : Command → Effect → Bool
is_run c (ran d) = same_command c d
is_run c _ = false

pub count_runs : Command → List Effect → ℕ
count_runs c [] = 0
count_runs c (e ∷ es) = (if is_run c e then 1 else 0) + count_runs c es

count_runs-emit :
    (c : Command) (es : List Effect) (e : Effect)
    → count_runs c (es ++ e ∷ []) ≡ count_runs c es + (if is_run c e then 1 else 0)
unfolding count_runs
count_runs-emit c [] e = omega arith
count_runs-emit c (x ∷ es) e = omega (arith, count_runs-emit c es e)

abbrev pub one_if : Bool → ℕ
one_if b = if b then 1 else 0

-- `_suspend` runs the suspend command exactly when no backoff is on, the client can suspend, the call
-- comes from the lid or neither a Suspend nor a Backup locker stands, and the command can be started. It
-- runs the hibernate command exactly when no backoff is on, the client cannot suspend but can
-- hibernate, neither a Hibernate nor a Backup locker stands, and the command can be started. Each is run
-- once at most.
pub try_suspend_runs :
    (env : Env) (is_lid : Bool) (s : LockerServer)
    → let before = s.host.effects in
      let after = (try_suspend env is_lid s).host.effects in
      (count_runs Command.suspend after
        ≡ count_runs Command.suspend before
          + one_if (
              not (is_some s.backoff)
              && can_suspend s.ability
              && (is_lid || not (contains "suspend" s.lockers) && not (contains "backup" s.lockers))
              && not (env.command_fails Command.suspend)))
      × (count_runs Command.hibernate after
          ≡ count_runs Command.hibernate before
            + one_if (
                not (is_some s.backoff)
                && not (can_suspend s.ability)
                && can_hibernate s.ability
                && not (contains "hibernate" s.lockers)
                && not (contains "backup" s.lockers)
                && not (env.command_fails Command.hibernate)))
unfolding try_suspend run_command
try_suspend_runs env is_lid s = (
  ground (
    arith,
    count_runs-emit Command.suspend s.host.effects (ran Command.suspend),
    count_runs-emit Command.suspend s.host.effects (ran Command.hibernate),
  ),
  ground (
    arith,
    count_runs-emit Command.hibernate s.host.effects (ran Command.suspend),
    count_runs-emit Command.hibernate s.host.effects (ran Command.hibernate),
  ),
)

-- A Suspend, Hibernate or Screen message whose sender is not root is ignored: nothing is answered and
-- nothing changes.
root_only :
    (env : Env) (m : Message) (close : Bool) (s : LockerServer)
    → uid_is m 0 ≡ false
    → (suspend env m s ≡ (ok nothing, s))
      × (hibernate env m s ≡ (ok nothing, s))
      × (screen env (some m) close s ≡ (ok nothing, s))
unfolding suspend hibernate screen
root_only env m close s h = (rw h refl, rw h refl, rw h refl)

wake_set_plain :
    (env : Env) (s : LockerServer)
    → can_hibernate s.ability ≡ true
    → lookup "hibernate" s.lockers ≡ none
    → env.alarm_write 0 ≡ none
    → wake_set env s ≡ alarm_is_set s
unfolding wake_set wake_set_beside write_alarm_after
wake_set_plain env s c l a = rw (c, l, a) refl

wake_check_gone :
    (env : Env) (s : LockerServer)
    → s.wake_alarm ≡ true
    → can_hibernate s.ability ≡ true
    → lookup "hibernate" s.lockers ≡ none
    → env.alarm_read ≡ some ""
    → wake_check env s ≡ (true, record s { wake_alarm = false })
unfolding wake_check read_alarm
wake_check_gone env s w c l a = ground arith

suspend_pre :
    (env : Env) (m : Message) (s : LockerServer)
    → uid_is m 0 ≡ true
    → attr_is "type" m msg_pre ≡ true
    → s.suspending ≡ false
    → suspend env m s ≡ (
      ok (pass (multicast m)),
      wake_set env (record s { wake_alarm = false; hibernating = false; suspending = true }),
    )
unfolding suspend
suspend_pre env m s u t n = rw (u, t, n) refl

suspend_post :
    (env : Env) (m : Message) (s : LockerServer)
    → uid_is m 0 ≡ true
    → attr_is "type" m msg_pre ≡ false
    → attr_is "type" m msg_post ≡ true
    → s.suspending ≡ true
    → suspend env m s
      ≡ hibernate_or_stay env m
          (wake_check env (record s { suspending = false; hibernating = false }))
unfolding suspend
suspend_post env m s u t p n = rw (u, t, p, n) refl

-- The two halves of a sleep whose alarm goes off, as they change the state.
abbrev asleep : LockerServer → LockerServer
asleep s = alarm_is_set (record s { wake_alarm = false; hibernating = false; suspending = true })

abbrev awake : LockerServer → LockerServer
awake s = record s { suspending = false; hibernating = false; wake_alarm = false }

falls_asleep :
    (env : Env) (m : Message) (s : LockerServer)
    → uid_is m 0 ≡ true
    → attr_is "type" m msg_pre ≡ true
    → s.suspending ≡ false
    → can_hibernate s.ability ≡ true
    → lookup "hibernate" s.lockers ≡ none
    → env.alarm_write 0 ≡ none
    → (suspend env m s).1 ≡ asleep s
falls_asleep env m s u t n c l a = rw (suspend_pre env m s u t n) (
    wake_set_plain env (record s { wake_alarm = false; hibernating = false; suspending = true }) c l
      a)

goes_on_to_hibernate :
    (env : Env) (m : Message) (s : LockerServer)
    → uid_is m 0 ≡ true
    → attr_is "type" m msg_pre ≡ false
    → attr_is "type" m msg_post ≡ true
    → s.suspending ≡ true
    → s.wake_alarm ≡ true
    → can_hibernate s.ability ≡ true
    → lookup "hibernate" s.lockers ≡ none
    → env.alarm_read ≡ some ""
    → env.command_fails Command.hibernate ≡ false
    → (suspend env m s).1 ≡ act (ran Command.hibernate) (awake s)
unfolding run_command
goes_on_to_hibernate env m s u t p n w c l a f =
    rw
      (
        suspend_post env m s u t p n,
        wake_check_gone env (record s { suspending = false; hibernating = false }) w c l a,
        f,
      )
      refl

-- Two messages from root, one before and one after a suspension, with nothing between them, reach a server that is not
-- suspending already, that can hibernate and has no Hibernate locker. Where the first write to the RTC alarm succeeds, the
-- alarm's file is empty at the end, so that it has gone off, and the hibernate command can be started: the alarm was set
-- to the present second plus the client's Hibernate time, the hibernate command was run once, no other effect comes with
-- these, and the system is neither suspending nor hibernating nor awaiting the alarm.
pub suspend_then_hibernate :
    (env env' : Env) (m m' : Message) (s : LockerServer)
    → uid_is m 0 ≡ true
    → attr_is "type" m msg_pre ≡ true
    → uid_is m' 0 ≡ true
    → attr_is "type" m' msg_pre ≡ false
    → attr_is "type" m' msg_post ≡ true
    → s.suspending ≡ false
    → can_hibernate s.ability ≡ true
    → lookup "hibernate" s.lockers ≡ none
    → env.alarm_write 0 ≡ none
    → env'.alarm_read ≡ some ""
    → env'.command_fails Command.hibernate ≡ false
    → let s' = (suspend env' m' (suspend env m s).1).1 in
      (s'.host.effects
        ≡ (s.host.effects ++ alarm_set (seconds s.host + s.ability.hibernate) ∷ [])
          ++ ran Command.hibernate ∷ [])
      × (s'.suspending ≡ false)
      × (s'.hibernating ≡ false)
      × (s'.wake_alarm ≡ false)
suspend_then_hibernate env env' m m' s u t u' t' p' n c l a a' f =
    rw
      (
        falls_asleep env m s u t n c l a,
        goes_on_to_hibernate env' m' (asleep s) u' t' p' refl refl c l a' f,
      )
      (refl, refl, refl, refl)

-- Where the lid switch cannot be opened, `setup_server` raises an `AttributeError`, and the displays are
-- not looked at: nothing but the path of the switch and the status file has changed.
setup_server_raises :
    (env : Env) (path : String) (s : LockerServer)
    → find_lid_switch env.input_events ≡ some path
    → str_eq path "" ≡ false
    → env.lid_open_fails ≡ true
    → setup_server env s ≡ (
      err attribute_error,
      record s { host = emit (status_written []) s.host; lid_path = some path; lid_open = false },
    )
unfolding setup_server setup_lid
setup_server_raises env path s f e o = rw f (rw (e, o) refl)
