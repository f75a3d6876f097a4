-- ===== src/Session.antt =====
-- usr/lib/smd/lib/modules/session.py: `Session`, which runs commands at certain events and freezes the windows while the screen is
-- locked. The values of the configuration, the windows and what the system does with signals and commands are arguments.
pub mod Thaw
use spaceport.Base.{
  ℕ, String, Bool, true, false, not, ◌&&◌, ◌||◌, Option, none, some, List, [], ◌∷◌, ◌++◌, ◌==◌, any,
  codes, if◌then◌else◌, str_eq,
}
use Prim.Native.String.{◌++◌ as str_append}
use spaceport.Base.Dict.{Dict, lookup, insert}
use spaceport.Value.{
  Value, null, boolean, number, float, text, arr, dict, Fields, end, Items, nil, Result, ok, err,
  Exn, type_error, any_text, starts_with, is_substring, get_field, truthy,
}
use spaceport.Util.{a2z, to_bool}
use spaceport.Util.Exec.{Shell, split_all}
use spaceport.Message.{Message, attr, attr_is}
use spaceport.Constants.{
  hook_power, hook_display, hook_suspend, hook_hibernate, hook_radio, hook_shutdown, msg_pre,
  msg_post, msg_action,
}

-- Who gets a signal: a process group, or a process.
pub data Target : Type 0 where
  group process : ℕ → Target

-- SIGSTOP and SIGCONT
pub data Signal : Type 0 where
  stop_signal continue_signal : Target → Signal

pub record Window : Type 0 where
  pub pid : ℕ
  pub app : String

-- What the system answers: the group of a process, which groups and processes can be signalled, the windows, and which
-- commands can be started.
pub record Env : Type 0 where
  pub group_of : ℕ → Option ℕ
  pub kills_group : ℕ → Bool
  pub kills : ℕ → Bool
  pub windows : Option (List Window)
  pub starts : List String → Bool

-- What `setup` reads: `session.freeze.enabled`, the texts of `session.freeze.ignore` as `expand` and `lower` give them,
-- `trigger.` with a name, and the processes that the startup commands give, none where one cannot be started.
pub record Config : Type 0 where
  pub freeze : Value
  pub ignored : List String
  pub trigger : String → Value
  pub startups : List (Option ℕ)

-- The slots, the signals that were sent, the commands that were started and the processes that were stopped, in order.
pub record Session : Type 0 where
  pub ignore : List String
  pub last_ac : Option Bool
  pub startup : List ℕ
  pub profiles : Dict (Option (List (List String)))
  pub can_freeze : Bool
  pub signals : List Signal
  pub commands : List (List String)
  pub stopped : List ℕ

-- `_trigger(server, name)` of the module for a value of the configuration
unfoldable pub trigger_value : Shell → Value → Result (Option (List (List String)))
trigger_value sh null = ok none
trigger_value sh (boolean _) = err type_error
trigger_value sh (number _) = err type_error
trigger_value sh (float _ _ _) = err type_error
trigger_value sh v = elim (split_all sh v) [
  | err e ↦ err e
  | ok none ↦ ok none
  | ok (some []) ↦ ok none
  | ok (some (c ∷ cs)) ↦ ok (some (c ∷ cs))
]

-- `_signal_group(pid, sig)`: who gets the signal, or none where it raises.
unfoldable pub signal_target : Env → ℕ → Option Target
signal_target env pid =
    let alone = if env.kills pid then some (process pid) else none in
    elim (env.group_of pid) [
      | none ↦ alone
      | some g ↦ if not (g == 0) && env.kills_group g then some (group g) else alone
    ]

-- `_can_freeze(ignore, window)`
unfoldable pub may_freeze : List String → Window → Bool
may_freeze ignore w =
    if starts_with (codes "i3lock") (codes w.app) || starts_with (codes "swaylock") (codes w.app)
    then false
    else not (any (λ i. is_substring (codes i) (codes w.app)) ignore)

-- The windows of which `_freeze` signals the processes
unfoldable pub targets : Env → List String → List Window → List Target
targets env ignore [] = []
targets env ignore (w ∷ ws) =
    let rest = targets env ignore ws in
    if may_freeze ignore w
    then elim (signal_target env w.pid) [ none ↦ rest | some t ↦ t ∷ rest ]
    else rest

abbrev pub signal_all : Bool → List Target → List Signal
signal_all pre [] = []
signal_all pre (t ∷ ts) = (if pre then stop_signal t else continue_signal t) ∷ signal_all pre ts

-- `_freeze(server, pre)` where it is enabled, for the windows, if there is an answer
unfoldable pub freeze_windows : Env → Bool → Option (List Window) → Session → Session
freeze_windows env pre none s = s
freeze_windows env pre (some ws) s = record s {
  signals = s.signals ++ signal_all pre (targets env s.ignore ws);
}

-- `_freeze(server, pre)`
unfoldable pub freeze : Env → Bool → Session → Session
freeze env pre s = if not s.can_freeze then s else freeze_windows env pre env.windows s

-- The commands of a profile that can be started
unfoldable pub started : Env → List (List String) → List (List String)
started env [] = []
started env (c ∷ cs) = let rest = started env cs in if env.starts c then c ∷ rest else rest

-- The commands that were started, once those of a profile were, if it has some
abbrev pub commands_after :
    Env → Option (Option (List (List String))) → List (List String) → List (List String)
commands_after env (some (some cs)) before = before ++ started env cs
commands_after env _ before = before

-- `_trigger(server, name)` of the session
unfoldable pub run_profile : Env → String → Session → Session
run_profile env name s = record s {
  commands = commands_after env (lookup name s.profiles) s.commands;
}

-- Is no Freeze locker known?
abbrev pub may_freeze_all : Value → Bool
may_freeze_all (arr vs) = not (any_text "freeze" vs)
may_freeze_all _ = true

-- `lock(server, message)`
unfoldable pub lock : Env → Message → Session → Session
lock env m s =
    if attr_is "type" m msg_pre
    then run_profile env "lock_pre"
        (if may_freeze_all (attr "lockers" m) then freeze env true s else s)
    else if attr_is "type" m msg_post
    then run_profile env "lock_post" (freeze env false s)
    else s

abbrev pub radio_names : List String
radio_names = "bluetooth" ∷ "wireless" ∷ []

abbrev pub radio_profiles : List String → List (String × String)
radio_profiles [] = []
radio_profiles (r ∷ rs) =
    let rest = radio_profiles rs in
    if a2z (text r)
    then (str_append r "_enable", str_append r ".enable")
      ∷ (str_append r "_disable", str_append r ".disable")
      ∷ rest
    else rest

-- The names of the profiles, and the names of their values
abbrev pub profile_names : List (String × String)
profile_names =
    ("display", "display")
    ∷ ("power_ac", "power.ac")
    ∷ ("power_battery", "power.battery")
    ∷ ("lock_pre", "lock.pre")
    ∷ ("lock_post", "lock.post")
    ∷ ("suspend_pre", "suspend.pre")
    ∷ ("suspend_post", "suspend.post")
    ∷ ("hibernate_pre", "hibernate.pre")
    ∷ ("hibernate_post", "hibernate.post")
    ∷ radio_profiles radio_names

-- A value that cannot be read raises, and the profiles after it are not set.
unfoldable pub set_profiles :
    Shell → Config → List (String × String) → Session → Option Exn × Session
set_profiles sh c [] s = (none, s)
set_profiles sh c ((key, name) ∷ rest) s = elim (trigger_value sh (c.trigger name)) [
  | err e ↦ (some e, s)
  | ok v ↦ set_profiles sh c rest (record s { profiles = insert key v s.profiles })
]

abbrev pub processes : List (Option ℕ) → List ℕ
processes [] = []
processes (none ∷ ps) = processes ps
processes (some p ∷ ps) = p ∷ processes ps

abbrev pub with_startups : Config → Option Exn × Session → Option Exn × Session
with_startups c (some e, s) = (some e, s)
with_startups c (none, s) = (none, record s { startup = s.startup ++ processes c.startups })

-- `setup(server)`
unfoldable pub setup : Shell → Config → Session → Option Exn × Session
setup sh c s = elim (to_bool c.freeze true) [
  | err e ↦ (some e, s)
  | ok b ↦ with_startups c (
      set_profiles sh c profile_names
        (record s { can_freeze = b; ignore = if b then s.ignore ++ c.ignored else s.ignore }))
]

-- `reload(server, message)`
unfoldable pub reload : Shell → Config → Message → Session → Option Exn × Session
reload sh c m s =
    let s' = record s {
      last_ac = none;
      ignore = [];
      profiles = [];
      stopped = s.stopped ++ s.startup;
      startup = [];
    } in
    if m.header == hook_shutdown then (none, s') else setup sh c s'

-- Is the power already known to be as it is told?
abbrev pub known_power : Bool → Option Bool → Bool
known_power ac none = false
known_power ac (some b) = if ac then b else not b

-- A change of the power, which runs a profile where it is one
unfoldable pub power : Env → Bool → String → Session → Session
power env ac name s =
    if known_power ac s.last_ac then s else run_profile env name (record s { last_ac = some ac })

abbrev pub phase : Message → String → String → String
phase m before after = if attr_is "type" m msg_pre then before else after

-- `message.get("enabled", True)`
abbrev pub is_enabled : Message → Bool
is_enabled m = elim (get_field "enabled" m.payload) [ none ↦ true | some v ↦ truthy v ]

abbrev pub radio_profile : Value → Bool → String
radio_profile (text r) on = str_append r (if on then "_enable" else "_disable")
radio_profile _ on = ""

-- `trigger(server, message)`
unfoldable pub trigger : Env → Message → Session → Session
trigger env m s =
    if m.header == hook_power && attr_is "type" m msg_pre
    then power env false "power_battery" s
    else if m.header == hook_power && attr_is "type" m msg_post
    then power env true "power_ac" s
    else if m.header == hook_display
    then run_profile env "display" s
    else if m.header == hook_suspend
    then run_profile env (phase m "suspend_pre" "suspend_post") s
    else if m.header == hook_hibernate
    then run_profile env (phase m "hibernate_pre" "hibernate_post") s
    else if not (m.header == hook_radio) || not (attr_is "type" m msg_action)
    then s
    else if not (a2z (attr "radio" m))
    then s
    else run_profile env (radio_profile (attr "radio" m) (is_enabled m)) s
