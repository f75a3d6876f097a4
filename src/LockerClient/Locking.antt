-- ===== src/LockerClient/Locking.antt =====
-- usr/lib/smd/lib/modules/locker.py: when `LockerClient` locks the screen, when it switches the displays
-- off, and what becomes of its lock command.
use spaceport.Base.{
  ◌≡◌, refl, ◌∙◌, Bool, true, false, not, ◌&&◌, ◌||◌, none, some, [], if◌then◌else◌, is_some, arith,
}
use spaceport.Value.{Value, Fields, ok, any_text, is_null, truthy}
use spaceport.Util.Exec.{split}
use spaceport.Message.{Message, attr, attr_is}
use spaceport.Constants.{trigger_blank, trigger_lock, trigger_key}
use spaceport.Host.{displays_power}
use spaceport.Ability.{can_lock, can_blank}
use spaceport.LockerClient.State.{LockerClient, Env, is_locked}
use spaceport.LockerClient.Screen.{act_if, idle_init, start_process, lock}
use spaceport.LockerClient.Calls.{trigger, setup_idle, start_idle, clear}

-- A slot that both branches leave the same.
same-if {ℓ} :
    {A : Type ℓ} (f : LockerClient → A) (b : Bool) (x y : LockerClient) (a : A)
    → f x ≡ a
    → f y ≡ a
    → f (if b then x else y) ≡ a
same-if f true x y a h k = h
same-if f false x y a h k = k

idle_init-cmd : (env : Env) (s : LockerClient) → (idle_init env s).cmd ≡ s.cmd
unfolding idle_init
idle_init-cmd env s = search (same-if (λ x. x.cmd))

or_false : (a : Bool) → a || false ≡ true → a ≡ true
or_false true h = refl
or_false false h = h

refused :
    (a b c : Bool) (s x : LockerClient)
    → a || b || c ≡ true
    → (if a then s else if b && not false then s else if c && not false then s else x) ≡ s
refused true b c s x h = refl
refused false true c s x h = refl
refused false false true s x h = refl
refused false false false s x h = ground arith

-- The state once the lock screen's process runs.
abbrev begun : LockerClient → LockerClient
begun s = record s { lockscreen = some s.host.next; host = start_process s.cmd s.host }

lock_unforced :
    (env : Env) (s : LockerClient)
    → is_locked env s || not (can_lock s.ability) || any_text "lock" s.lockers ≡ true
    → lock env false s ≡ s
unfolding lock
lock_unforced env s h =
    refused (is_locked env s) (not (can_lock s.ability)) (any_text "lock" s.lockers) s _ h

-- The default command, once cleared, is gone: a client whose command was the default list itself, which is
-- what a value that is no command leads to, has no command after a reload that finds such a value again.
default_command_lost :
    (env : Env) (v : Value) (c : Fields) (s : LockerClient)
    → s.shared ≡ true
    → split env.shell v ≡ ok none
    → (setup_idle env (ok v, c) (clear s)).1.cmd ≡ []
unfolding setup_idle start_idle clear
default_command_lost env v c s h e = rw e (idle_init-cmd env _ ∙ rw h refl)

-- A request to blank the displays switches them off where the client may blank, no Blank locker is
-- known, no lock was just undone, and `swaymsg` works; otherwise it changes nothing.
blank_allowed :
    (env : Env) (m : Message) (s : LockerClient)
    → is_null (attr "type" m) ≡ true
    → attr_is "trigger" m trigger_blank ≡ true
    → trigger env m s
      ≡ act_if
          (can_blank s.ability
            && not (any_text "blank" s.lockers)
            && not (is_some s.backoff_blank)
            && not env.sway_fails)
          (displays_power false)
          s
unfolding trigger
blank_allowed env m s h e = ground arith

-- A request to lock that is not forced changes nothing while the screen is locked, where the client may
-- not lock, while a Lock locker is known, and for a while after a lock was undone.
lock_refused :
    (env : Env) (m : Message) (s : LockerClient)
    → attr_is "trigger" m trigger_blank ≡ false
    → attr_is "trigger" m trigger_key ≡ false
    → attr_is "trigger" m trigger_lock ≡ true
    → truthy (attr "force" m) ≡ false
    → (is_locked env s || not (can_lock s.ability) || any_text "lock" s.lockers)
        || is_some s.backoff_blank
      ≡ true
    → trigger env m s ≡ s
unfolding trigger
lock_refused env m s b k l f h =
    rw (b, k, l, f) (settle (is_null (attr "type" m)) (is_some s.backoff_blank) h)
  where
    settle :
        (n o : Bool)
        → (is_locked env s || not (can_lock s.ability) || any_text "lock" s.lockers) || o ≡ true
        → (if not n then s else if o && true && not false then s else lock env (false || false) s)
          ≡ s
    settle false o h = refl
    settle true true h = refl
    settle true false h = lock_unforced env s (or_false _ h)
