-- ===== src/Session/Thaw.antt =====
-- usr/lib/smd/lib/modules/session.py: what `Session` leaves frozen, and how often a change of the power runs its commands.
use spaceport.Base.{
  ℕ, ◌≡◌, refl, ap, ◌∙◌, String, Bool, true, false, not, ◌&&◌, ◌||◌, Option, none, some, List, [],
  ◌∷◌, ◌++◌, ◌==◌, if◌then◌else◌, if_false, arith,
}
use spaceport.Message.{Message, attr, attr_is}
use spaceport.Constants.{msg_pre, msg_post}
use spaceport.Session.{
  may_freeze_all, freeze_windows, Target, group, process, Signal, stop_signal, continue_signal,
  Window, Env, Session, targets, signal_all, freeze, run_profile, lock,
}

-- Does a signal for a target reach a process? One for a group reaches each process of the group.
abbrev pub reaches : Env → ℕ → Target → Bool
reaches env p (group g) = elim (env.group_of p) [ none ↦ false | some h ↦ h == g ]
reaches env p (process q) = q == p

-- Is a process frozen after these signals, where it was before as the last argument says?
unfoldable pub frozen_after : Env → ℕ → List Signal → Bool → Bool
frozen_after env p [] b = b
frozen_after env p (stop_signal u ∷ l) b = frozen_after env p l (reaches env p u || b)
frozen_after env p (continue_signal u ∷ l) b = frozen_after env p l (not (reaches env p u) && b)

-- Is a process frozen by the signals of a session?
abbrev pub frozen : Env → ℕ → Session → Bool
frozen env p s = frozen_after env p s.signals false

abbrev pub reached : Env → ℕ → List Target → Bool
reached env p [] = false
reached env p (u ∷ us) = reaches env p u || reached env p us

module _ (env : Env) (p : ℕ) where
  frozen_after-append :
      (l r : List Signal) (b : Bool)
      → frozen_after env p (l ++ r) b ≡ frozen_after env p r (frozen_after env p l b)
  unfolding frozen_after
  frozen_after-append [] r b = refl
  frozen_after-append (stop_signal u ∷ l) r b = frozen_after-append l r (reaches env p u || b)
  frozen_after-append (continue_signal u ∷ l) r b =
      frozen_after-append l r (not (reaches env p u) && b)

  stops_all :
      (ts : List Target) (b : Bool)
      → frozen_after env p (signal_all true ts) b ≡ (reached env p ts || b)
  unfolding frozen_after
  stops_all [] b = refl
  stops_all (u ∷ us) b = ground (arith, stops_all us (reaches env p u || b))

  continues_all :
      (ts : List Target) (b : Bool)
      → frozen_after env p (signal_all false ts) b ≡ (not (reached env p ts) && b)
  unfolding frozen_after
  continues_all [] b = refl
  continues_all (u ∷ us) b = ground (arith, continues_all us (not (reaches env p u) && b))

module _ (env : Env) (s : Session) (ws : List Window) where
  -- The session with the signals that freeze the windows, or thaw them
  abbrev signalled : Bool → Session
  signalled pre = record s { signals = s.signals ++ signal_all pre (targets env s.ignore ws) }

  freeze_lem :
      (pre : Bool) → s.can_freeze ≡ true → env.windows ≡ some ws → freeze env pre s ≡ signalled pre
  unfolding freeze freeze_windows
  freeze_lem pre c w =
      if_false (not s.can_freeze) s (freeze_windows env pre env.windows s) (ap not c)
      ∙ ap (λ (o : Option (List Window)). freeze_windows env pre o s) w

  -- What the message before a lock does to the signals
  before_lock :
      (m : Message)
      → attr_is "type" m msg_pre ≡ true
      → s.can_freeze ≡ true
      → env.windows ≡ some ws
      → lock env m s
        ≡ run_profile env "lock_pre"
            (if may_freeze_all (attr "lockers" m) then signalled true else s)
  unfolding lock
  before_lock m p c w = rw p (rw (freeze_lem true c w) refl)

  after_lock :
      (m : Message)
      → attr_is "type" m msg_pre ≡ false
      → attr_is "type" m msg_post ≡ true
      → s.can_freeze ≡ true
      → env.windows ≡ some ws
      → lock env m s ≡ run_profile env "lock_post" (signalled false)
  unfolding lock
  after_lock m p q c w = rw (p, q) (rw (freeze_lem false c w) refl)

  thawed :
      (p : ℕ) (b : Bool)
      → frozen env p (record s {
        signals =
            (if b then signalled true else s).signals ++ signal_all false (targets env s.ignore ws);
      })
        ≡ (if reached env p (targets env s.ignore ws) then false else frozen env p s)
  thawed p b =
      let ts : List Target = targets env s.ignore ws in
      ground (
        arith,
        frozen_after-append env p (if b then signalled true else s).signals (signal_all false ts)
            false,
        frozen_after-append env p s.signals (signal_all true ts) false,
        continues_all env p ts (frozen_after env p (if b then signalled true else s).signals false),
        stops_all env p ts (frozen env p s),
      )

module _ (env : Env) (pre post : Message) (s : Session) (ws : List Window) where
  -- The session before the second message, where windows may be frozen
  locked : Bool → Session
  locked b = run_profile env "lock_pre" (if b then signalled env s ws true else s)

  unlocked_frozen :
      (p : ℕ) (b : Bool)
      → frozen env p (run_profile env "lock_post" (signalled env (locked b) ws false))
        ≡ (if reached env p (targets env s.ignore ws) then false else frozen env p s)
  unfolding locked run_profile
  unlocked_frozen p true = thawed env s ws p true
  unlocked_frozen p false = thawed env s ws p false

  locked-can_freeze : (b : Bool) → (locked b).can_freeze ≡ s.can_freeze
  unfolding locked run_profile
  locked-can_freeze true = refl
  locked-can_freeze false = refl

  -- Where freezing is enabled, and the windows, the groups of processes and what can be signalled are the same before and
  -- after the lock: once a lock that begins with one message ends with the other, no process that a signal for a window
  -- reaches is frozen, be it the window's own or another of its group, whether the windows were frozen at the beginning
  -- or a Freeze locker kept them running; and every other process is as it was before, frozen or not.
  pub lock_thaws :
      (p : ℕ)
      → attr_is "type" pre msg_pre ≡ true
      → attr_is "type" post msg_pre ≡ false
      → attr_is "type" post msg_post ≡ true
      → s.can_freeze ≡ true
      → env.windows ≡ some ws
      → frozen env p (lock env post (lock env pre s))
        ≡ (if reached env p (targets env s.ignore ws) then false else frozen env p s)
  unfolding locked
  lock_thaws p begins ends still c w =
      let b : Bool = may_freeze_all (attr "lockers" pre) in
      ap (λ (u : Session). frozen env p (lock env post u)) (before_lock env s ws pre begins c w)
      ∙ ap (frozen env p) (after_lock env (locked b) ws post ends still (locked-can_freeze b ∙ c) w)
      ∙ unlocked_frozen p b

module _ (env : Env) where
  module _ (ac : Bool) (name : String) (s : Session) where
    changed : Session
    changed = run_profile env name (record s { last_ac = some ac })
