-- ===== src/Hydra/Server/Suspend.antt =====
-- usr/lib/smd/lib/modules/hydra.py: the machines when the system goes to sleep.
use spaceport.Base.{
  ℕ, ◌≡◌, refl, sym, ap, ◌∙◌, true, false, not, ◌&&◌, [], ◌∷◌, if◌then◌else◌, if_true, if_false,
  arith, inl, inr, Bool-cases,
}
use spaceport.Base.Table.{Table, map_values}
use spaceport.Message.{Message, attr_is}
use spaceport.Constants.{msg_pre}
use spaceport.Hydra.State.{
  State, done, failed, stopped, waiting, running, sleeping, Vm, Ended, returned, error,
}
use spaceport.Hydra.Machine.{is_sleeping, is_active, sleep}
use spaceport.Hydra.Server.{Hydra, suspend_each, suspended_on, hibernate_all}

-- A machine as it is once the system may sleep: one that runs has had its process stopped.
unfoldable pub put_to_sleep : ℕ → Vm → Vm
put_to_sleep k v = if is_active v.state then record v { state = sleeping; frozen = true } else v

-- Each machine that runs has a process.
abbrev pub Present : Table Vm → Type 0
Present [] = Unit {0}
Present ((_, v) ∷ d) = ((is_active v.state && not v.has_proc) ≡ false) × Present d

sleeping_only : (st : State) → is_sleeping st ≡ true → is_active st ≡ false
sleeping_only sleeping h = refl
sleeping_only done h = refl
sleeping_only failed h = refl
sleeping_only stopped h = refl
sleeping_only waiting h = refl
sleeping_only running h = cc

module _ (v : Vm) where
  asleep : Vm
  asleep = record v { state = sleeping; frozen = true }

  put_active : (k : ℕ) → is_active v.state ≡ true → put_to_sleep k v ≡ asleep
  unfolding put_to_sleep asleep
  put_active k h = if_true (is_active v.state) (record v { state = sleeping; frozen = true }) v h

  put_other : (k : ℕ) → is_active v.state ≡ false → put_to_sleep k v ≡ v
  unfolding put_to_sleep
  put_other k h = if_false (is_active v.state) (record v { state = sleeping; frozen = true }) v h

  sleep_active :
      is_sleeping v.state ≡ false
      → is_active v.state ≡ true
      → v.has_proc ≡ true
      → sleep true v ≡ (returned, asleep)
  unfolding sleep asleep
  sleep_active s a p = ground (arith, s, a, p)

  sleep_other :
      is_sleeping v.state ≡ false
      → is_active v.state ≡ false
      → sleep true v ≡ (error "not able to sleep", v)
  unfolding sleep
  sleep_other s a = ground (arith, s, a)

  -- A turn of the loop, where those after it have gone well
  turn : ℕ → Table Vm → Ended × Table Vm → Ended × Table Vm
  turn k d rest =
      if is_sleeping v.state
      then (rest.0, (k, v) ∷ rest.1)
      else suspended_on k d rest (sleep true v)

  turn_lem :
      (k : ℕ) (d e : Table Vm)
      → (is_active v.state && not v.has_proc) ≡ false
      → turn k d (returned, e) ≡ (returned, (k, put_to_sleep k v) ∷ e)
  unfolding turn
  turn_lem k d e p = elim (Bool-cases (is_sleeping v.state)) [
    | inl s ↦
        if_true (is_sleeping v.state) (returned, (k, v) ∷ e)
          (suspended_on k d (returned, e) (sleep true v)) s
        ∙ ap (λ (w : Vm). (returned, (k, w) ∷ e)) (sym (put_other k (sleeping_only v.state s)))
    | inr s ↦
        if_false (is_sleeping v.state) (returned, (k, v) ∷ e)
          (suspended_on k d (returned, e) (sleep true v)) s
        ∙ elim (Bool-cases (is_active v.state)) [
          | inl a ↦
              ap (suspended_on k d (returned, e)) (sleep_active s a (ground (arith, p, a)))
              ∙ ap (λ (w : Vm). (returned, (k, w) ∷ e)) (sym (put_active k a))
          | inr a ↦
              ap (suspended_on k d (returned, e)) (sleep_other s a)
              ∙ ap (λ (w : Vm). (returned, (k, w) ∷ e)) (sym (put_other k a))
        ]
  ]

suspend_each_lem :
    (d : Table Vm) → Present d → suspend_each d ≡ (returned, map_values put_to_sleep d)
unfolding suspend_each turn
suspend_each_lem [] p = refl
suspend_each_lem ((k, v) ∷ d) (p, q) =
    ap (turn v k d) (suspend_each_lem d q) ∙ turn_lem v k d (map_values put_to_sleep d) p

-- Before the system sleeps, each machine that runs, and has its process, is suspended with it, every other one stays as it
-- is, and no exception is raised.
pub machines_sleep :
    (m : Message) (h : Hydra)
    → attr_is "type" m msg_pre ≡ true
    → Present h.vms
    → hibernate_all m h ≡ (returned, record h { vms = map_values put_to_sleep h.vms })
unfolding hibernate_all
machines_sleep m h t p =
    if_false (not (attr_is "type" m msg_pre)) (returned, h)
      ((suspend_each h.vms).0, record h { vms = (suspend_each h.vms).1 }) (ap not t)
    ∙ ap (λ (r : Ended × Table Vm). (r.0, record h { vms = r.1 })) (suspend_each_lem h.vms p)
