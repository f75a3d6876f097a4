-- ===== src/LockerServer/Timed.antt =====
-- usr/lib/smd/lib/modules/locker.py: a locker in the table has an end just where it has an event that closes it, until the
-- daemon stops.
use spaceport.Base.{
  ℕ, ◌≡◌, refl, String, Bool, true, false, not, ◌&&◌, Option, none, some, arith, inl, inr,
  Bool-cases, Option-cases, is_some,
}
use spaceport.Base.Int.{ℤ, is_positive, abs}
use spaceport.Base.Dict.{Dict, lookup, contains, insert, erase, lookup-insert, lookup-erase}
use spaceport.Value.{Value}
use spaceport.Host.{
  Host, Job, locker_close as close_job, backoff_clear, cancel_task, add_task, task_event,
  remove_task, due_task,
}
use spaceport.Ability.{Locker}
use spaceport.LockerServer.State.{LockerServer}
use spaceport.LockerServer.Table.{
  locker_close, locker_remove, new_locker, replace_locker, set_locker, add_named, locker_add,
  locker_name, locker_time, run_job, fire, same_time,
}
use spaceport.LockerServer.Keeps.{locker_remove-absent, locker_remove-present}
use spaceport.LockerServer.Power.{start_backoff}

-- While the daemon runs, a locker has an end just where it has an event.
abbrev pub Timed : Bool → Dict Locker → Type 0
Timed stopping ls =
    stopping ≡ false
    → (k : String) (l : Locker) → lookup k ls ≡ some l
    → is_some l.expire ≡ is_some l.event

abbrev pub IsTimed : LockerServer → Type 0
IsTimed s = Timed s.host.stopping s.lockers

stopping-cancel_task : (e : Option ℕ) (h : Host) → (cancel_task e h).stopping ≡ h.stopping
unfolding cancel_task
stopping-cancel_task none h = refl
stopping-cancel_task (some i) h = refl

stopping-add_task : (n : ℕ) (j : Job) (p : ℕ) (h : Host) → (add_task n j p h).stopping ≡ h.stopping
unfolding add_task
stopping-add_task n j p h = ground arith

Timed-erase : (k : String) (b : Bool) (ls : Dict Locker) → Timed b ls → Timed b (erase k ls)
Timed-erase k b ls t h j l p = ground (arith, lookup-erase k j ls, t h j l)

Timed-insert :
    (k : String) (x : Locker) (b : Bool) (ls : Dict Locker)
    → (b ≡ false → is_some x.expire ≡ is_some x.event)
    → Timed b ls
    → Timed b (insert k x ls)
Timed-insert k x b ls f t h j l p = ground (arith, lookup-insert k j x ls, t h j l, f h)

-- The scheduler is told to cancel an event.
cancelled :
    (e : Option ℕ) (h : Host) (ls : Dict Locker)
    → Timed h.stopping ls
    → Timed (cancel_task e h).stopping ls
cancelled e h ls t = rw (stopping-cancel_task e h) t

pub locker_remove-IsTimed :
    (k : String) (notify : Bool) (s : LockerServer) → IsTimed s → IsTimed (locker_remove k notify s)
unfolding locker_close
locker_remove-IsTimed k notify s t = elim (Option-cases (lookup k s.lockers)) [
  | inl e ↦ rw (locker_remove-absent k notify s e) t
  | inr (l, e) ↦
      rw (locker_remove-present k notify s l e)
        (cancelled l.event s.host (erase k s.lockers) (Timed-erase k s.host.stopping s.lockers t))
]

event_going : (h : Host) → h.stopping ≡ false → true ≡ is_some (task_event h)
event_going h e = ground arith

new_locker-IsTimed :
    (k : String) (e : Option ℕ) (s : LockerServer) → IsTimed s → IsTimed (new_locker k e s)
unfolding new_locker
new_locker-IsTimed k none s t = Timed-insert k _ s.host.stopping s.lockers (λ h. refl) t
new_locker-IsTimed k (some e) s t =
    rw (stopping-add_task e (close_job k) 5 s.host)
      (Timed-insert k _ s.host.stopping s.lockers (event_going s.host) t)

replace_locker-IsTimed :
    (k : String) (e : Option ℕ) (s : LockerServer) → IsTimed s → IsTimed (replace_locker k e s)
unfolding replace_locker
replace_locker-IsTimed k e s t = elim (Option-cases (lookup k s.lockers)) [
  | inl h ↦ rw (h, replace_locker) (new_locker-IsTimed k e s t)
  | inr (x, h) ↦ elim (Bool-cases (same_time e x.expire)) [
    | inl p ↦ rw (h, replace_locker) (rw p t)
    | inr p ↦
        rw (h, replace_locker)
          (rw p
            (new_locker-IsTimed k e (locker_remove k false s) (locker_remove-IsTimed k false s t)))
  ]
]

set_locker-IsTimed :
    (k : String) (z : Option ℤ) (s : LockerServer) → IsTimed s → IsTimed (set_locker k z s)
unfolding set_locker
set_locker-IsTimed k none s t = replace_locker-IsTimed k none s t
set_locker-IsTimed k (some z) s t = elim (Bool-cases (is_positive z)) [
  | inl p ↦ rw p (replace_locker-IsTimed k (some (abs z)) s t)
  | inr p ↦ rw p (locker_remove-IsTimed k true s t)
]

add_named-IsTimed :
    (k : String) (expires : Value) (force : Bool) (s : LockerServer)
    → IsTimed s
    → IsTimed (add_named k expires force s).1
unfolding add_named
add_named-IsTimed k expires force s t = elim (Bool-cases (contains k s.lockers && not force)) [
  | inl p ↦ rw p t
  | inr p ↦ elim (Option-cases (locker_time expires)) [
    | inl h ↦ rw (h, add_named) (rw p t)
    | inr (z, h) ↦ rw (h, add_named) (rw p (set_locker-IsTimed k z s t))
  ]
]

pub locker_add-IsTimed :
    (name expires : Value) (force : Bool) (s : LockerServer)
    → IsTimed s
    → IsTimed (locker_add name expires force s).1
unfolding locker_add
locker_add-IsTimed name expires force s t = elim (Option-cases (locker_name name).0) [
  | inl h ↦ rw (h, locker_add) (add_named-IsTimed (locker_name name).1 expires force s t)
  | inr (e, h) ↦ rw (h, locker_add) t
]

pub start_backoff-IsTimed : (s : LockerServer) → IsTimed s → IsTimed (start_backoff s)
unfolding start_backoff add_task
start_backoff-IsTimed s t = elim (Bool-cases s.host.stopping) [
  | inl b ↦ rw b (λ h. cc)
  | inr b ↦ rw b (rw b at t)
]

pub restart_backoff-IsTimed :
    (s : LockerServer)
    → IsTimed s
    → IsTimed (start_backoff (record s { host = cancel_task s.backoff s.host }))
restart_backoff-IsTimed s t =
    start_backoff-IsTimed (record s { host = cancel_task s.backoff s.host })
      (cancelled s.backoff s.host s.lockers t)

run_job-IsTimed : (j : Job) (i : ℕ) (s : LockerServer) → IsTimed s → IsTimed (run_job j i s)
unfolding run_job locker_close
run_job-IsTimed (close_job k) i s t =
    cancelled (some i) s.host (erase k s.lockers) (Timed-erase k s.host.stopping s.lockers t)
run_job-IsTimed backoff_clear i s t = t
run_job-IsTimed _ i s t = t

pub fire-IsTimed : (s : LockerServer) → IsTimed s → IsTimed (fire s)
unfolding fire
fire-IsTimed s t = elim (Option-cases (due_task s.host)) [
  | inl h ↦ rw (h, fire) t
  | inr (u, h) ↦
      rw (h, fire)
        (run_job-IsTimed u.job u.id
          (record s { host = record s.host { queue = remove_task u.id s.host.queue } }) t)
]
