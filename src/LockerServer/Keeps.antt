-- ===== src/LockerServer/Keeps.antt =====
-- usr/lib/smd/lib/modules/locker.py: the operations of `LockerServer` on the table of lockers, the backoff
-- and the scheduler, and what LockerServer/Sync.antt asks of these.
use spaceport.Base.{
  ℕ, ◌≡◌, refl, String, Bool, true, false, not, ◌&&◌, Option, none, some, List, [], ◌∷◌, arith, inl,
  inr, Bool-cases, Option-cases, if◌then◌else◌, str_eq_self,
}
use spaceport.Base.Int.{ℤ, is_positive, abs}
use spaceport.Base.Dict.{Dict, lookup, contains, erase, lookup-erase_self, erase_absent}
use spaceport.Value.{Value}
use spaceport.Host.{
  Host, Task, Job, locker_close as close_job, backoff_clear, cancel_task, add_task, remove_task,
  due_task,
}
use spaceport.Host.Queue.{job_of, due_task_job}
use spaceport.Ability.{Locker}
use spaceport.LockerServer.State.{LockerServer}
use spaceport.LockerServer.Table.{
  locker_close, locker_remove, new_locker, replace_locker, set_locker, add_named, locker_add,
  locker_name, locker_time, close_all, run_job, fire, same_time,
}
use spaceport.LockerServer.Sync.{
  Sync, event_of, cancel, Sync-erase, Sync-insert, Sync-insert_timed, Sync-backoff, Sync-no_backoff,
  Sync-other,
}
use spaceport.LockerServer.Power.{start_backoff}

abbrev pub IsSynced : LockerServer → Type 0
IsSynced s = Sync s.lockers s.backoff s.host.next s.host.queue

pub queue-cancel_task :
    (e : Option ℕ) (h : Host)
    → ((cancel_task e h).queue ≡ cancel e h.queue) × ((cancel_task e h).next ≡ h.next)
unfolding cancel_task
queue-cancel_task none h = (refl, refl)
queue-cancel_task (some i) h = (refl, refl)

event_of-absent : (k : String) (ls : Dict Locker) → lookup k ls ≡ none → event_of k ls ≡ none
event_of-absent k ls h = ground arith

event_of-present :
    (k : String) (l : Locker) (ls : Dict Locker) → lookup k ls ≡ some l → event_of k ls ≡ l.event
event_of-present k l ls h = ground arith

pub locker_remove-absent :
    (k : String) (notify : Bool) (s : LockerServer)
    → lookup k s.lockers ≡ none
    → locker_remove k notify s ≡ s
unfolding locker_remove
locker_remove-absent k notify s h = ground arith

pub locker_remove-present :
    (k : String) (notify : Bool) (s : LockerServer) (l : Locker)
    → lookup k s.lockers ≡ some l
    → locker_remove k notify s
      ≡ locker_close l notify false (record s { lockers = erase k s.lockers })
unfolding locker_remove
locker_remove-present k notify s l h = ground arith

-- A locker that is closed, as the table stands without it.
closed-IsSynced :
    (k : String) (l : Locker) (notify : Bool) (s : LockerServer)
    → event_of k s.lockers ≡ l.event
    → IsSynced s
    → IsSynced (locker_close l notify false (record s { lockers = erase k s.lockers }))
unfolding locker_close
closed-IsSynced k l notify s h y =
    rw ((queue-cancel_task l.event s.host).0, (queue-cancel_task l.event s.host).1)
      (Sync-erase s.lockers s.backoff s.host.next s.host.queue y k l.event h)

-- `locker_remove` keeps the table and the scheduler in step.
pub locker_remove-IsSynced :
    (k : String) (notify : Bool) (s : LockerServer)
    → IsSynced s
    → IsSynced (locker_remove k notify s)
locker_remove-IsSynced k notify s y = elim (Option-cases (lookup k s.lockers)) [
  | inl e ↦ rw (locker_remove-absent k notify s e) y
  | inr (l, e) ↦
      rw (locker_remove-present k notify s l e)
        (closed-IsSynced k l notify s (event_of-present k l s.lockers e) y)
]

pub lookup-locker_remove :
    (k : String) (notify : Bool) (s : LockerServer)
    → lookup k (locker_remove k notify s).lockers ≡ none
unfolding locker_close
lookup-locker_remove k notify s = elim (Option-cases (lookup k s.lockers)) [
  | inl e ↦ rw (locker_remove-absent k notify s e) e
  | inr (l, e) ↦ rw (locker_remove-present k notify s l e) (lookup-erase_self k s.lockers)
]

new_locker-IsSynced :
    (k : String) (e : Option ℕ) (s : LockerServer)
    → event_of k s.lockers ≡ none
    → IsSynced s
    → IsSynced (new_locker k e s)
unfolding new_locker add_task
new_locker-IsSynced k none s h y =
    Sync-insert s.lockers s.backoff s.host.next s.host.queue y k none h
new_locker-IsSynced k (some e) s h y = elim (Bool-cases s.host.stopping) [
  | inl stopping ↦ rw stopping (Sync-insert s.lockers s.backoff s.host.next s.host.queue y k _ h)
  | inr going ↦
      rw going (Sync-insert_timed s.lockers s.backoff s.host.next s.host.queue y k _ _ _ h)
]

replace_locker-new :
    (k : String) (e : Option ℕ) (s : LockerServer)
    → lookup k s.lockers ≡ none
    → IsSynced (new_locker k e s)
    → IsSynced (replace_locker k e s)
unfolding replace_locker
replace_locker-new k e s h y = rw (h, replace_locker) y

replace_locker-old :
    (k : String) (e : Option ℕ) (s : LockerServer) (x : Locker)
    → lookup k s.lockers ≡ some x
    → IsSynced s
    → IsSynced (new_locker k e (locker_remove k false s))
    → IsSynced (replace_locker k e s)
unfolding replace_locker
replace_locker-old k e s x h same y = elim (Bool-cases (same_time e x.expire)) [
  | inl p ↦ rw (h, replace_locker) (rw p same)
  | inr p ↦ rw (h, replace_locker) (rw p y)
]

replace_locker-IsSynced :
    (k : String) (e : Option ℕ) (s : LockerServer) → IsSynced s → IsSynced (replace_locker k e s)
replace_locker-IsSynced k e s y = elim (Option-cases (lookup k s.lockers)) [
  | inl h ↦ replace_locker-new k e s h (new_locker-IsSynced k e s (event_of-absent k s.lockers h) y)
  | inr (x, h) ↦ replace_locker-old k e s x h y (
      new_locker-IsSynced k e (locker_remove k false s)
        (event_of-absent k (locker_remove k false s).lockers (lookup-locker_remove k false s))
        (locker_remove-IsSynced k false s y))
]

set_locker-IsSynced :
    (k : String) (t : Option ℤ) (s : LockerServer) → IsSynced s → IsSynced (set_locker k t s)
unfolding set_locker
set_locker-IsSynced k none s y = replace_locker-IsSynced k none s y
set_locker-IsSynced k (some z) s y = elim (Bool-cases (is_positive z)) [
  | inl p ↦ rw p (replace_locker-IsSynced k (some (abs z)) s y)
  | inr p ↦ rw p (locker_remove-IsSynced k true s y)
]

add_named-IsSynced :
    (k : String) (expires : Value) (force : Bool) (s : LockerServer)
    → IsSynced s
    → IsSynced (add_named k expires force s).1
unfolding add_named
add_named-IsSynced k expires force s y = elim (Bool-cases (contains k s.lockers && not force)) [
  | inl p ↦ rw p y
  | inr p ↦ elim (Option-cases (locker_time expires)) [
    | inl h ↦ rw (h, add_named) (rw p y)
    | inr (t, h) ↦ rw (h, add_named) (rw p (set_locker-IsSynced k t s y))
  ]
]

-- `locker_add` keeps the table and the scheduler in step, whatever it is asked for.
pub locker_add-IsSynced :
    (name expires : Value) (force : Bool) (s : LockerServer)
    → IsSynced s
    → IsSynced (locker_add name expires force s).1
unfolding locker_add
locker_add-IsSynced name expires force s y = elim (Option-cases (locker_name name).0) [
  | inl h ↦ rw (h, locker_add) (add_named-IsSynced (locker_name name).1 expires force s y)
  | inr (e, h) ↦ rw (h, locker_add) y
]

erase_head :
    (k : String) (l : Locker) (ls : Dict Locker) → lookup k ls ≡ none → erase k ((k, l) ∷ ls) ≡ ls
erase_head k l ls h = ground (arith, str_eq_self k, erase_absent k ls)

event_of_head : (k : String) (l : Locker) (ls : Dict Locker) → event_of k ((k, l) ∷ ls) ≡ l.event
event_of_head k l ls = ground (arith, str_eq_self k)

-- The loop of `reload`, after which the table is emptied: every locker's task is cancelled.
pub close_all-Sync :
    (ls : Dict Locker) (s : LockerServer)
    → Sync ls s.backoff s.host.next s.host.queue
    → Sync [] (close_all ls s).backoff (close_all ls s).host.next (close_all ls s).host.queue
unfolding close_all locker_close
close_all-Sync [] s y = y
close_all-Sync ((k, l) ∷ ls) s y = close_all-Sync ls (locker_close l false false s) (
    rw ((queue-cancel_task l.event s.host).0, (queue-cancel_task l.event s.host).1)
      (rw (erase_head k l ls y.distinct.0) at (
        Sync-erase ((k, l) ∷ ls) s.backoff s.host.next s.host.queue y k l.event
          (event_of_head k l ls))))

-- The event that has fired is no longer in the queue, and to cancel it does nothing.
remove_task_twice : (i : ℕ) (q : List Task) → remove_task i (remove_task i q) ≡ remove_task i q
remove_task_twice i [] = refl
remove_task_twice i (t ∷ q) = ground (arith, remove_task_twice i q)

-- The state once the event i has left the queue.
abbrev taken : ℕ → LockerServer → LockerServer
taken i s = record s { host = record s.host { queue = remove_task i s.host.queue } }

run_job-IsSynced :
    (j : Job) (i : ℕ) (s : LockerServer)
    → job_of i s.host.queue ≡ some j
    → IsSynced s
    → IsSynced (run_job j i (taken i s))
unfolding run_job locker_close
run_job-IsSynced (close_job k) i s h y =
    rw
      (
        (queue-cancel_task (some i) (taken i s).host).0,
        (queue-cancel_task (some i) (taken i s).host).1,
        remove_task_twice i s.host.queue,
      )
      (Sync-erase s.lockers s.backoff s.host.next s.host.queue y k (some i) (y.owned i k h))
run_job-IsSynced backoff_clear i s h y =
    Sync-no_backoff s.lockers s.backoff s.host.next s.host.queue y (some i) (y.waiting i h)
run_job-IsSynced j i s h y =
    Sync-other s.lockers s.backoff s.host.next s.host.queue y i (λ k e. cc) (λ e. cc)

-- An event of the scheduler keeps everything in step.
pub fire-IsSynced : (s : LockerServer) → IsSynced s → IsSynced (fire s)
unfolding fire
fire-IsSynced s y = elim (Option-cases (due_task s.host)) [
  | inl h ↦ rw (h, fire) y
  | inr (t, h) ↦ rw (h, fire) (run_job-IsSynced t.job t.id s (due_task_job s.host t y.unique h) y)
]

-- The backoff starts, where there is none.
start_backoff-IsSynced :
    (s : LockerServer) → s.backoff ≡ none → IsSynced s → IsSynced (start_backoff s)
unfolding start_backoff add_task
start_backoff-IsSynced s h y = elim (Bool-cases s.host.stopping) [
  | inl stopping ↦ rw stopping (rw h at y)
  | inr going ↦ rw going (Sync-backoff s.lockers s.backoff s.host.next s.host.queue y _ _ h)
]

-- The backoff starts anew: the old one is cancelled first.
pub restart_backoff-IsSynced :
    (s : LockerServer)
    → IsSynced s
    → IsSynced (start_backoff (record s { host = cancel_task s.backoff s.host }))
unfolding start_backoff
restart_backoff-IsSynced s y =
    start_backoff-IsSynced (record s { host = cancel_task s.backoff s.host; backoff = none }) refl
      (rw ((queue-cancel_task s.backoff s.host).0, (queue-cancel_task s.backoff s.host).1)
        (Sync-no_backoff s.lockers s.backoff s.host.next s.host.queue y s.backoff refl))

-- `screen` starts the backoff only where there is none.
pub backoff_if-IsSynced :
    (close : Bool) (s : LockerServer)
    → s.backoff ≡ none
    → IsSynced s
    → IsSynced (if close then start_backoff s else s)
backoff_if-IsSynced true s h y = start_backoff-IsSynced s h y
backoff_if-IsSynced false s h y = y
