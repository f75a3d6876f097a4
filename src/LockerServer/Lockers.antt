-- ===== src/LockerServer/Lockers.antt =====
-- usr/lib/smd/lib/modules/locker.py: requests for a locker, and the end of its time.
use spaceport.Base.{
  ℕ, suc, ◌+◌, ◌<◌, ◌≡◌, ◌≢◌, refl, String, Bool, true, false, not, ◌&&◌, ◌||◌, Option, none, some,
  arith, inl, inr, Option-cases, if◌then◌else◌, str_eq, str_eq_self, str_eq-ne,
}
use spaceport.Base.Int.{ℤ, pos, is_positive}
use spaceport.Base.Dict.{lookup, contains, lookup-insert, lookup-erase_self, lookup-erase_ne}
use spaceport.Value.{
  Value, null, text, arr, dict, Items, nil, cons, ok, err, key_error, any_text, Fields, truthy,
  get_field, get_or_null,
}
use spaceport.Util.{nes}
use spaceport.Message.{Message, attr, is_forward}
use spaceport.Constants.{locker_type_names}
use spaceport.Host.{
  Host, Task, locker_close as close_job, seconds, cancel_task, due_task, task_event, remove_task,
}
use spaceport.Host.Queue.{due_task_job}
use spaceport.Ability.{Locker}
use spaceport.LockerServer.State.{LockerServer, nothing}
use spaceport.LockerServer.Table.{
  AddError, locker_close, locker_remove, new_locker, replace_locker, set_locker, add_named,
  locker_add, locker_name, locker_time, run_job, fire, same_time,
}
use spaceport.LockerServer.Update.{refuse_backup, add_item, add_items, add_list, action, report}
use spaceport.LockerServer.Sync.{event_of}
use spaceport.LockerServer.Keeps.{lookup-locker_remove, locker_remove-absent, locker_remove-present}
use spaceport.LockerServer.Invariant.{IsSound}

fire_close :
    (s : LockerServer) (t : Task) (k : String)
    → due_task s.host ≡ some t
    → t.job ≡ close_job k
    → fire s
      ≡ locker_close
          (record { name = k; event = some t.id; expire = none })
          true
          true
          (record s { host = record s.host { queue = remove_task t.id s.host.queue } })
unfolding fire run_job
fire_close s t k d e = rw (d, fire) (rw e refl)

owner_of_due :
    (s : LockerServer) (t : Task) (k : String)
    → IsSound s
    → due_task s.host ≡ some t
    → t.job ≡ close_job k
    → event_of k s.lockers ≡ some t.id
owner_of_due s t k h d e = h.synced.owned t.id k (rw e at (due_task_job s.host t h.synced.unique d))

-- The end of a locker's time: in a sound state the task that is due belongs to the locker that stands
-- under its name; that locker goes, every other one stays as it is, and the clients are to be told unless
-- it is the Backup locker.
pub fire_closes :
    (s : LockerServer) (t : Task) (k j : String)
    → IsSound s
    → due_task s.host ≡ some t
    → t.job ≡ close_job k
    → k ≢ j
    → (event_of k s.lockers ≡ some t.id)
      × (lookup k (fire s).lockers ≡ none)
      × (lookup j (fire s).lockers ≡ lookup j s.lockers)
      × ((fire s).update ≡ s.update || not (str_eq k "backup"))
unfolding locker_close
fire_closes s t k j h d e ne = (
  owner_of_due s t k h d e,
  rw (fire_close s t k d e) (lookup-erase_self k s.lockers),
  rw (fire_close s t k d e) (lookup-erase_ne k j s.lockers ne),
  rw (fire_close s t k d e) refl,
)

others-locker_remove :
    (k j : String) (notify : Bool) (s : LockerServer)
    → k ≢ j
    → lookup j (locker_remove k notify s).lockers ≡ lookup j s.lockers
unfolding locker_close
others-locker_remove k j notify s ne = elim (Option-cases (lookup k s.lockers)) [
  | inl e ↦ rw (locker_remove-absent k notify s e) refl
  | inr (l, e) ↦ rw (locker_remove-present k notify s l e) (lookup-erase_ne k j s.lockers ne)
]

-- The locker that a time makes.
abbrev pub made : String → Option ℕ → Host → Locker
made k none h = record { name = k; event = none; expire = none }
made k (some e) h = record { name = k; event = task_event h; expire = some (e + seconds h) }

lookup-new_locker :
    (k j : String) (e : Option ℕ) (s : LockerServer)
    → lookup j (new_locker k e s).lockers
      ≡ (if str_eq k j then some (made k e s.host) else lookup j s.lockers)
unfolding new_locker
lookup-new_locker k j none s = lookup-insert k j (made k none s.host) s.lockers
lookup-new_locker k j (some e) s = lookup-insert k j (made k (some e) s.host) s.lockers

-- The clock and the numbers of events are as before.
same_clock :
    (k : String) (e : Option ℕ) (s : LockerServer)
    → made k e (locker_remove k false s).host ≡ made k e s.host
unfolding locker_remove locker_close cancel_task
same_clock k none s = refl
same_clock k (some e) s = ground arith

-- What `_locker_add` does, once its test of the expire time has let it through.
replaced :
    (k : String) (e : Option ℕ) (s : LockerServer)
    → ((x : Locker) → lookup k s.lockers ≡ some x → same_time e x.expire ≡ false)
    → (lookup k (replace_locker k e s).lockers ≡ some (made k e s.host))
      × ((j : String) → k ≢ j → lookup j (replace_locker k e s).lockers ≡ lookup j s.lockers)
unfolding replace_locker
replaced k e s differs = elim (Option-cases (lookup k s.lockers)) [
  | inl h ↦ (
    rw (h, replace_locker) (rw (lookup-new_locker k k e s, str_eq_self k) refl),
    λ j ne. rw (h, replace_locker) (rw (lookup-new_locker k j e s, str_eq-ne k j ne) refl),
  )
  | inr (x, h) ↦
      let s' = locker_remove k false s in
      (
        rw (h, replace_locker)
            (rw (differs x h)
              (rw (lookup-new_locker k k e s', str_eq_self k, same_clock k e s) refl)),
        λ j ne.
            rw (h, replace_locker)
              (rw (differs x h) (
                rw (lookup-new_locker k j e s', str_eq-ne k j ne)
                  (others-locker_remove k j false s ne))),
      )
]

removed :
    (k : String) (s : LockerServer)
    → (lookup k (locker_remove k true s).lockers ≡ none)
      × ((j : String) → k ≢ j → lookup j (locker_remove k true s).lockers ≡ lookup j s.lockers)
removed k s = (lookup-locker_remove k true s, λ j ne. others-locker_remove k j true s ne)

-- A name that `_locker_add` lets through, with a time that it can read.
add_allowed :
    (k : String) (v : Value) (force : Bool) (t : Option ℤ) (s : LockerServer)
    → contains k locker_type_names ≡ true
    → locker_time v ≡ some t
    → contains k s.lockers && not force ≡ false
    → locker_add (text k) v force s ≡ (none, set_locker k t s)
unfolding locker_add locker_name add_named
add_allowed k v force t s known time free = ground arith

set_positive :
    (k : String) (n : ℕ) (s : LockerServer)
    → set_locker k (some (pos (suc n))) s ≡ replace_locker k (some (suc n)) s
unfolding set_locker
set_positive k n s = ground arith

-- A request for a known locker with a positive number of seconds, which is forced or finds the name
-- free, raises nothing. The locker then stands under its name, with that many seconds from now as its
-- end and with the scheduler's next event, and every other locker is as before; but only if no locker
-- of that name has an `expire` equal to the number itself.
pub locker_add_sets :
    (k j : String) (v : Value) (force : Bool) (n : ℕ) (s : LockerServer)
    → contains k locker_type_names ≡ true
    → locker_time v ≡ some (some (pos (suc n)))
    → contains k s.lockers && not force ≡ false
    → ((x : Locker) → lookup k s.lockers ≡ some x → same_time (some (suc n)) x.expire ≡ false)
    → k ≢ j
    → let (e, s') = locker_add (text k) v force s in
      (e ≡ none)
      × (lookup k s'.lockers
          ≡ some (record {
            name = k;
            event = task_event s.host;
            expire = some (suc n + seconds s.host);
          }))
      × (lookup j s'.lockers ≡ lookup j s.lockers)
locker_add_sets k j v force n s known time free differs ne =
    let r = replaced k (some (suc n)) s differs in
    rw (add_allowed k v force (some (pos (suc n))) s known time free, set_positive k n s)
      (refl, r.0, r.1 j ne)

-- A request for a known locker with a number of seconds that is not positive, which is forced or finds
-- the name free, raises nothing; no locker stands under the name then, and every other one is as before.
pub locker_add_removes :
    (k j : String) (v : Value) (force : Bool) (z : ℤ) (s : LockerServer)
    → contains k locker_type_names ≡ true
    → locker_time v ≡ some (some z)
    → is_positive z ≡ false
    → contains k s.lockers && not force ≡ false
    → k ≢ j
    → let (e, s') = locker_add (text k) v force s in
      (e ≡ none) × (lookup k s'.lockers ≡ none) × (lookup j s'.lockers ≡ lookup j s.lockers)
unfolding set_locker
locker_add_removes k j v force z s known time sign free ne =
    rw (add_allowed k v force (some z) s known time free, sign)
      (refl, (removed k s).0, (removed k s).1 j ne)

add_named_fails :
    (k : String) (v : Value) (force : Bool) (s : LockerServer) (e : AddError)
    → (add_named k v force s).0 ≡ some e
    → (add_named k v force s).1 ≡ s
unfolding add_named
add_named_fails k v force s e h = ground arith

-- A request that `_locker_add` refuses with an error has changed nothing.
locker_add_fails :
    (name expires : Value) (force : Bool) (s : LockerServer) (e : AddError)
    → (locker_add name expires force s).0 ≡ some e
    → (locker_add name expires force s).1 ≡ s
unfolding locker_add
locker_add_fails name v force s e h =
    ground (arith, add_named_fails (locker_name name).1 v force s e)

-- A locker that was set for some seconds at a time after the first second of the clock, and is asked for
-- again with as many seconds and `force`, is not kept as it is: it is set anew, to end that many seconds
-- from now.
same_request_restarts :
    (k : String) (v : Value) (n t : ℕ) (x : Locker) (s : LockerServer)
    → contains k locker_type_names ≡ true
    → locker_time v ≡ some (some (pos (suc n)))
    → lookup k s.lockers ≡ some x
    → x.expire ≡ some (suc n + t)
    → 0 < t
    → lookup k (locker_add (text k) v true s).1.lockers
      ≡ some
          (record { name = k; event = task_event s.host; expire = some (suc n + seconds s.host) })
same_request_restarts k v n t x s known time held ends later =
    let free : contains k s.lockers && not true ≡ false = ground arith in
    rw (add_allowed k v true (some (pos (suc n))) s known time free, set_positive k n s)
      (replaced k (some (suc n)) s (λ y p. ground arith)).0

-- Every item of a list of requests is a dict.
abbrev pub IsDicts : Items → Type 0
IsDicts nil = Unit {0}
IsDicts (cons (dict d) vs) = IsDicts vs
IsDicts (cons _ vs) = ⊥

any_text-IsDicts : (k : String) (vs : Items) → IsDicts vs → any_text k vs ≡ false
any_text-IsDicts k nil h = refl
any_text-IsDicts k (cons (dict d) vs) h = any_text-IsDicts k vs h
any_text-IsDicts k (cons null vs) h = absurd h
any_text-IsDicts k (cons _ vs) h = absurd h

-- A request for the Backup locker by its name, from a message that the root daemon has not forwarded to itself
pub backup_refused :
    (m : Message) (s : LockerServer)
    → is_forward m (some 0) none ≡ false
    → attr "name" m ≡ text "backup"
    → action m s ≡ (ok refuse_backup, s)
unfolding action nes
backup_refused m s forwarded n = rw n (rw forwarded refl)

backup_guard_passes :
    (m : Message) (vs : Items) (s : LockerServer)
    → IsDicts vs
    → nes (attr "name" m) ≡ false
    → attr "list" m ≡ arr vs
    → action m s ≡ add_items vs s
unfolding action add_list nes
backup_guard_passes m vs s dicts n l = rw n (rw l (rw (any_text-IsDicts "backup" vs dicts) refl))

or_null : (k : String) (v : Value) (d : Fields) → get_field k d ≡ some v → get_or_null k d ≡ v
or_null k v d h = ground arith

-- One request of a list, that `_locker_add` lets through
one_item :
    (k : String) (d : Fields) (z : Option ℤ) (s : LockerServer)
    → get_field "name" d ≡ some (text k)
    → contains k locker_type_names ≡ true
    → locker_time (get_or_null "time" d) ≡ some z
    → contains k s.lockers && not (truthy (get_or_null "force" d)) ≡ false
    → add_items (cons (dict d) nil) s ≡ (ok nothing, set_locker k z s)
unfolding add_items add_item
one_item k d z s name known time free =
    rw (or_null "name" (text k) d name, name)
      (rw
        (add_allowed k (get_or_null "time" d) (truthy (get_or_null "force" d)) z s known time free)
        refl)

-- Whoever sends it, a request that names no locker itself, and brings a list with one dict that asks for the Backup
-- locker for a positive number of seconds, sets that locker: it is forced or finds the name free, no Backup locker has an
-- `expire` equal to the number itself, and the locker then stands in the table, with that many seconds from now as its
-- end and with the scheduler's next event.
pub backup_guard :
    (m : Message) (d : Fields) (n : ℕ) (s : LockerServer)
    → nes (attr "name" m) ≡ false
    → attr "list" m ≡ arr (cons (dict d) nil)
    → get_field "name" d ≡ some (text "backup")
    → locker_time (get_or_null "time" d) ≡ some (some (pos (suc n)))
    → contains "backup" s.lockers && not (truthy (get_or_null "force" d)) ≡ false
    → ((x : Locker)
        → lookup "backup" s.lockers ≡ some x
        → same_time (some (suc n)) x.expire ≡ false)
    → ((action m s).0 ≡ ok nothing)
      × (lookup "backup" (action m s).1.lockers
          ≡ some (record {
            name = "backup";
            event = task_event s.host;
            expire = some (suc n + seconds s.host);
          }))
backup_guard m d n s none_named list name time free differs =
    rw
      (
        backup_guard_passes m (cons (dict d) nil) s tt none_named list,
        one_item "backup" d (some (pos (suc n))) s name refl time free,
        set_positive "backup" n s,
      )
      (refl, (replaced "backup" (some (suc n)) s differs).0)

-- A question for one locker that stands in the table, in a message that says nothing under the name
-- `lower`, makes the handler raise a `KeyError`.
report_one :
    (k : String) (m : Message) (s : LockerServer)
    → contains k s.lockers ≡ true
    → attr "lower" m ≡ null
    → attr "locker" m ≡ text k
    → report m s ≡ err key_error
unfolding report
report_one k m s there none_lower a = rw a (rw there (rw none_lower refl))
