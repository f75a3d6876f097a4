-- ===== src/LockerServer/Table.antt =====
-- usr/lib/smd/lib/modules/locker.py: the table of lockers, which `_locker_add`, `_locker_remove` and
-- `_locker_close` keep together with the events that end the lockers.
use spaceport.Base.{
  ℕ, ◌+◌, String, Bool, true, false, not, ◌&&◌, ◌||◌, Option, none, some, [], ◌∷◌, ◌==◌,
  if◌then◌else◌, str_eq,
}
use spaceport.Base.Int.{ℤ, is_positive, abs}
use spaceport.Base.Dict.{Dict, lookup, contains, insert, erase}
use spaceport.Value.{Value, null, text, arr, dict, ok, err}
use spaceport.Util.{num}
use spaceport.Constants.{locker_type_names}
use spaceport.Host.{
  Job, locker_close as close_job, backoff_clear, add_task, task_event, cancel_task, remove_task,
  seconds, due_task,
}
use spaceport.Ability.{Locker}
use spaceport.LockerServer.State.{LockerServer}

-- `_locker_close(locker, notify, remove)`; the locker object itself is not used again.
unfoldable pub locker_close : Locker → Bool → Bool → LockerServer → LockerServer
locker_close l notify remove s = record s {
  lockers = if remove then erase l.name s.lockers else s.lockers;
  host = cancel_task l.event s.host;
  update = s.update || notify && not (str_eq l.name "backup");
}

-- `_locker_remove(name, notify)`
unfoldable pub locker_remove : String → Bool → LockerServer → LockerServer
locker_remove name notify s = elim (lookup name s.lockers) [
  | none ↦ s
  | some l ↦ locker_close l notify false (record s { lockers = erase name s.lockers })
]

-- `Locker(server, self, name, expire)`, put into the table.
unfoldable pub new_locker : String → Option ℕ → LockerServer → LockerServer
new_locker name none s = record s {
  lockers = insert name (record { name = name; event = none; expire = none }) s.lockers;
}
new_locker name (some e) s = record s {
  lockers =
      insert name
        (record { name = name; event = task_event s.host; expire = some (e + seconds s.host) })
        s.lockers;
  host = add_task e (close_job name) 5 s.host;
}

-- Why `_locker_add` raises: two `ValueError`s, and the `TypeError` of a name that cannot be a key.
pub data AddError : Type 0 where
  invalid_name invalid_time unhashable : AddError

-- The name of a locker, if the value is one of `LOCKER_TYPE_NAMES`.
unfoldable pub locker_name : Value → Option AddError × String
locker_name (text name) =
    (if contains name locker_type_names then none else some invalid_name, name)
locker_name (arr _) = (some unhashable, "")
locker_name (dict _) = (some unhashable, "")
locker_name _ = (some invalid_name, "")

-- The time of a locker: none for no end, and otherwise a number of seconds that may be negative.
unfoldable pub locker_time : Value → Option (Option ℤ)
unfolding num
locker_time null = some none
locker_time v = elim (num v true true) [ ok z ↦ some (some z) | err _ ↦ none ]

abbrev pub same_time : Option ℕ → Option ℕ → Bool
same_time none none = true
same_time (some a) (some b) = a == b
same_time _ _ = false

-- The end of `_locker_add`, for a time that is none or positive. A locker whose `expire` equals the
-- time that was asked for is left as it is.
unfoldable pub replace_locker : String → Option ℕ → LockerServer → LockerServer
replace_locker name e s = elim (lookup name s.lockers) [
  | none ↦
      let s' = new_locker name e s in record s' { update = s'.update || not (str_eq name "backup") }
  | some x ↦
      if same_time e x.expire
      then s
      else let s' = new_locker name e (locker_remove name false s) in
        record s' { update = s'.update || not (str_eq name "backup") }
]

-- The time of a locker is none, positive, or one that asks for its end.
unfoldable pub set_locker : String → Option ℤ → LockerServer → LockerServer
set_locker name none s = replace_locker name none s
set_locker name (some z) s =
    if is_positive z then replace_locker name (some (abs z)) s else locker_remove name true s

-- `_locker_add` once the name is known.
unfoldable pub add_named : String → Value → Bool → LockerServer → Option AddError × LockerServer
add_named key expires force s =
    if contains key s.lockers && not force then (none, s) else elim (locker_time expires) [
      | none ↦ (some invalid_time, s)
      | some t ↦ (none, set_locker key t s)
    ]

-- `_locker_add(name, expires, force)`: the error that it raises, and the state after it.
unfoldable pub locker_add : Value → Value → Bool → LockerServer → Option AddError × LockerServer
unfolding locker_name
locker_add name expires force s = elim (locker_name name).0 [
  | some e ↦ (some e, s)
  | none ↦ add_named (locker_name name).1 expires force s
]

-- The loop of `reload` over the lockers, none of which it removes.
unfoldable pub close_all : Dict Locker → LockerServer → LockerServer
close_all [] s = s
close_all ((_, l) ∷ rest) s = close_all rest (locker_close l false false s)

-- The function of an event i of the scheduler is called. `_locker_close` gets the locker that made the
-- event.
unfoldable pub run_job : Job → ℕ → LockerServer → LockerServer
run_job (close_job name) i s =
    locker_close (record { name = name; event = some i; expire = none }) true true s
run_job backoff_clear i s = record s { backoff = none }
run_job _ i s = s

-- The event that is due, if there is one, leaves the queue and is run.
unfoldable pub fire : LockerServer → LockerServer
fire s = elim (due_task s.host) [
  | none ↦ s
  | some t ↦
      let h = s.host in
      run_job t.job t.id (record s { host = record h { queue = remove_task t.id h.queue } })
]
