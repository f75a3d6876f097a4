-- ===== src/Backup/Queue/Defs.antt =====
-- usr/lib/smd/lib/modules/backup.py: the state of `Queue` and its operations.
use spaceport.Base.{
  ℕ, ◌+◌, ◌*◌, String, Bool, true, false, Option, none, some, List, [], ◌∷◌, ◌++◌, ltb,
  if◌then◌else◌, is_some, str_eq,
}
use spaceport.Base.Int.{ℤ, pos, negsuc}
use spaceport.Base.Dict.{Dict, contains, insert, erase}
use spaceport.Value.{
  Value, dict, Fields, Result, ok, err, Exn, value_error, attribute_error, key_error, os_error,
  get_field, get_or_null, truthy,
}
use spaceport.Value.Do.{◌>>=◌, ◌>>◌}
use spaceport.Backup.Constants.{backup_backoff_time}
use spaceport.Backup.Schedule.{runnable}
use spaceport.Backup.Text.{nes_text}
use spaceport.Backup.Upload.{Upload, valid, check}
use spaceport.Backup.Plan.{Plan, Files, plan_check, is_match}

-- `_map` has the identifiers of the entries as its keys.
pub record Queue : Type 0 where
  pub map : Dict Bool
  pub entries : List Plan

-- `Queue()`
abbrev pub empty : Queue
empty = record { map = []; entries = [] }

-- What the system answers while plans are chosen.
pub record Clock : Type 0 where
  pub files : Files
  -- The upload target takes a connection.
  pub reached : Upload → Bool
  -- `datetime.now() - datetime.fromisoformat(t)` in microseconds; none is a `ValueError`
  pub age : String → Option ℤ
  -- `datetime.now().weekday()`
  pub weekday : ℕ

-- `_pop()` of a queue with entries: `del` raises for an identifier that is not in the map.
unfoldable pub pop : Plan → List Plan → Dict Bool → Result Queue
pop p rest m =
    if contains p.uuid m
    then ok (record { map = erase p.uuid m; entries = rest })
    else err key_error

-- `clear()`
unfoldable pub clear : Queue → Queue
clear q = empty

-- `is_empty()`
unfoldable pub is_empty : Queue → Bool
is_empty q = elim q.entries [ [] ↦ true | _ ∷ _ ↦ false ]

-- `uuid in self`
abbrev pub has_plan : String → Queue → Bool
has_plan uuid q = contains uuid q.map

-- The first entry that a path or an identifier names.
unfoldable pub first_match : Value → List Plan → Option Plan
first_match path [] = none
first_match path (p ∷ ps) = if is_match path p then some p else first_match path ps

-- `self._entries.remove(v)` for the entry that was found
unfoldable pub remove_entry : Value → List Plan → List Plan
remove_entry path [] = []
remove_entry path (p ∷ ps) =
    let rest = p ∷ remove_entry path ps in if is_match path p then ps else rest

-- What `remove` returns: False for an empty queue, None where no entry is meant, or the plan.
pub data Removed : Type 0 where
  is_false is_none : Removed
  removed : Plan → Removed

abbrev pub removed_from : Value → Queue → Option Plan → Result Removed × Queue
removed_from path q none = (ok is_none, q)
removed_from path q (some p) =
    let entries = remove_entry path q.entries in
    if contains p.uuid q.map
    then (ok (removed p), record { map = erase p.uuid q.map; entries = entries })
    else (err key_error, record q { entries = entries })

-- `remove(path)`
unfoldable pub remove : Value → Queue → Result Removed × Queue
remove path q =
    if is_empty q then (ok is_false, q) else removed_from path q (first_match path q.entries)

-- `_add(plan, first)`
unfoldable pub add : Plan → Bool → Queue → Queue
add p first q = if contains p.uuid q.map then q else record {
  map = insert p.uuid true q.map;
  entries = if first then p ∷ q.entries else q.entries ++ p ∷ [];
}

-- What `next` does with one plan.
pub data Verdict : Type 0 where
  take skip : Verdict
  raises : Exn → Verdict

-- `except (OSError, ValueError)`
abbrev pub is_caught : Exn → Bool
is_caught value_error = true
is_caught (os_error _) = true
is_caught _ = false

-- `x.check()`, and the check of its upload where it has a valid one.
unfoldable pub checks : Clock → Plan → Result (Unit {0})
checks c p = plan_check c.files p >> elim p.upload as (λ _. Result (Unit {0})) [
  | none ↦ ok tt
  | some u ↦ if valid u then (check c.reached c.files.file_check u >>= λ _. ok tt) else ok tt
]

-- `z > n` in seconds, for a time in microseconds
abbrev pub longer : ℤ → ℕ → Bool
longer (pos us) n = ltb (n * 1000000) us
longer (negsuc us) n = false

-- `z < n` in seconds
abbrev pub shorter : ℤ → ℕ → Bool
shorter (pos us) n = ltb us (n * 1000000)
shorter (negsuc us) n = true

-- The entry of the state file for a plan that was run before: a recent success is passed over.
abbrev pub old_enough : Plan → Value → Option ℤ → Verdict
old_enough p failed none = raises value_error
old_enough p failed (some z) =
    if longer z p.wait then take else if truthy failed then take else skip

abbrev pub by_entry : Clock → Plan → Value → Verdict
by_entry c p (dict d) = elim (nes_text (get_or_null "last" d)) as (λ _. Verdict) [
  | none ↦ take
  | some t ↦ old_enough p (get_or_null "error" d) (c.age t)
]
by_entry c p v = raises attribute_error

-- The rest of the loop of `next`, for a plan that was checked.
abbrev pub by_state : Clock → Fields → Value → Bool → Plan → Verdict
by_state c state path force p =
    if is_match path p
    then take
    else if force
    then take
    else elim (get_field p.uuid state) as (λ _. Verdict) [ none ↦ take | some v ↦ by_entry c p v ]

abbrev pub checked : Result (Unit {0}) → Verdict → Verdict
checked (ok _) v = v
checked (err e) v = if is_caught e then skip else raises e

unfoldable pub verdict : Clock → Fields → Value → Bool → Plan → Verdict
verdict c state path force p = checked (checks c p) (by_state c state path force p)

abbrev pub obey :
    Verdict → Plan → Queue → Result (Option Plan) × Queue → Result (Option Plan) × Queue
obey take p q rest = (ok (some p), q)
obey skip p q rest = rest
obey (raises e) p q rest = (err e, q)

abbrev pub popped :
    Result Queue → Queue → (Queue → Result (Option Plan) × Queue) → Result (Option Plan) × Queue
popped (err e) q f = (err e, q)
popped (ok q') q f = f q'

-- The loop of `next` over the entries.
unfoldable pub next_from :
    Clock → Fields → Value → Bool → List Plan → Dict Bool → Result (Option Plan) × Queue
next_from c state path force [] m = (ok none, record { map = m; entries = [] })
next_from c state path force (p ∷ ps) m =
    let rest = next_from c state path force ps (erase p.uuid m) in
    popped (pop p ps m) (record { map = m; entries = ps })
      (λ q. obey (verdict c state path force p) p q rest)

-- `next(state, path, force)`
unfoldable pub next : Clock → Fields → Value → Bool → Queue → Result (Option Plan) × Queue
next c state path force q = next_from c state path force q.entries q.map

-- What `add_plans` does with one plan: it is added at the front, at the end, or not.
pub data Wanted : Type 0 where
  front back no_place : Wanted
  fails : Exn → Wanted

-- Was the plan tried a short while ago? A text that is no time is passed over here.
abbrev pub recent : Option ℤ → Bool
recent none = false
recent (some z) = shorter z backup_backoff_time

abbrev pub by_day : Clock → Plan → Bool → Wanted
by_day c p was_tried =
    if was_tried then no_place else if runnable p.schedule c.weekday then back else no_place

abbrev pub by_last : Clock → Plan → Value → Wanted
by_last c p (dict d) = elim (nes_text (get_or_null "last" d)) as (λ _. Wanted) [
  | none ↦ by_day c p false
  | some t ↦ by_day c p (recent (c.age t))
]
by_last c p v = fails attribute_error

abbrev pub is_running : Option String → Plan → Bool
is_running none p = false
is_running (some id) p = str_eq p.id id

-- One turn of the loop of `add_plans`; `running` is the identifier of the backup that runs, if one does.
unfoldable pub wants : Clock → Fields → Value → Option String → Plan → Wanted
wants c state path running p =
    if is_running running p
    then no_place
    else if is_match path p
    then front
    else if is_some (nes_text path)
    then no_place
    else elim (get_field p.uuid state) as (λ _. Wanted) [
      | none ↦ by_day c p false
      | some v ↦ by_last c p v
    ]

abbrev pub place_plan :
    Wanted → Plan → Queue → ℕ → (Queue → ℕ → Result ℕ × Queue) → Result ℕ × Queue
place_plan front p q n k = k (add p true q) (n + 1)
place_plan back p q n k = k (add p false q) (n + 1)
place_plan no_place p q n k = k q n
place_plan (fails e) p q n k = (err e, q)

unfoldable pub add_each :
    Clock → Fields → Value → Option String → List Plan → Queue → ℕ → Result ℕ × Queue
add_each c state path running [] q n = (ok n, q)
add_each c state path running (p ∷ ps) q n =
    place_plan (wants c state path running p) p q n (add_each c state path running ps)

-- `add_plans(state, plans, path, current)`: none is the empty list that it returns for no plans, which its
-- caller cannot take apart; otherwise how many plans were wanted.
unfoldable pub add_plans :
    Clock → Fields → Value → Option String → List Plan → Queue → Option (Result ℕ) × Queue
add_plans c state path running [] q = (none, q)
add_plans c state path running (p ∷ ps) q =
    let (n, q') = add_each c state path running (p ∷ ps) q 0 in (some n, q')
