-- ===== src/Backup/Plan/Counter.antt =====
-- usr/lib/smd/lib/modules/backup.py: the count of a plan in the state file.
use spaceport.Base.{ℕ, ◌+◌, String, Bool, true, false, ◌||◌, none, some, if◌then◌else◌}
use spaceport.Base.Int.{pos}
use spaceport.Value.{
  Value, null, boolean, number, dict, Fields, end, Result, ok, err, attribute_error, get_field,
  set_field,
}
use spaceport.Backup.Schedule.{get_or, is_full}
use spaceport.Backup.Plan.Parse.{Plan}

-- `state[uuid].get("count", 0)` of an entry, which counts where it is a number that is not negative.
abbrev pub count_number : Value → ℕ
count_number (number (pos n)) = n
count_number (boolean b) = if b then 1 else 0
count_number _ = 0

unfoldable pub entry_count : Value → Result ℕ
entry_count (dict d) = ok (count_number (get_or (get_field "count" d) (number (pos 0))))
entry_count _ = err attribute_error

unfoldable pub count_of : String → Fields → Result ℕ
count_of uuid state = elim (get_field uuid state) [ none ↦ ok 0 | some v ↦ entry_count v ]

abbrev pub new_entry : Value
new_entry = dict (
    Fields.field "last" null (
      Fields.field "size" null
        (Fields.field "error" (boolean false) (Fields.field "count" (number (pos 0)) end))))

-- `state[uuid]["count"] = c`
abbrev pub put_count : String → ℕ → Value → Fields → Fields
put_count uuid c (dict d) state = set_field uuid (dict (set_field "count" (number (pos c)) d)) state
put_count uuid c v state = state

-- `incremental(state, force_full)` for a plan with an entry: is the backup incremental, and the state with
-- its new count.
abbrev pub next_count : Plan → Bool → Value → Fields → ℕ → Bool × Fields
next_count p force_full v state c =
    if force_full || is_full p.schedule c
    then (false, put_count p.uuid 0 v state)
    else (true, put_count p.uuid (c + 1) v state)

abbrev pub counted : Plan → Bool → Value → Fields → Result ℕ → Result (Bool × Fields)
counted p force_full v state (err e) = err e
counted p force_full v state (ok c) = ok (next_count p force_full v state c)

-- `incremental(state, force_full)`
unfoldable pub incremental : Plan → Bool → Fields → Result (Bool × Fields)
incremental p force_full state = elim (get_field p.uuid state) [
  | none ↦ ok (false, set_field p.uuid new_entry state)
  | some v ↦ counted p force_full v state (entry_count v)
]
