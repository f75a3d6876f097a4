-- ===== src/Backup/Server/Status.antt =====
-- usr/lib/smd/lib/modules/backup.py: `Plans.status`, what is told of each plan.
use spaceport.Base.{
  ℕ, zero, suc, String, Bool, true, false, not, ◌&&◌, Option, none, some, List, [], ◌∷◌, ltb,
  if◌then◌else◌, str_eq,
}
use spaceport.Base.Int.{pos}
use spaceport.Value.{
  Value, null, boolean, number, text, dict, Items, nil, cons, Fields, end, Result, ok, err,
  attribute_error, get_field, get_or_null,
}
use spaceport.Value.Do.{◌>>=◌}
use spaceport.Util.{to_bool}
use spaceport.Backup.Constants.{state_titles}
use spaceport.Backup.Plan.{Plan}
use spaceport.Backup.Queue.{Queue, has_plan}
use spaceport.Backup.Job.State.{Backup}
use spaceport.Backup.Job.Control.{running}

-- `BACKUP_STATE_NAMES[n].title()`
abbrev pub nth_title : ℕ → List String → String
nth_title n [] = "Invalid"
nth_title zero (t ∷ ts) = t
nth_title (suc n) (t ∷ ts) = nth_title n ts

abbrev pub is_current : Option Backup → Plan → Bool
is_current none p = false
is_current (some j) p = running j && str_eq j.id p.id

-- "state" and "status": the current backup runs or waits, and another plan is in the queue or not.
abbrev pub progress : Queue → Option Backup → Plan → String × String
progress q none p = (if has_plan p.uuid q then "Q" else "", "")
progress q (some j) p =
    if is_current (some j) p
    then (if j.paused then "W" else "R", nth_title j.state state_titles)
    else (if has_plan p.uuid q then "Q" else "", "")

abbrev row : Plan → String × String → Value → Value → Bool → Value → Value
row p (state, words) last size is_full failed = dict (
    Fields.field "id" (text p.id) (
      Fields.field "last" last (
        Fields.field "size" size (
          Fields.field "uuid" (text p.uuid) (
            Fields.field "path" (text p.path) (
              Fields.field "full" (boolean is_full) (
                Fields.field "error" failed (
                  Fields.field "state" (text state) (
                    Fields.field "status" (text words)
                      (Fields.field "description" p.description end))))))))))

-- A whole number above 0, or True
abbrev pub is_counted : Value → Bool
is_counted (number (pos n)) = ltb 0 n
is_counted (boolean b) = b
is_counted _ = false

abbrev pub entry_row : Plan → String × String → Value → Result Value
entry_row p words (dict d) = to_bool (get_or_null "error" d) true >>= λ failed. ok (
    row p words (get_or_null "last" d) (get_or_null "size" d)
      (not (is_counted (get_or_null "count" d))) (boolean failed))
entry_row p words v = err attribute_error

-- One plan, with what the state file says of it.
unfoldable pub status_row : Fields → Queue → Option Backup → Plan → Result Value
status_row state q current p = elim (get_field p.uuid state) as (λ _. Result Value) [
  | none ↦ ok (row p (progress q current p) null null false null)
  | some v ↦ entry_row p (progress q current p) v
]

-- `status(server, queue, current)`
unfoldable pub status : Fields → Queue → Option Backup → List Plan → Result Items
status state q current [] = ok nil
status state q current (p ∷ ps) =
    status_row state q current p >>= λ v. status state q current ps >>= λ vs. ok (cons v vs)
