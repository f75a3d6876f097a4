-- ===== src/Backup/Schedule.antt =====
-- usr/lib/smd/lib/modules/backup.py: `Schedule`, the days of a plan and its full backups.
pub mod Days
use spaceport.Base.{
  ℕ, Bool, true, false, not, ◌&&◌, ◌||◌, Option, none, some, List, [], ◌∷◌, map, codes, leb, ◌==◌,
  if◌then◌else◌, is_some, str_eq,
}
use spaceport.Base.Int.{pos, abs}
use spaceport.Value.{
  Value, null, number, text, arr, dict, Items, nil, cons, Result, ok, err, value_error, get_field,
  get_or_null,
}
use spaceport.Value.Do.{◌>>=◌}
use spaceport.Util.{num, to_bool, lower}

pub record Schedule : Type 0 where
  pub days : Option Items
  pub cycle : Option ℕ
  pub increment : Bool

-- A value that is to be a list or missing.
abbrev pub list_or_none : Value → Result (Option Items)
list_or_none null = ok none
list_or_none (arr vs) = ok (some vs)
list_or_none _ = err value_error

-- `d.get(name, default)`
abbrev pub get_or : Option Value → Value → Value
get_or none default = default
get_or (some v) default = v

-- `Schedule(data)`
unfoldable pub new_schedule : Value → Result Schedule
new_schedule (dict d) = do
  days ← list_or_none (get_or_null "days" d)
  cycle ← num (get_or (get_field "cycle" d) (number (pos 0))) false true
  increment ← to_bool (get_or_null "increment" d) true
  ok (record { days = days; cycle = some (abs cycle); increment = increment })
new_schedule _ = ok (record { days = none; cycle = none; increment = false })

abbrev pub cycle_over : Option ℕ → ℕ → Bool
cycle_over none count = false
cycle_over (some c) count = c == 0 || leb c count

-- `is_full(count)`
unfoldable pub is_full : Schedule → ℕ → Bool
is_full s count = if not (is_some s.days) || not s.increment then true else cycle_over s.cycle count

-- The tests on a second letter; an item of one letter has passed those on the first.
unfoldable pub second_letter : ℕ → ℕ → List ℕ → Bool
second_letter day a [] = false
second_letter day a (b ∷ _) =
    ((day == 1) && (a == b't') && (b == b'u'))
    || ((day == 3) && (a == b't') && (b == b'h'))
    || ((day == 5) && (a == b's') && (b == b'a'))
    || ((day == 6) && (a == b's') && (b == b'u'))

-- One item of the days, in small letters, as code points.
unfoldable pub is_day : ℕ → List ℕ → Bool
is_day day [] = false
is_day day (a ∷ rest) =
    ((day == 0) && (a == b'm'))
    || ((day == 2) && (a == b'w'))
    || ((day == 4) && (a == b'f'))
    || second_letter day a rest

abbrev pub item_is_day : ℕ → Value → Bool
item_is_day day (text t) = is_day day (map lower (codes t))
item_is_day day _ = false

unfoldable pub any_day : ℕ → Items → Bool
any_day day nil = false
any_day day (cons v vs) = item_is_day day v || any_day day vs

-- `runnable(current_day)`, with 0 for Monday
unfoldable pub runnable : Schedule → ℕ → Bool
runnable s day = elim s.days [ none ↦ false | some vs ↦ any_day day vs ]
