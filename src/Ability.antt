-- ===== src/Ability.antt =====
-- usr/lib/smd/lib/modules/locker.py: `Ability`, what a client lets the daemon do and after how long,
-- and `Locker`, one inhibitor.
use Prim.Native.String.{◌++◌}
use spaceport.Base.{ℕ, String, Bool, true, false, Option, none, some, [], ◌∷◌, ltb, if◌then◌else◌}
use spaceport.Base.Int.{pos, abs}
use spaceport.Base.Dict.{Dict}
use spaceport.Value.{
  Value, null, boolean, number, Fields, end, field, Result, ok, err, get_field, set_field,
}
use spaceport.Util.{num, to_bool}
use spaceport.Storage
use spaceport.Constants.{
  default_locker_lid, default_locker_key_lock, default_locker_lock, default_locker_blank,
  default_locker_suspend, default_locker_hibernate,
}

pub record Ability : Type 0 where
  pub lid : Bool
  pub key : Bool
  pub lock : ℕ
  pub blank : ℕ
  pub suspend : ℕ
  pub hibernate : ℕ

-- `Ability.defalts()`
abbrev pub defaults : Ability
defaults = record {
  lid = default_locker_lid;
  key = default_locker_key_lock;
  lock = default_locker_lock;
  blank = default_locker_blank;
  suspend = default_locker_suspend;
  hibernate = default_locker_hibernate;
}

abbrev pub can_lock : Ability → Bool
can_lock a = ltb 0 a.lock

abbrev pub can_blank : Ability → Bool
can_blank a = ltb 0 a.blank

abbrev pub can_suspend : Ability → Bool
can_suspend a = ltb 0 a.suspend

abbrev pub can_hibernate : Ability → Bool
can_hibernate a = ltb 0 a.hibernate

-- A number that a dict gives, without its sign: the default where the name is missing, and where the
-- value is no number.
unfoldable pub num_or : Option Value → ℕ → ℕ
unfolding num
num_or none default = default
num_or (some v) default = elim (num v false true) [ ok z ↦ abs z | err _ ↦ default ]

unfoldable pub bool_or : Option Value → Bool → Result Bool
unfolding to_bool
bool_or none default = ok default
bool_or (some v) default = to_bool v true

-- `to_dict()`
unfoldable pub to_dict : Ability → Fields
to_dict a = field "lid" (boolean a.lid) (
    field "key" (boolean a.key) (
      field "lock" (number (pos a.lock)) (
        field "blank" (number (pos a.blank)) (
          field "suspend" (number (pos a.suspend))
            (field "hibernate" (number (pos a.hibernate)) end)))))

-- `from_dict(data)`: a text of blanks for `lid` or `key` makes `boolean` raise, and what was set before
-- stays set.
unfoldable pub from_dict : Fields → Ability → Result (Unit {0}) × Ability
unfolding bool_or num_or
from_dict given a = elim (bool_or (get_field "lid" given) default_locker_lid) [
  | err e ↦ (err e, a)
  | ok lid ↦ elim (bool_or (get_field "key" given) default_locker_key_lock) [
    | err e ↦ (err e, record a { lid = lid })
    | ok key ↦ (
      ok tt,
      record {
        lid = lid;
        key = key;
        lock = num_or (get_field "lock" given) default_locker_lock;
        blank = num_or (get_field "blank" given) default_locker_blank;
        suspend = num_or (get_field "suspend" given) default_locker_suspend;
        hibernate = num_or (get_field "hibernate" given) default_locker_hibernate;
      },
    )
  ]
]

-- `Locker`: `event` is its event in the scheduler, `expire` the second at which it ends.
pub record Locker : Type 0 where
  pub name : String
  pub event : Option ℕ
  pub expire : Option ℕ

abbrev pub expire_value : Option ℕ → Value
expire_value none = null
expire_value (some t) = number (pos t)

-- A name with the value `True`, unless the client has the ability.
abbrev mark : String → Bool → Fields → Fields
mark name has r = if has then r else set_field name (boolean true) r

add_lockers : Dict Locker → Fields → Fields
add_lockers [] r = r
add_lockers ((k, l) ∷ lockers) r = add_lockers lockers (set_field k (expire_value l.expire) r)

-- `status(lockers)`
unfoldable pub status : Ability → Dict Locker → Fields
unfolding add_lockers
status a lockers = add_lockers lockers (
    mark "hibernate" (can_hibernate a) (
      mark "suspend" (can_suspend a) (
        mark "blank" (can_blank a)
          (mark "lock" (can_lock a) (mark "key" a.key (mark "lid" a.lid end))))))

-- A call on the configuration: what it returns or raises, and the configuration after it.
abbrev pub Config : Type 0 → Type 0
Config A = Fields → Result A × Fields

infixl 5 ◌>>=◌
abbrev ◌>>=◌ : {A B : Type 0} → Config A → (A → Config B) → Config B
◌>>=◌ m f c = let (r, c') = m c in elim r [ ok a ↦ f a c' | err e ↦ (err e, c') ]

abbrev lift : {A : Type 0} → Result A → Config A
lift r c = (r, c)

-- `num(server.get(name, default), False)`, with the default for a `ValueError`.
read_number : String → ℕ → Config ℕ
unfolding num_or Storage.get
read_number name default = do
  v ← Storage.get name (number (pos default)) false
  lift (ok (num_or (some v) default))

-- `boolean(server.get(name, default, True))`
read_bool : String → Bool → Config Bool
unfolding bool_or Storage.get
read_bool name default = do
  v ← Storage.get name (boolean default) true
  lift (bool_or (some v) default)

-- `Ability.load(server, name)`
unfoldable pub load : String → Config Ability
unfolding read_number read_bool
load name = do
  blank ← read_number ("locker." ++ name ++ ".blank") default_locker_blank
  lock ← read_number ("locker." ++ name ++ ".lockscreen") default_locker_lock
  suspend ← read_number ("locker." ++ name ++ ".suspend") default_locker_suspend
  hibernate ← read_number ("locker." ++ name ++ ".hibernate") default_locker_hibernate
  lid ← read_bool ("locker." ++ name ++ ".lid") default_locker_lid
  key ← read_bool ("locker." ++ name ++ ".key") default_locker_key_lock
  lift (
      ok (record {
        lid = lid;
        key = key;
        lock = lock;
        blank = blank;
        suspend = suspend;
        hibernate = hibernate;
      }))
