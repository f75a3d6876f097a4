-- ===== src/Storage.antt =====
-- usr/lib/smd/lib/structs/storage.py: the `Flex` dictionary under every configuration file and
-- message, with dotted paths into nested dicts. A method returns what Python returns or raises, and
-- the dictionary as it then is. Names that are not texts are left out: JSON has none.
pub mod Paths
pub mod Clean
use Prim.Native.Char.{code}
use Prim.Native.String.{◌++◌}
use spaceport.Base.{
  String, Bool, true, false, not, ◌&&◌, ◌||◌, List, [], ◌∷◌, ◌==◌, if◌then◌else◌, str_eq, codes,
  any,
}
use spaceport.Value.{
  Value, null, boolean, dict, arr, text, Fields, end, field, Result, ok, err, value_error,
  type_error, attribute_error, get_or_null, has_field, set_field, any_text, is_substring, truthy,
  Exn,
}

-- `_INTERNAL`
abbrev pub internal_names : List String
internal_names =
    "get" ∷ "set" ∷ "uid" ∷ "pid" ∷ "path" ∷ "send" ∷ "recv" ∷ "save" ∷ "load" ∷ "keys" ∷ "items"
    ∷ "update" ∷ "header" ∷ "values" ∷ "forward" ∷ "is_error" ∷ "multicast" ∷ "is_forward"
    ∷ "set_forward" ∷ "is_multicast" ∷ "set_multicast" ∷ "is_same_client" ∷ []

-- `Flex.__reserved`
unfoldable pub is_reserved : String → Bool
is_reserved String.[] = false
is_reserved (String.◌∷◌ c s) = code c == b'_' || any (str_eq (String.◌∷◌ c s)) internal_names

put_char : String → List String → List String
put_char c [] = c ∷ []
put_char c (s ∷ rest) = (c ++ s) ∷ rest

-- `name.split(".")`: never empty, and one part when there is no dot.
unfoldable pub split_dots : String → List String
unfolding put_char
split_dots String.[] = "" ∷ []
split_dots (String.◌∷◌ c s) =
    let rest = split_dots s in
    if code c == b'.' then "" ∷ rest else put_char (String.◌∷◌ c String.[]) rest

-- `Flex.update`: reserved names are dropped, and a name of one underscore marks the dictionary as
-- read only.
unfoldable pub update : Fields → Fields → Fields
update self end = self
update self (field k v rest) =
    update
      (if str_eq k "_"
        then set_field "_ro" (boolean true) self
        else if is_reserved k
        then self
        else set_field k v self)
      rest

-- What a call `__get(name, value, set, set_non_exist)` is to do.
pub record Mode : Type 0 where
  pub set : Bool
  pub set_non_exist : Bool

abbrev pub writes : Mode → Bool
writes m = m.set || m.set_non_exist

-- The last step of a path, where the parent is a dict.
unfoldable pub last_step : Mode → String → Value → Fields → Result Value × Fields
last_step m k value d =
    if m.set
    then (ok value, set_field k value d)
    else if has_field k d
    then (ok (get_or_null k d), d)
    else if m.set_non_exist
    then (ok value, set_field k value d)
    else (ok value, d)

-- A parent with `__contains__` and no `get`: what its answer leads to. `refused` is what its
-- `__setitem__` raises.
abbrev pub opaque_parent : Mode → Exn → Bool → Value → Result Value
opaque_parent m refused found value =
    if m.set
    then err refused
    else if found
    then err attribute_error
    else if m.set_non_exist
    then err refused
    else ok value

-- The last step of a path, where the parent is not a dict.
unfoldable pub last_step_other : Mode → String → Value → Value → Result Value
last_step_other m k value (arr items) = opaque_parent m type_error (any_text k items) value
last_step_other m k value (text s) =
    opaque_parent m attribute_error (is_substring (codes k) (codes s)) value
last_step_other m k value _ = err attribute_error

-- What is done below a field whose value is not a dict: `None` is replaced by a new dict when the
-- call may write, and all but the last step need a `get` that only dicts have.
unfoldable pub step_other : Mode → List String → Value → Value → Result Value
unfolding last_step_other
step_other m [] value n = ok value
step_other m (k ∷ []) value n = last_step_other m k value n
step_other m (k ∷ _ ∷ _) value n = err attribute_error

-- A step from a field with the value `n` into the rest of the path: `below` is the walk there.
abbrev pub enter :
    Mode
    → String
    → List String
    → Value
    → Value
    → Fields
    → (Fields → Result Value × Fields)
    → Result Value × Fields
enter m k ks value null d below =
    let (r, inner) = below end in
    if writes m then (r, set_field k (dict inner) d) else (ok value, d)
enter m k ks value (dict n) d below = let (r, inner) = below n in (r, set_field k (dict inner) d)
enter m k ks value other d below = (step_other m ks value other, d)

-- The walk of `__get` along a path, from its first name on.
unfoldable pub walk : Mode → List String → Value → Fields → Result Value × Fields
walk m [] value d = (ok value, d)
walk m (k ∷ []) value d = last_step m k value d
walk m (k ∷ k' ∷ ks) value d =
    enter m k (k' ∷ ks) value (get_or_null k d) d (walk m (k' ∷ ks) value)

-- `v[0]` of a path.
abbrev pub first_name : List String → String
first_name [] = ""
first_name (k ∷ _) = k

-- `Flex.__get` on the parts of a name: only a call that writes is held to the reserved names, and
-- with `set_non_exist` alone a name with no dot that is there is not.
unfoldable pub access_path : Mode → List String → Value → Fields → Result Value × Fields
unfolding is_reserved walk last_step step_other last_step_other
access_path m (k ∷ []) value d =
    if (m.set || m.set_non_exist && not (has_field k d)) && is_reserved k
    then (err value_error, d)
    else walk m (k ∷ []) value d
access_path m path value d =
    if writes m && is_reserved (first_name path) then (err value_error, d) else walk m path value d

-- `Flex.__get`; a name with no dot is its own only part.
unfoldable pub access : Mode → String → Value → Fields → Result Value × Fields
unfolding split_dots access_path
access m name = access_path m (split_dots name)

-- `get(name, default, set_non_exist)`
unfoldable pub get : String → Value → Bool → Fields → Result Value × Fields
unfolding access
get name default set_non_exist =
    access (record { set = false; set_non_exist = set_non_exist }) name default

-- `set(name, value)`
unfoldable pub set : String → Value → Fields → Result Value × Fields
unfolding access
set name value = access (record { set = true; set_non_exist = false }) name value

-- `self[name] = value`: a reserved name is refused before the path is looked at.
unfoldable pub set_item : String → Value → Fields → Result Value × Fields
unfolding set is_reserved
set_item name value d = if is_reserved name then (err value_error, d) else set name value d

-- `self[name]`
unfoldable pub get_item : String → Fields → Result Value × Fields
unfolding get
get_item name = get name null false

-- `Flex.load` of what `read_json` returned: the test of `errors` decides between `False` and an error.
unfoldable pub load : Value → Bool → Fields → Result Bool × Fields
unfolding update
load (dict loaded) errors d = (ok true, update d loaded)
load _ errors d = (if errors then ok false else err value_error, d)

-- `del self.name` for a name with no attribute: `del` of an item of a method raises.
unfoldable pub del_attr : String → Fields → Result Bool × Fields
unfolding is_reserved
del_attr name d = (if is_reserved name then err attribute_error else err type_error, d)

-- `Storage.is_read_only`
unfoldable pub is_read_only : Fields → Bool
is_read_only d = truthy (get_or_null "_ro" d)
