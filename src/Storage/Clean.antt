-- ===== src/Storage/Clean.antt =====
-- usr/lib/smd/lib/structs/storage.py: the names that a `Flex` can hold, and its calls in sequence. The mark
-- `_ro` is what a name of one underscore stands for.
use spaceport.Base.{
  String, Bool, true, false, not, ◌||◌, ◌≡◌, List, [], ◌∷◌, arith, str_eq, if◌then◌else◌,
  Bool-cases, inl, inr,
}
use spaceport.Value.{Value, null, boolean, dict, Fields, end, field, Result, get_or_null, set_field}
use spaceport.Storage.{
  Mode, is_reserved, update, last_step, enter, access_path, access, get, set, set_item, split_dots,
  walk,
}
use spaceport.Storage.Paths.{writing, reading, access_path_reads}

-- A name that a dictionary may hold at its top.
abbrev pub is_clean : String → Bool
is_clean k = not (is_reserved k) || str_eq k "_ro"

abbrev pub IsClean : Fields → Type 0
IsClean end = Unit {0}
IsClean (field k _ d) = (is_clean k ≡ true) × IsClean d

set_field-IsClean :
    (k : String) (v : Value) (d : Fields)
    → is_clean k ≡ true
    → IsClean d
    → IsClean (set_field k v d)
set_field-IsClean k v end c h = (c, tt)
set_field-IsClean k v (field j w d) c h = ground (arith, set_field-IsClean k v d c h.1)

update-IsClean : (d e : Fields) → IsClean d → IsClean (update d e)
unfolding update
update-IsClean d end h = h
update-IsClean d (field k v e) h =
    update-IsClean
      (if str_eq k "_"
        then set_field "_ro" (boolean true) d
        else if is_reserved k
        then d
        else set_field k v d)
      e (ground (arith, set_field-IsClean "_ro" (boolean true) d, set_field-IsClean k v d))

enter-IsClean :
    (m : Mode) (k : String) (ks : List String) (v n : Value) (d : Fields)
    (below : Fields → Result Value × Fields)
    → is_clean k ≡ true
    → IsClean d
    → IsClean (enter m k ks v n d below).1
enter-IsClean m k ks v null d below c h =
    ground (arith, set_field-IsClean k (dict (below end).1) d c h)
enter-IsClean m k ks v (dict n) d below c h = set_field-IsClean k (dict (below n).1) d c h
enter-IsClean m k ks v _ d below c h = h

walk-IsClean :
    (m : Mode) (k : String) (ks : List String) (v : Value) (d : Fields)
    → is_clean k ≡ true
    → IsClean d
    → IsClean (walk m (k ∷ ks) v d).1
unfolding walk last_step
walk-IsClean m k [] v d c h = ground (arith, set_field-IsClean k v d c h)
walk-IsClean m k (k' ∷ ks) v d c h =
    enter-IsClean m k (k' ∷ ks) v (get_or_null k d) d (walk m (k' ∷ ks) v) c h

unreserved : (k : String) → is_reserved k ≡ false → is_clean k ≡ true
unreserved k h = ground arith

set_path-IsClean :
    (ks : List String) (v : Value) (d : Fields) → IsClean d → IsClean (access_path writing ks v d).1
unfolding access_path
set_path-IsClean [] v d h = h
set_path-IsClean (k ∷ []) v d h = elim (Bool-cases (is_reserved k)) [
  | inl bad ↦ rw bad h
  | inr good ↦ rw good (walk-IsClean writing k [] v d (unreserved k good) h)
]
set_path-IsClean (k ∷ k' ∷ ks) v d h = elim (Bool-cases (is_reserved k)) [
  | inl bad ↦ rw bad h
  | inr good ↦ rw good (walk-IsClean writing k (k' ∷ ks) v d (unreserved k good) h)
]

-- A name that is there is not written, and one that is not is held to the reserved names.
create_plain-IsClean :
    (k : String) (v : Value) (d : Fields)
    → IsClean d
    → IsClean (access_path (reading true) (k ∷ []) v d).1
unfolding access_path
create_plain-IsClean k v d h = ground (arith, set_field-IsClean k v d, unreserved k)

get_path-IsClean :
    (s : Bool) (ks : List String) (v : Value) (d : Fields)
    → IsClean d
    → IsClean (access_path (reading s) ks v d).1
unfolding access_path
get_path-IsClean false ks v d h = rw (access_path_reads ks v d) h
get_path-IsClean true [] v d h = h
get_path-IsClean true (k ∷ []) v d h = create_plain-IsClean k v d h
get_path-IsClean true (k ∷ k' ∷ ks) v d h = elim (Bool-cases (is_reserved k)) [
  | inl bad ↦ rw bad h
  | inr good ↦ rw good (walk-IsClean (reading true) k (k' ∷ ks) v d (unreserved k good) h)
]

-- The calls that can change a dictionary, from the code that uses it.
pub data Call : Type 0 where
  set_call : String → Value → Call
  set_item_call : String → Value → Call
  get_call : String → Value → Bool → Call
  update_call : Fields → Call

unfoldable pub apply : Call → Fields → Fields
apply (set_call name v) d = (set name v d).1
apply (set_item_call name v) d = (set_item name v d).1
apply (get_call name v s) d = (get name v s d).1
apply (update_call e) d = update d e

unfoldable pub apply_all : List Call → Fields → Fields
unfolding apply
apply_all [] d = d
apply_all (c ∷ cs) d = apply_all cs (apply c d)

apply-IsClean : (c : Call) (d : Fields) → IsClean d → IsClean (apply c d)
unfolding apply set get set_item access
apply-IsClean (set_call name v) d h = set_path-IsClean (split_dots name) v d h
apply-IsClean (set_item_call name v) d h = ground (arith, set_path-IsClean (split_dots name) v d h)
apply-IsClean (get_call name v s) d h = get_path-IsClean s (split_dots name) v d h
apply-IsClean (update_call e) d h = update-IsClean d e h

-- Whatever calls are made on a dictionary without a reserved name, it never gets one: its names at the
-- top stay free for attributes, but for the mark `_ro`.
pub apply_all-IsClean : (cs : List Call) (d : Fields) → IsClean d → IsClean (apply_all cs d)
unfolding apply_all
apply_all-IsClean [] d h = h
apply_all-IsClean (c ∷ cs) d h = apply_all-IsClean cs (apply c d) (apply-IsClean c d h)
