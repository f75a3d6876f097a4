-- ===== src/Storage/Paths.antt =====
-- usr/lib/smd/lib/structs/storage.py: dotted paths of a `Flex`, written and read.
use spaceport.Base.{
  String, Bool, true, false, not, ◌&&◌, ◌||◌, if◌then◌else◌, ◌≡◌, refl, ◌≢◌, List, [], ◌∷◌, some,
  arith, inl, inr, Bool-cases, eq_iff,
}
use spaceport.Value.{
  Value, null, arr, dict, Fields, end, field, Result, ok, err, get_field, get_or_null, has_field,
  set_field, Exn, value_error,
}
use spaceport.Value.Laws.{get_field-set_field_self, get_field-set_field_ne}
use spaceport.Storage.{
  Mode, writes, last_step, last_step_other, step_other, enter, walk, put_char, split_dots,
  first_name, is_reserved, access_path, access, get, set,
}

set_field_same :
    (k : String) (v : Value) (d : Fields) → get_field k d ≡ some v → set_field k v d ≡ d
set_field_same k v end h = cc
set_field_same k v (field j w d) h = ground (arith, eq_iff j k, set_field_same k v d)

and_false : (b : Bool) → (b && false) ≡ false
and_false true = refl
and_false false = refl

-- The modes of `set` and of `get`.
abbrev pub writing : Mode
writing = record { set = true; set_non_exist = false }

abbrev pub reading : Bool → Mode
reading s = record { set = false; set_non_exist = s }

-- A walk that is to write cannot pass a field that is no dict.
step_other-writing :
    (k : String) (ks : List String) (v n r : Value)
    → (n ≡ null → ⊥)
    → ((d : Fields) → n ≡ dict d → ⊥)
    → step_other writing (k ∷ ks) v n ≢ ok r
unfolding step_other last_step_other
step_other-writing k [] v (arr x) r p q = ground arith
step_other-writing k [] v _ r p q = ground arith
step_other-writing k (_ ∷ _) v n r p q = ground arith

-- A field set to a dict holds that dict, and setting it again to the same changes nothing.
set_dict :
    (k : String) (inner d : Fields)
    → (get_or_null k (set_field k (dict inner) d) ≡ dict inner)
      × (set_field k (dict inner) (set_field k (dict inner) d) ≡ set_field k (dict inner) d)
set_dict k inner d =
    let held = get_field-set_field_self k (dict inner) d in
    (rw (get_or_null, held), set_field_same k (dict inner) (set_field k (dict inner) d) held)

module _ (s : Bool) (k k' : String) (ks : List String) (v w : Value)
    (below below' : Fields → Result Value × Fields)
    (again : (d : Fields) → (below d).0 ≡ ok v → below' (below d).1 ≡ (ok v, (below d).1)) where
  into_dict :
      (inner d : Fields)
      → (below inner).0 ≡ ok v
      → let d' = set_field k (dict (below inner).1) d in
        enter (reading s) k (k' ∷ ks) w (get_or_null k d') d' below' ≡ (ok v, d')
  into_dict inner d h =
      rw ((set_dict k (below inner).1 d).0, again inner h, (set_dict k (below inner).1 d).1)

  enter-enter :
      (n : Value) (d : Fields)
      → (enter writing k (k' ∷ ks) v n d below).0 ≡ ok v
      → let d' = (enter writing k (k' ∷ ks) v n d below).1 in
        enter (reading s) k (k' ∷ ks) w (get_or_null k d') d' below' ≡ (ok v, d')
  enter-enter null d h = into_dict end d h
  enter-enter (dict n) d h = into_dict n d h
  enter-enter (arr n) d h = absurd (step_other-writing k' ks v (arr n) v (λ e. cc) (λ x e. cc) h)
  enter-enter n d h = absurd (step_other-writing k' ks v n v (λ e. cc) (λ x e. cc) h)

-- After a walk that wrote a value, the same walk reads it, and changes nothing.
walk-walk :
    (s : Bool) (ks : List String) (k : String) (v w : Value) (d : Fields)
    → (walk writing (k ∷ ks) v d).0 ≡ ok v
    → walk (reading s) (k ∷ ks) w (walk writing (k ∷ ks) v d).1
      ≡ (ok v, (walk writing (k ∷ ks) v d).1)
unfolding walk last_step
walk-walk s [] k v w d h = ground (arith, get_field-set_field_self k v d)
walk-walk s (k' ∷ ks) k v w d h =
    enter-enter s k k' ks v w (walk writing (k' ∷ ks) v) (walk (reading s) (k' ∷ ks) w)
      (λ inner. walk-walk s ks k' v w inner) (get_or_null k d) d h

dict_held : (k : String) (n d : Fields) → get_or_null k d ≡ dict n → get_field k d ≡ some (dict n)
dict_held k n d h = ground arith

-- A path that is read with no leave to write changes nothing, whatever it meets.
enter-reads :
    (k : String) (ks : List String) (w n : Value) (d : Fields)
    (below : Fields → Result Value × Fields)
    → ((inner : Fields) → (below inner).1 ≡ inner)
    → get_or_null k d ≡ n
    → (enter (reading false) k ks w n d below).1 ≡ d
enter-reads k ks w null d below same e = refl
enter-reads k ks w (dict n) d below same e =
    rw (same n) (set_field_same k (dict n) d (dict_held k n d e))
enter-reads k ks w _ d below same e = refl

walk_reads : (ks : List String) (w : Value) (d : Fields) → (walk (reading false) ks w d).1 ≡ d
unfolding walk last_step
walk_reads [] w d = refl
walk_reads (k ∷ []) w d = ground arith
walk_reads (k ∷ k' ∷ ks) w d =
    enter-reads k (k' ∷ ks) w (get_or_null k d) d (walk (reading false) (k' ∷ ks) w)
      (walk_reads (k' ∷ ks) w) refl

-- In an empty dict a walk that writes meets nothing in its way.
walk-end : (k : String) (ks : List String) (v : Value) → (walk writing (k ∷ ks) v end).0 ≡ ok v
unfolding walk last_step
walk-end k [] v = refl
walk-end k (k' ∷ ks) v = walk-end k' ks v

enter_refused :
    (k k' : String) (ks : List String) (v n : Value) (e : Exn) (d : Fields)
    (below : Fields → Result Value × Fields)
    → (below end).0 ≡ ok v
    → ((inner : Fields) → (below inner).0 ≡ err e → (below inner).1 ≡ inner)
    → get_or_null k d ≡ n
    → (enter writing k (k' ∷ ks) v n d below).0 ≡ err e
    → (enter writing k (k' ∷ ks) v n d below).1 ≡ d
enter_refused k k' ks v null e d below fresh same q h = cc
enter_refused k k' ks v (dict n) e d below fresh same q h =
    rw (same n h) (set_field_same k (dict n) d (dict_held k n d q))
enter_refused k k' ks v _ e d below fresh same q h = refl

walk_refused :
    (k : String) (ks : List String) (v : Value) (e : Exn) (d : Fields)
    → (walk writing (k ∷ ks) v d).0 ≡ err e
    → (walk writing (k ∷ ks) v d).1 ≡ d
unfolding walk last_step
walk_refused k [] v e d h = cc
walk_refused k (k' ∷ ks) v e d h =
    enter_refused k k' ks v (get_or_null k d) e d (walk writing (k' ∷ ks) v) (walk-end k' ks v)
      (λ inner. walk_refused k' ks v e inner) refl h

enter_others :
    (m : Mode) (k j : String) (ks : List String) (v n : Value) (d : Fields)
    (below : Fields → Result Value × Fields)
    → k ≢ j
    → get_field j (enter m k ks v n d below).1 ≡ get_field j d
enter_others m k j ks v null d below ne =
    ground (arith, get_field-set_field_ne k j (dict (below end).1) d ne)
enter_others m k j ks v (dict n) d below ne = get_field-set_field_ne k j (dict (below n).1) d ne
enter_others m k j ks v _ d below ne = refl

walk_others :
    (m : Mode) (ks : List String) (j : String) (v : Value) (d : Fields)
    → first_name ks ≢ j
    → get_field j (walk m ks v d).1 ≡ get_field j d
unfolding walk last_step
walk_others m [] j v d ne = refl
walk_others m (k ∷ []) j v d ne = ground (arith, get_field-set_field_ne k j v d ne)
walk_others m (k ∷ k' ∷ ks) j v d ne =
    enter_others m k j (k' ∷ ks) v (get_or_null k d) d (walk m (k' ∷ ks) v) ne

set_last_read :
    (s : Bool) (k : String) (v w : Value) (d : Fields)
    → last_step (reading s) k w (set_field k v d) ≡ (ok v, set_field k v d)
unfolding last_step
set_last_read s k v w d = ground (arith, get_field-set_field_self k v d)

access_path-access_path :
    (s : Bool) (ks : List String) (v w : Value) (d : Fields)
    → ks ≢ []
    → (access_path writing ks v d).0 ≡ ok v
    → access_path (reading s) ks w (access_path writing ks v d).1
      ≡ (ok v, (access_path writing ks v d).1)
unfolding access_path
access_path-access_path s [] v w d ne h = absurd (ne refl)
access_path-access_path s (k ∷ []) v w d ne h = elim (Bool-cases (is_reserved k)) [
  | inl bad ↦ absurd (ground arith)
  | inr good ↦
      rw (good, and_false (s && not (has_field k (set_field k v d)))) (set_last_read s k v w d)
]
access_path-access_path s (k ∷ k' ∷ ks) v w d ne h = elim (Bool-cases (is_reserved k)) [
  | inl bad ↦ absurd (ground arith)
  | inr good ↦ rw (good, and_false s) (walk-walk s (k' ∷ ks) k v w d (rw good at h))
]

put_char-ne-nil : (c : String) (l : List String) → put_char c l ≢ []
unfolding put_char
put_char-ne-nil c [] = λ e. cc
put_char-ne-nil c (x ∷ l) = λ e. cc

pub split_dots-ne-nil : (name : String) → split_dots name ≢ []
unfolding split_dots
split_dots-ne-nil String.[] = λ e. cc
split_dots-ne-nil (String.◌∷◌ c s) =
    ground (arith, put_char-ne-nil (String.◌∷◌ c String.[]) (split_dots s))

pub access_path_reads :
    (ks : List String) (w : Value) (d : Fields) → (access_path (reading false) ks w d).1 ≡ d
unfolding access_path
access_path_reads [] w d = refl
access_path_reads (k ∷ []) w d = ground arith
access_path_reads (k ∷ k' ∷ ks) w d = walk_reads (k ∷ k' ∷ ks) w d

access_path_refused :
    (ks : List String) (v : Value) (e : Exn) (d : Fields)
    → (access_path writing ks v d).0 ≡ err e
    → (access_path writing ks v d).1 ≡ d
unfolding access_path
access_path_refused [] v e d h = refl
access_path_refused (k ∷ []) v e d h = ground arith
access_path_refused (k ∷ k' ∷ ks) v e d h = elim (Bool-cases (is_reserved k)) [
  | inl bad ↦ rw bad
  | inr good ↦ rw good (walk_refused k (k' ∷ ks) v e d (rw good at h))
]

unless_refused :
    (b : Bool) (j : String) (d : Fields) (r : Result Value × Fields)
    → get_field j r.1 ≡ get_field j d
    → get_field j (if b then (err value_error, d) else r).1 ≡ get_field j d
unless_refused true j d r h = refl
unless_refused false j d r h = h

access_path_others :
    (m : Mode) (ks : List String) (j : String) (v : Value) (d : Fields)
    → first_name ks ≢ j
    → get_field j (access_path m ks v d).1 ≡ get_field j d
unfolding access_path
access_path_others m [] j v d ne = unless_refused (writes m && is_reserved "") j d (ok v, d) refl
access_path_others m (k ∷ []) j v d ne =
    unless_refused ((m.set || m.set_non_exist && not (has_field k d)) && is_reserved k) j d
      (walk m (k ∷ []) v d) (walk_others m (k ∷ []) j v d ne)
access_path_others m (k ∷ k' ∷ ks) j v d ne =
    unless_refused (writes m && is_reserved k) j d (walk m (k ∷ k' ∷ ks) v d)
      (walk_others m (k ∷ k' ∷ ks) j v d ne)

-- A value that `set` stores under a name, with dots or without, is what `get` then returns, whatever
-- the default and the mode; and that `get` changes nothing.
pub get-set :
    (name : String) (v w : Value) (s : Bool) (d : Fields)
    → (set name v d).0 ≡ ok v
    → get name w s (set name v d).1 ≡ (ok v, (set name v d).1)
unfolding get set access
get-set name v w s d h =
    access_path-access_path s (split_dots name) v w d (split_dots-ne-nil name) h

-- A `get` that is not to create the name changes nothing, whatever the path meets.
get_unchanged : (name : String) (v : Value) (d : Fields) → (get name v false d).1 ≡ d
unfolding get access
get_unchanged name v d = access_path_reads (split_dots name) v d

-- A `set` that raises has changed nothing.
failed_set_unchanged :
    (name : String) (v : Value) (e : Exn) (d : Fields)
    → (set name v d).0 ≡ err e
    → (set name v d).1 ≡ d
unfolding set access
failed_set_unchanged name v e d h = access_path_refused (split_dots name) v e d h

-- Neither `set` nor `get`, in any mode, touches a field of the dictionary other than the one that
-- the first part of the name gives.
set-others :
    (name j : String) (v : Value) (s : Bool) (d : Fields)
    → first_name (split_dots name) ≢ j
    → (get_field j (set name v d).1 ≡ get_field j d)
      × (get_field j (get name v s d).1 ≡ get_field j d)
unfolding get set access
set-others name j v s d ne = (
  access_path_others writing (split_dots name) j v d ne,
  access_path_others (reading s) (split_dots name) j v d ne,
)
