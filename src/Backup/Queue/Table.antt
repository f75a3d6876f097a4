-- ===== src/Backup/Queue/Table.antt =====
-- usr/lib/smd/lib/modules/backup.py: the map of `Queue` and its entries belong together.
use spaceport.Base.{
  ℕ, ◌+◌, ◌≡◌, refl, ◌∙◌, String, Bool, true, false, Option, none, some, List, [], ◌∷◌, ◌++◌,
  if◌then◌else◌, str_eq, eq_iff, arith, ◌⊎◌, inl, inr, Bool-cases,
}
use spaceport.Base.Dict.{Dict, contains, insert, erase, lookup-insert, lookup-erase}
use spaceport.Value.{Value, Fields, Result, ok}
use spaceport.Backup.Plan.{Plan, is_match}
use spaceport.Backup.Queue.{
  Queue, Clock, Removed, is_false, is_none, removed, Wanted, front, back, no_place, fails, pop,
  is_empty, first_match, remove_entry, remove, add, wants, add_each, add_plans, place_plan,
  removed_from,
}

-- Is there an entry with an identifier?
abbrev pub has_uuid : String → List Plan → Bool
has_uuid uuid [] = false
has_uuid uuid (p ∷ ps) = let rest = has_uuid uuid ps in if str_eq p.uuid uuid then true else rest

-- No two entries with one identifier
abbrev pub Single : List Plan → Type 0
Single [] = Unit {0}
Single (p ∷ ps) = (has_uuid p.uuid ps ≡ false) × Single ps

-- The keys of the map are the identifiers of the entries, each of which has its own.
abbrev pub Fits : Dict Bool → List Plan → Type 0
Fits m ps = ((uuid : String) → contains uuid m ≡ has_uuid uuid ps) × Single ps

abbrev pub Proper : Queue → Type 0
Proper q = Fits q.map q.entries

contains-erase :
    (k j : String) (m : Dict Bool)
    → contains j (erase k m) ≡ (if str_eq k j then false else contains j m)
contains-erase k j m = ground (arith, lookup-erase k j m)

contains-insert :
    (k j : String) (m : Dict Bool)
    → contains j (insert k true m) ≡ (if str_eq k j then true else contains j m)
contains-insert k j m = ground (arith, lookup-insert k j true m)

has_uuid-append :
    (j : String) (p : Plan) (ps : List Plan)
    → has_uuid j (ps ++ p ∷ []) ≡ (if str_eq p.uuid j then true else has_uuid j ps)
has_uuid-append j p [] = refl
has_uuid-append j p (x ∷ ps) = ground (arith, has_uuid-append j p ps)

append-Single :
    (p : Plan) (ps : List Plan) → has_uuid p.uuid ps ≡ false → Single ps → Single (ps ++ p ∷ [])
append-Single p [] h s = (refl, tt)
append-Single p (x ∷ ps) h s = ground (
  arith,
  append-Single p ps,
  has_uuid-append x.uuid p ps,
  eq_iff x.uuid p.uuid,
  eq_iff p.uuid x.uuid,
)

pub tail_Fits :
    (p : Plan) (ps : List Plan) (m : Dict Bool) → Fits m (p ∷ ps) → Fits (erase p.uuid m) ps
tail_Fits p ps m f =
    (λ j. ground (arith, contains-erase p.uuid j m, f.0 j, f.1.0, eq_iff p.uuid j), f.1.1)

head_contained :
    (p : Plan) (ps : List Plan) (m : Dict Bool) → Fits m (p ∷ ps) → contains p.uuid m ≡ true
head_contained p ps m f = ground (arith, f.0 p.uuid, eq_iff p.uuid p.uuid)

absent :
    (p : Plan) (ps : List Plan) (m : Dict Bool)
    → Fits m ps
    → contains p.uuid m ≡ false
    → has_uuid p.uuid ps ≡ false
absent p ps m f h = ground (arith, f.0 p.uuid)

push_front :
    (p : Plan) (ps : List Plan) (m : Dict Bool)
    → Fits m ps
    → contains p.uuid m ≡ false
    → Fits (insert p.uuid true m) (p ∷ ps)
push_front p ps m f h =
    (λ j. ground (arith, contains-insert p.uuid j m, f.0 j), (absent p ps m f h, f.1))

push_back :
    (p : Plan) (ps : List Plan) (m : Dict Bool)
    → Fits m ps
    → contains p.uuid m ≡ false
    → Fits (insert p.uuid true m) (ps ++ p ∷ [])
push_back p ps m f h = (
  λ j. ground (
    arith,
    contains-insert p.uuid j m,
    has_uuid-append p.uuid p ps,
    has_uuid-append j p ps,
    f.0 j,
  ),
  append-Single p ps (absent p ps m f h) f.1,
)

-- `_add` keeps the map and the entries together.
pub add-Proper : (p : Plan) (first : Bool) (q : Queue) → Proper q → Proper (add p first q)
unfolding add
add-Proper p first q f = elim (Bool-cases (contains p.uuid q.map)) [
  | inl e ↦ rw e f
  | inr e ↦ elim (Bool-cases first) [
    | inl e' ↦ rw (e, e') (push_front p q.entries q.map f e)
    | inr e' ↦ rw (e, e') (push_back p q.entries q.map f e)
  ]
]

-- `next` on such a queue: the plan that it gives, the plans that are left, and no `KeyError`.
pub pop_ok :
    (p : Plan) (ps : List Plan) (m : Dict Bool)
    → Fits m (p ∷ ps)
    → pop p ps m ≡ ok (record { map = erase p.uuid m; entries = ps })
unfolding pop
pop_ok p ps m f = ground (arith, head_contained p ps m f)

placed-Proper :
    (w : Wanted) (p : Plan) (q : Queue) (n : ℕ) (k : Queue → ℕ → Result ℕ × Queue)
    → ((r : Queue) (m : ℕ) → Proper r → Proper (k r m).1)
    → Proper q
    → Proper (place_plan w p q n k).1
placed-Proper front p q n k h f = h (add p true q) (n + 1) (add-Proper p true q f)
placed-Proper back p q n k h f = h (add p false q) (n + 1) (add-Proper p false q f)
placed-Proper no_place p q n k h f = h q n f
placed-Proper (fails e) p q n k h f = f

add_each-Proper :
    (c : Clock) (state : Fields) (path : Value) (running : Option String) (ps : List Plan)
    (q : Queue) (n : ℕ)
    → Proper q
    → Proper (add_each c state path running ps q n).1
unfolding add_each
add_each-Proper c state path running [] q n f = f
add_each-Proper c state path running (p ∷ ps) q n f =
    placed-Proper (wants c state path running p) p q n (add_each c state path running ps)
      (λ r m g. add_each-Proper c state path running ps r m g) f

-- `add_plans` keeps the map and the entries together, whichever plan it stops at.
pub add_plans-Proper :
    (c : Clock) (state : Fields) (path : Value) (running : Option String) (ps : List Plan)
    (q : Queue)
    → Proper q
    → Proper (add_plans c state path running ps q).1
unfolding add_plans
add_plans-Proper c state path running [] q f = f
add_plans-Proper c state path running (p ∷ ps) q f =
    add_each-Proper c state path running (p ∷ ps) q 0 f

some_uuid : (x p : Plan) → some x ≡ some p → x.uuid ≡ p.uuid
some_uuid x p h = cc

-- The first match of a queue is its first entry, or the first match of the others.
first_match_cases :
    (path : Value) (x : Plan) (ps : List Plan) (p : Plan)
    → first_match path (x ∷ ps) ≡ some p
    → (is_match path x ≡ true) × (x.uuid ≡ p.uuid)
      ⊎ (is_match path x ≡ false) × (first_match path ps ≡ some p)
unfolding first_match
first_match_cases path x ps p h = elim (Bool-cases (is_match path x)) [
  | inl e ↦ inl (e, some_uuid x p (rw e at h))
  | inr e ↦ inr (e, rw e at h)
]

first_match-has_uuid :
    (path : Value) (ps : List Plan) (p : Plan)
    → first_match path ps ≡ some p
    → has_uuid p.uuid ps ≡ true
unfolding first_match
first_match-has_uuid path [] p h = cc
first_match-has_uuid path (x ∷ ps) p h =
    ground
      (arith, first_match_cases path x ps p h, eq_iff x.uuid p.uuid, first_match-has_uuid path ps p)

has_uuid-remove_entry :
    (path : Value) (ps : List Plan) (p : Plan) (j : String)
    → first_match path ps ≡ some p
    → Single ps
    → has_uuid j (remove_entry path ps) ≡ (if str_eq p.uuid j then false else has_uuid j ps)
unfolding first_match remove_entry
has_uuid-remove_entry path [] p j h s = cc
has_uuid-remove_entry path (x ∷ ps) p j h s = ground (
  arith,
  first_match_cases path x ps p h,
  eq_iff x.uuid p.uuid,
  eq_iff x.uuid j,
  eq_iff p.uuid j,
  first_match-has_uuid path ps p,
  has_uuid-remove_entry path ps p j,
)

has_uuid-remove_entry_absent :
    (path : Value) (ps : List Plan) (j : String)
    → has_uuid j ps ≡ false
    → has_uuid j (remove_entry path ps) ≡ false
unfolding remove_entry
has_uuid-remove_entry_absent path [] j h = refl
has_uuid-remove_entry_absent path (x ∷ ps) j h =
    ground (arith, has_uuid-remove_entry_absent path ps j)

remove_entry-Single : (path : Value) (ps : List Plan) → Single ps → Single (remove_entry path ps)
unfolding remove_entry
remove_entry-Single path [] s = s
remove_entry-Single path (x ∷ ps) s =
    ground (arith, remove_entry-Single path ps s.1, has_uuid-remove_entry_absent path ps x.uuid s.0)

removed-Fits :
    (path : Value) (ps : List Plan) (p : Plan) (m : Dict Bool)
    → first_match path ps ≡ some p
    → Fits m ps
    → Fits (erase p.uuid m) (remove_entry path ps)
removed-Fits path ps p m h f = (
  λ j. ground (arith, contains-erase p.uuid j m, f.0 j, has_uuid-remove_entry path ps p j h f.1),
  remove_entry-Single path ps f.1,
)

-- What `remove` gives for the entry that is meant.
abbrev pub found_entry : Option Plan → Removed
found_entry none = is_none
found_entry (some p) = removed p

removed_from-Proper :
    (path : Value) (q : Queue) (o : Option Plan)
    → first_match path q.entries ≡ o
    → Proper q
    → ((removed_from path q o).0 ≡ ok (found_entry o)) × Proper (removed_from path q o).1
removed_from-Proper path q none h f = (refl, (f.0, f.1))
removed_from-Proper path q (some p) h f =
    rw (f.0 p.uuid ∙ first_match-has_uuid path q.entries p h)
      (let g = removed-Fits path q.entries p q.map h f in (refl, (g.0, g.1)))

-- `remove` keeps the map and the entries together, and does not raise: it gives False for an empty queue,
-- and else the first entry that has the path or the identifier, or None where none has.
pub remove-Proper :
    (path : Value) (q : Queue)
    → Proper q
    → ((remove path q).0
        ≡ ok (if is_empty q then is_false else found_entry (first_match path q.entries)))
      × Proper (remove path q).1
unfolding remove
remove-Proper path q f = elim (Bool-cases (is_empty q)) [
  | inl e ↦ rw e (refl, (f.0, f.1))
  | inr e ↦ rw e (removed_from-Proper path q (first_match path q.entries) refl f)
]
