-- ===== src/Backup/Queue/Choice.antt =====
-- usr/lib/smd/lib/modules/backup.py: which plan `Queue.next` gives, and what it leaves.
use spaceport.Base.{
  ◌≡◌, refl, String, Bool, true, false, Option, none, some, List, [], ◌∷◌, if◌then◌else◌,
}
use spaceport.Base.Dict.{Dict, erase}
use spaceport.Value.{Value, Fields, Result, ok, err}
use spaceport.Backup.Plan.{Plan}
use spaceport.Backup.Queue.{
  Queue, Clock, Verdict, take, skip, raises, obey, verdict, next_from, next, remove, add_plans,
}
use spaceport.Backup.Queue.Table.{Fits, Proper, tail_Fits, pop_ok, add_plans-Proper, remove-Proper}

abbrev pub is_skip : Verdict → Bool
is_skip skip = true
is_skip _ = false

-- The plans from the first on that is not passed over.
abbrev pub after_skipped : (Plan → Verdict) → List Plan → List Plan
after_skipped f [] = []
after_skipped f (p ∷ ps) = let rest = after_skipped f ps in if is_skip (f p) then rest else p ∷ ps

-- What the first of them is: the plan that is taken, or the exception that its verdict is.
abbrev pub first_verdict : (Plan → Verdict) → List Plan → Result (Option Plan)
first_verdict f [] = ok none
first_verdict f (p ∷ ps) = elim (f p) as (λ _. Result (Option Plan)) [
  | take ↦ ok (some p)
  | skip ↦ ok none
  | raises e ↦ err e
]

abbrev pub rest_of : List Plan → List Plan
rest_of [] = []
rest_of (p ∷ ps) = ps

-- A result of `next` is the first verdict that is no `skip`, and the plans behind it are left.
abbrev pub Chosen : (Plan → Verdict) → List Plan → Result (Option Plan) × Queue → Type 0
Chosen f ps r =
    (r.0 ≡ first_verdict f (after_skipped f ps))
    × (r.1.entries ≡ rest_of (after_skipped f ps))
    × Proper r.1

module _ (c : Clock) (state : Fields) (path : Value) (force : Bool) where
  step_Chosen :
      (p : Plan) (ps : List Plan) (m : Dict Bool) (v : Verdict)
      (rest : Result (Option Plan) × Queue)
      → verdict c state path force p ≡ v
      → Fits m ps
      → Chosen (verdict c state path force) ps rest
      → Chosen
          (verdict c state path force)
          (p ∷ ps)
          (obey v p (record { map = m; entries = ps }) rest)
  step_Chosen p ps m take rest e f h = rw e (rw (e, first_verdict) refl, refl, f)
  step_Chosen p ps m skip rest e f h = rw e h
  step_Chosen p ps m (raises x) rest e f h = rw e (rw (e, first_verdict) refl, refl, f)

  next_from-Chosen :
      (ps : List Plan) (m : Dict Bool)
      → Fits m ps
      → Chosen (verdict c state path force) ps (next_from c state path force ps m)
  unfolding next_from
  next_from-Chosen [] m f = (refl, refl, f)
  next_from-Chosen (p ∷ ps) m f = rw (pop_ok p ps m f) (
      step_Chosen p ps (erase p.uuid m) (verdict c state path force p)
        (next_from c state path force ps (erase p.uuid m)) refl (tail_Fits p ps m f)
        (next_from-Chosen ps (erase p.uuid m) (tail_Fits p ps m f)))

  -- `next` of a queue whose map has the identifiers of its entries gives the first plan that it does not pass
  -- over, or the exception of the first that raises one, and leaves exactly the plans behind it, with their
  -- identifiers in the map; it never meets an identifier that is missing.
  pub next-Chosen :
      (q : Queue)
      → Proper q
      → Chosen (verdict c state path force) q.entries (next c state path force q)
  unfolding next
  next-Chosen q f = next_from-Chosen q.entries q.map f

-- Whatever is added, taken or removed, by whatever call and with whatever outcome, the keys of the map of a queue
-- stay the identifiers of its entries, each of which has its own.
pub queue-Proper :
    (c : Clock) (state : Fields) (path : Value) (force : Bool) (running : Option String)
    (ps : List Plan) (q : Queue)
    → Proper q
    → Proper (add_plans c state path running ps q).1
      × Proper (next c state path force q).1
      × Proper (remove path q).1
queue-Proper c state path force running ps q f = (
  add_plans-Proper c state path running ps q f,
  (next-Chosen c state path force q f).2,
  (remove-Proper path q f).1,
)
