-- ===== src/Backup/Job/Count.antt =====
-- usr/lib/smd/lib/modules/backup.py: how the backups of a plan are counted, by `Plan.incremental` when one is
-- chosen and by `Backup.save` when it is over.
use spaceport.Base.{
  ℕ, ◌+◌, ◌≡◌, refl, ap, ◌∙◌, String, Bool, ◌||◌, some, if◌then◌else◌, arith, inl, inr, Bool-cases,
}
use spaceport.Base.Int.{pos}
use spaceport.Value.{Value, dict, number, Fields, Result, ok, get_field, set_field}
use spaceport.Value.Laws.{get_field-set_field_self}
use spaceport.Value.Do.{◌>>=◌}
use spaceport.Backup.Schedule.{is_full}
use spaceport.Backup.Plan.{Plan, entry_count, count_of, incremental, counted, put_count}
use spaceport.Backup.Job.State.{Backup}
use spaceport.Backup.Job.Control.{save, saved_entry}

count_of_found :
    (uuid : String) (v : Value) (state : Fields)
    → get_field uuid state ≡ some v
    → count_of uuid state ≡ entry_count v
unfolding count_of
count_of_found uuid v state h = rw (h, count_of) refl

incremental_found :
    (p : Plan) (force_full : Bool) (v : Value) (state : Fields)
    → get_field p.uuid state ≡ some v
    → incremental p force_full state ≡ counted p force_full v state (entry_count v)
unfolding incremental
incremental_found p force_full v state h = rw (h, incremental) refl

entry_count-set_field :
    (c : ℕ) (d : Fields) → entry_count (dict (set_field "count" (number (pos c)) d)) ≡ ok c
unfolding entry_count
entry_count-set_field c d = rw (get_field-set_field_self "count" (number (pos c)) d) refl

count_of-put_count :
    (uuid : String) (c : ℕ) (d state : Fields)
    → count_of uuid (put_count uuid c (dict d) state) ≡ ok c
count_of-put_count uuid c d state =
    count_of_found uuid (dict (set_field "count" (number (pos c)) d))
      (put_count uuid c (dict d) state)
      (get_field-set_field_self uuid (dict (set_field "count" (number (pos c)) d)) state)
    ∙ entry_count-set_field c d

entry_count-saved_entry :
    (now : String) (c : ℕ) (j : Backup) → entry_count (saved_entry now c j) ≡ ok (c + 1)
unfolding entry_count
entry_count-saved_entry now c j = refl

count_of-saved_entry :
    (now : String) (c : ℕ) (j : Backup) (state : Fields)
    → count_of j.plan.uuid (set_field j.plan.uuid (saved_entry now c j) state) ≡ ok (c + 1)
count_of-saved_entry now c j state =
    count_of_found j.plan.uuid (saved_entry now c j)
      (set_field j.plan.uuid (saved_entry now c j) state)
      (get_field-set_field_self j.plan.uuid (saved_entry now c j) state)
    ∙ entry_count-saved_entry now c j

-- The count of a plan in the state file, once a backup `j` of it was chosen and then saved.
abbrev pub count_after : Bool → String → Backup → Fields → Result ℕ
count_after force_full now j state = incremental j.plan force_full state >>= λ r.
    save now j (dict r.1) >>= λ s. count_of j.plan.uuid s.1

save_count :
    (now : String) (j : Backup) (state : Fields) (c : ℕ)
    → count_of j.plan.uuid state ≡ ok c
    → (save now j (dict state) >>= λ s. count_of j.plan.uuid s.1) ≡ ok (c + 1)
unfolding save
save_count now j state c h = rw h (count_of-saved_entry now c j state)

plus_two : (c : ℕ) → c + 1 + 1 ≡ c + 2
plus_two c = omega arith

-- A backup of a plan that the state file knows with a count is counted twice where it is incremental: the count
-- is two more once it was saved. A full one leaves the count at one.
pub count_after_lem :
    (force_full : Bool) (now : String) (j : Backup) (d state : Fields) (c : ℕ)
    → get_field j.plan.uuid state ≡ some (dict d)
    → entry_count (dict d) ≡ ok c
    → count_after force_full now j state
      ≡ ok (if force_full || is_full j.plan.schedule c then 1 else c + 2)
count_after_lem force_full now j d state c e n =
    rw (incremental_found j.plan force_full (dict d) state e, n)
      (elim (Bool-cases (force_full || is_full j.plan.schedule c)) [
        | inl b ↦ rw b (
            save_count now j (put_count j.plan.uuid 0 (dict d) state) 0
              (count_of-put_count j.plan.uuid 0 d state))
        | inr b ↦ rw b (
            save_count now j (put_count j.plan.uuid (c + 1) (dict d) state) (c + 1)
              (count_of-put_count j.plan.uuid (c + 1) d state)
            ∙ ap ok (plus_two c))
      ])
