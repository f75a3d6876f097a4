-- ===== src/Host/Queue.antt =====
-- The scheduler's queue as a map from events to jobs (usr/lib/smd/lib/structs/dispatcher.py).
use spaceport.Base.{
  ℕ, ◌≡◌, ◌⊎◌, sym, ◌∙◌, refl, Option, none, some, List, [], ◌∷◌, ◌++◌, ◌==◌, if◌then◌else◌, arith,
  inl, inr, Bool-cases,
}
use spaceport.Host.{Host, Task, Job, remove_task, is_before, earlier, first_task, due_task}

-- The job of an event in the queue.
abbrev pub job_of : ℕ → List Task → Option Job
job_of i [] = none
job_of i (t ∷ q) = if t.id == i then some t.job else job_of i q

-- No two tasks have the same event.
abbrev pub Unique : List Task → Type 0
Unique [] = Unit {0}
Unique (t ∷ q) = (job_of t.id q ≡ none) × Unique q

pub job_of-remove_task :
    (i j : ℕ) (q : List Task) → job_of j (remove_task i q) ≡ (if i == j then none else job_of j q)
job_of-remove_task i j [] = ground arith
job_of-remove_task i j (t ∷ q) = ground (arith, job_of-remove_task i j q)

pub job_of-append :
    (j : ℕ) (q : List Task) (t : Task)
    → job_of j q ≡ none
    → job_of j (q ++ t ∷ []) ≡ (if t.id == j then some t.job else none)
job_of-append j [] t h = refl
job_of-append j (u ∷ q) t h = ground (arith, job_of-append j q t)

pub job_of-append_old :
    (j : ℕ) (q : List Task) (t : Task) (a : Job)
    → job_of j q ≡ some a
    → job_of j (q ++ t ∷ []) ≡ some a
job_of-append_old j [] t a h = cc
job_of-append_old j (u ∷ q) t a h = ground (arith, job_of-append_old j q t a)

pub remove_task-Unique : (i : ℕ) (q : List Task) → Unique q → Unique (remove_task i q)
remove_task-Unique i [] u = tt
remove_task-Unique i (t ∷ q) u =
    ground (arith, remove_task-Unique i q u.1, job_of-remove_task i t.id q)

pub append-Unique :
    (q : List Task) (t : Task) → job_of t.id q ≡ none → Unique q → Unique (q ++ t ∷ [])
append-Unique [] t h u = (refl, tt)
append-Unique (x ∷ q) t h u = ground (arith, append-Unique q t, job_of-append x.id q t u.0)

earlier_cases : (x : Task) (o : Option Task) → (earlier x o ≡ some x) ⊎ (earlier x o ≡ o)
earlier_cases x none = inl refl
earlier_cases x (some u) = elim (Bool-cases (is_before u x)) [
  | inl e ↦ inr (rw e)
  | inr e ↦ inl (rw e)
]

same_task : (x t : Task) → some x ≡ some t → x ≡ t
same_task x t h = cc

job_of_head : (x t : Task) (q : List Task) → x ≡ t → job_of t.id (x ∷ q) ≡ some t.job
job_of_head x t q h = rw h (ground arith)

job_of_tail :
    (x t : Task) (q : List Task)
    → job_of x.id q ≡ none
    → job_of t.id q ≡ some t.job
    → job_of t.id (x ∷ q) ≡ some t.job
job_of_tail x t q h e = ground arith

pub first_task_job :
    (q : List Task) (t : Task) → Unique q → first_task q ≡ some t → job_of t.id q ≡ some t.job
first_task_job [] t u h = cc
first_task_job (x ∷ q) t u h = elim (earlier_cases x (first_task q)) [
  | inl e ↦ job_of_head x t q (same_task x t (sym e ∙ h))
  | inr e ↦ job_of_tail x t q u.0 (first_task_job q t u.1 (sym e ∙ h))
]

pub due_task_job :
    (h : Host) (t : Task) → Unique h.queue → due_task h ≡ some t → job_of t.id h.queue ≡ some t.job
unfolding due_task
due_task_job h t u e = ground (arith, first_task_job h.queue t u)
