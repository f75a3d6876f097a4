-- ===== src/LockerClient/Queue.antt =====
-- usr/lib/smd/lib/modules/locker.py: which events that would suspend the system the scheduler holds for a client.
use spaceport.Base.{
  ℕ, ◌≡◌, ◌≢◌, sym, ◌∙◌, Bool, true, false, Option, none, some, List, [], ◌∷◌, ◌++◌, arith, inl,
  inr, Bool-cases, Option-cases,
}
use spaceport.Host.{
  Host, Task, Job, wake_attempt as attempt_job, cancel_task, add_task, task_event, remove_task,
}
use spaceport.Host.Queue.{job_of, job_of-remove_task, job_of-append, job_of-append_old}

-- The only event of the queue that tries to suspend the system, if there is one, is the one that is told.
abbrev pub Owns : Option ℕ → List Task → Type 0
Owns e q = (i : ℕ) → job_of i q ≡ some attempt_job → e ≡ some i

abbrev pub is_attempt : Job → Bool
is_attempt attempt_job = true
is_attempt _ = false

pub remove_task-Owns : (e : Option ℕ) (i : ℕ) (q : List Task) → Owns e q → Owns e (remove_task i q)
remove_task-Owns e i q o j p = ground (arith, job_of-remove_task i j q, o j)

pub cancel_task-Owns : (e a : Option ℕ) (h : Host) → Owns e h.queue → Owns e (cancel_task a h).queue
unfolding cancel_task
cancel_task-Owns e none h o = o
cancel_task-Owns e (some i) h o = remove_task-Owns e i h.queue o

-- Once the event that is told is cancelled, none is left.
pub cancel_own-Owns : (e : Option ℕ) (h : Host) → Owns e h.queue → Owns none (cancel_task e h).queue
unfolding cancel_task
cancel_own-Owns none h o j p = o j p
cancel_own-Owns (some k) h o j p = ground (arith, job_of-remove_task k j h.queue, o j)

appended-Owns :
    (e : Option ℕ) (t : Task) (q : List Task)
    → is_attempt t.job ≡ false
    → Owns e q
    → Owns e (q ++ t ∷ [])
appended-Owns e t q f o j p = elim (Option-cases (job_of j q)) [
  | inl h ↦ other t.job f (ground (arith, job_of-append j q t))
  | inr (a, h) ↦ o j (h ∙ sym (job_of-append_old j q t a h) ∙ p)
]
  where
    other : (x : Job) → is_attempt x ≡ false → x ≡ attempt_job → e ≡ some j
    other x f h = ground (arith, f, h)

-- Another kind of event is added.
pub add_task-Owns :
    (e : Option ℕ) (n : ℕ) (j : Job) (k : ℕ) (h : Host)
    → is_attempt j ≡ false
    → Owns e h.queue
    → Owns e (add_task n j k h).queue
unfolding add_task
add_task-Owns e n j k h f o = elim (Bool-cases h.stopping) [
  | inl b ↦ rw b o
  | inr b ↦ rw b (appended-Owns e _ h.queue f o)
]

new_attempt : (t : Task) (q : List Task) → Owns none q → Owns (some t.id) (q ++ t ∷ [])
new_attempt t q o j p = elim (Option-cases (job_of j q)) [
  | inl h ↦ ground (arith, job_of-append j q t)
  | inr (a, h) ↦ ground (arith, o j (h ∙ sym (job_of-append_old j q t a h) ∙ p))
]

-- An event that suspends the system is added, where there was none.
pub add_attempt-Owns :
    (n k : ℕ) (h : Host)
    → Owns none h.queue
    → Owns (task_event h) (add_task n attempt_job k h).queue
unfolding add_task
add_attempt-Owns n k h o = elim (Bool-cases h.stopping) [
  | inl b ↦ rw b o
  | inr b ↦ rw b (new_attempt _ h.queue o)
]

-- No event of the queue tries to suspend the system.
abbrev pub NoAttempt : List Task → Type 0
NoAttempt q = (i : ℕ) → job_of i q ≢ some attempt_job

pub Owns-NoAttempt : (q : List Task) → Owns none q → NoAttempt q
Owns-NoAttempt q o i p = ground (arith, o i p)
