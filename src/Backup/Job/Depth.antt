-- ===== src/Backup/Job/Depth.antt =====
-- usr/lib/smd/lib/modules/backup.py: how deep `_next` of `Backup` calls itself.
use Prim.Native.String.{◌++◌}
use spaceport.Base.{
  ℕ, suc, ◌≡◌, refl, ◌∙◌, String, Bool, true, false, Option, none, some, List, [], ◌∷◌, ◌⊎◌, inl,
  inr, arith, Option-cases,
}
use spaceport.Value.{null, Result, ok, err}
use spaceport.Util.Exec.{split_all}
use spaceport.Backup.Constants.{pre_cmd, hashing_p2, uploading}
use spaceport.Backup.Upload.{Upload}
use spaceport.Backup.Job.State.{forwarded, Env, Backup, emit, Outcome, proceed, timeout_later}
use spaceport.Backup.Job.Stop.{enter, update, cancel_timers, locker_message}
use spaceport.Backup.Job.Ends.{cancel_timers-Same, update_cases, enter_state}
use spaceport.Backup.Job.Commands.{tar_file, data_file}
use spaceport.Backup.Job.Steps.{
  pre_commands, run_pre_cmd, step_pre_cmd, send_file, run_upload, step_upload,
}
use spaceport.Backup.Job.Hash.{
  write, or_fail, write_script, write_info, write_sum, given_text, without, write_hash,
  step_hash_part2, extract_script, info_text,
}
use spaceport.Backup.Job.Next.{
  check_proc, Again, dispatch, after_proc, make_dir, advance, begin, next_with, next_fuel, next,
}
use spaceport.Backup.Job.Progress.{proceed-false}
use spaceport.Backup.Job.Rises.{write_state}
use spaceport.Backup.Job.Life.{check_proc-state, make_dir-state}

-- The states from which `_next` does not call itself, of those in which it is called by a step.
abbrev Settled : ℕ → Type 0
Settled s = (s ≡ pre_cmd) ⊎ (s ≡ hashing_p2) ⊎ (s ≡ uploading)

dispatch-Settled :
    (env : Env) (a b : Again) (arg : Option String) (j : Backup)
    → Settled j.state
    → dispatch env a arg j ≡ dispatch env b arg j
unfolding dispatch
dispatch-Settled env a b arg j s = ground arith

after_proc-Settled :
    (env : Env) (a b : Again) (arg : Option String) (r : Bool × Backup)
    → (r.0 ≡ true → Settled r.1.state)
    → after_proc env a arg r ≡ after_proc env b arg r
after_proc-Settled env a b arg (true, j) s =
    dispatch-Settled env a b arg (record j { proc = none }) (s refl)
after_proc-Settled env a b arg (false, j) s = refl

same-Settled : (s t : ℕ) → s ≡ t → Settled t → Settled s
same-Settled s t e h = rw e h

advance-Settled :
    (env : Env) (a b : Again) (arg : Option String) (j : Backup)
    → Settled j.state
    → advance env a arg j ≡ advance env b arg j
unfolding advance
advance-Settled env a b arg j s = elim (Option-cases (make_dir env j)) [
  | inl e ↦ rw (e, advance) refl
  | inr (k, e) ↦
      rw (e, advance)
        (after_proc-Settled env a b arg (check_proc env k)
          (λ h. same-Settled _ j.state (check_proc-state env k h ∙ make_dir-state env j k e) s))
]

begin-Settled :
    (env : Env) (a b : Again) (arg : Option String) (j : Backup)
    → Settled j.state
    → begin env a arg j ≡ begin env b arg j
unfolding begin
begin-Settled env a b arg j s = ground (arith, advance-Settled env a b arg j)

next_with-Settled :
    (env : Env) (a b : Again) (arg : Option String) (j : Backup)
    → Settled j.state
    → next_with env a arg j ≡ next_with env b arg j
unfolding next_with timeout_later
next_with-Settled env a b arg j s =
    let k = timeout_later false (cancel_timers j) in
    ground
      (arith, begin-Settled env a b arg k (same-Settled k.state j.state (cancel_timers-Same j).0 s))

-- Two calls of `_next` that agree on the backups in a state.
abbrev AgreeAt : ℕ → (Backup → Outcome) → (Backup → Outcome) → Type 0
AgreeAt s a b = (j : Backup) → j.state ≡ s → a j ≡ b j

proceed-AgreeAt :
    (env : Env) (s : ℕ) (j : Backup) (k l : Backup → Outcome)
    → AgreeAt s k l
    → proceed (update env s j) k ≡ proceed (update env s j) l
proceed-AgreeAt env s j k l h = elim (update_cases env s j) [
  | inl (e, c) ↦ rw (proceed-false (update env s j) k e, proceed-false (update env s j) l e) refl
  | inr e ↦ rw e (h (enter s j) (enter_state s j))
]

or_fail-AgreeAt :
    (env : Env) (s : ℕ) (path content : String) (j : Backup) (k l : Backup → Outcome)
    → AgreeAt s k l
    → j.state ≡ s
    → or_fail env j (write env path content j) k ≡ or_fail env j (write env path content j) l
or_fail-AgreeAt env s path content j k l h e = elim (Option-cases (write env path content j)) [
  | inl e' ↦ rw e' refl
  | inr (m, e') ↦ rw e' (h m (write_state env path content j m e' ∙ e))
]

write_script-AgreeAt :
    (env : Env) (s : ℕ) (k l : Backup → Outcome)
    → AgreeAt s k l
    → AgreeAt s (write_script env k) (write_script env l)
write_script-AgreeAt env s k l h j e =
    or_fail-AgreeAt env s (j.path ++ "/extract.sh") (extract_script env j) j k l h e

write_info-AgreeAt :
    (env : Env) (s : ℕ) (k l : Backup → Outcome) (t : String)
    → AgreeAt s k l
    → AgreeAt s (write_info env k t) (write_info env l t)
write_info-AgreeAt env s k l t h j e = elim (Option-cases (env.size_of (data_file j))) [
  | inl e' ↦ rw (e', write_info) refl
  | inr (size, e') ↦
      rw (e', write_info)
        (or_fail-AgreeAt env s (j.path ++ "/info.txt") (info_text env t size j) j
          (write_script env k) (write_script env l) (write_script-AgreeAt env s k l h) e)
]

write_hash-AgreeAt :
    (env : Env) (s : ℕ) (k l : Backup → Outcome)
    → AgreeAt s k l
    → AgreeAt s (write_hash env k) (write_hash env l)
unfolding write_hash
write_hash-AgreeAt env s k l h j e = elim (Option-cases (given_text j.last)) [
  | inl e' ↦ rw (e', write_hash) refl
  | inr (t, e') ↦ rw (e', write_hash) (sum (without ("*" ++ j.path ++ "/") t))
]
  where
    sum : (t : String) → write_sum env k t j ≡ write_sum env l t j
    sum t = ground (
      arith,
      or_fail-AgreeAt env s (j.path ++ "/data.sum") t j (write_info env k t) (write_info env l t)
          (write_info-AgreeAt env s k l t h) e,
    )

run_pre_cmd-AgreeAt :
    (env : Env) (s : ℕ) (k l : Backup → Outcome)
    → AgreeAt s k l
    → AgreeAt s (run_pre_cmd env k) (run_pre_cmd env l)
unfolding run_pre_cmd
run_pre_cmd-AgreeAt env s k l h j e = commands (split_all env.shell j.plan.cmd_pre)
  where
    commands :
        (r : Result (Option (List (List String)))) → pre_commands env k j r ≡ pre_commands env l j r
    commands (err x) = refl
    commands (ok none) = h j e
    commands (ok (some [])) = h j e
    commands (ok (some (c ∷ cs))) = refl

run_upload-AgreeAt :
    (env : Env) (s : ℕ) (a b : Again)
    → ((arg : Option String) → AgreeAt s (a arg) (b arg))
    → AgreeAt s (run_upload env a) (run_upload env b)
unfolding run_upload
run_upload-AgreeAt env s a b h j e = elim (Option-cases j.upload) [
  | inl e' ↦ rw (e', run_upload) refl
  | inr (u, e') ↦ rw (e', run_upload) (sent u)
]
  where
    sent : (u : Upload) → send_file env a j u ≡ send_file env b j u
    sent u = ground (arith, h (some (tar_file j)) j e)

-- Two calls of `_next` that agree on the backups in which a step calls it.
abbrev Agree : Again → Again → Type 0
Agree a b = (arg : Option String) (j : Backup) → Settled j.state → a arg j ≡ b arg j

agree_at :
    (a b : Again) (arg : Option String) (s : ℕ) → Agree a b → Settled s → AgreeAt s (a arg) (b arg)
agree_at a b arg s h t j e = h arg j (same-Settled j.state s e t)

dispatch-Agree :
    (env : Env) (a b : Again) (arg : Option String) (j : Backup)
    → Agree a b
    → dispatch env a arg j ≡ dispatch env b arg j
unfolding dispatch step_hash_part2 step_upload
dispatch-Agree env a b arg j h = ground (
  arith,
  proceed-AgreeAt env hashing_p2 j (write_hash env (a none)) (write_hash env (b none)) (
      write_hash-AgreeAt env hashing_p2 (a none) (b none)
        (agree_at a b none hashing_p2 h (inr (inl refl)))),
  proceed-AgreeAt env uploading j (run_upload env a) (run_upload env b) (
      run_upload-AgreeAt env uploading a b
        (λ arg'. agree_at a b arg' uploading h (inr (inr refl)))),
)

after_proc-Agree :
    (env : Env) (a b : Again) (arg : Option String) (r : Bool × Backup)
    → Agree a b
    → after_proc env a arg r ≡ after_proc env b arg r
after_proc-Agree env a b arg (true, j) h = dispatch-Agree env a b arg (record j { proc = none }) h
after_proc-Agree env a b arg (false, j) h = refl

advance-Agree :
    (env : Env) (a b : Again) (arg : Option String) (j : Backup)
    → Agree a b
    → advance env a arg j ≡ advance env b arg j
unfolding advance
advance-Agree env a b arg j h = elim (Option-cases (make_dir env j)) [
  | inl e ↦ rw (e, advance) refl
  | inr (k, e) ↦ rw (e, advance) (after_proc-Agree env a b arg (check_proc env k) h)
]

next_with-Agree :
    (env : Env) (a b : Again) (arg : Option String) (j : Backup)
    → Agree a b
    → next_with env a arg j ≡ next_with env b arg j
unfolding next_with begin step_pre_cmd
next_with-Agree env a b arg j h =
    let k = timeout_later false (cancel_timers j) in
    let l = emit (forwarded (locker_message null)) k in
    ground (
      arith,
      advance-Agree env a b arg k h,
      advance-Agree env a b arg l h,
      proceed-AgreeAt env pre_cmd l (run_pre_cmd env (a none)) (run_pre_cmd env (b none)) (
          run_pre_cmd-AgreeAt env pre_cmd (a none) (b none)
            (agree_at a b none pre_cmd h (inl refl))),
    )

-- Calls of `_next` by its own steps are never nested deeper than two: a bound on the depth of two or more
-- gives the same outcome as two.
pub next_fuel_enough :
    (depth : ℕ) (env : Env) (arg : Option String) (j : Backup)
    → next_fuel (suc (suc depth)) env arg j ≡ next env arg j
unfolding next next_fuel
next_fuel_enough depth env arg j =
    next_with-Agree env (next_fuel (suc depth) env) (next_fuel 1 env) arg j
      (λ arg' k s. next_with-Settled env (next_fuel depth env) (next_fuel 0 env) arg' k s)
