-- ===== src/Backup/Job/Life.antt =====
-- usr/lib/smd/lib/modules/backup.py: `_next` of `Backup` gets past the state that it finds, so a backup ends.
use spaceport.Base.{
  ℕ, zero, suc, ◌+◌, ◌<◌, ◌≤◌, ◌≡◌, refl, ◌∙◌, String, Bool, true, false, Option, none, some, List,
  [], ◌∷◌, length, is_some, ◌⊎◌, inl, inr, arith, Option-cases,
}
use spaceport.Base.Int.{ℤ}
use spaceport.Value.{null}
use spaceport.Backup.Constants.{error, pre_cmd, hashing_p2, uploading}
use spaceport.Backup.Job.State.{forwarded, Env, Backup, emit, Outcome, timeout_later}
use spaceport.Backup.Job.Stop.{update, finish_stopped, cancel_timers, locker_message}
use spaceport.Backup.Job.Ends.{stop_now-cancel, finish_stopped-Same, cancel_timers-Same}
use spaceport.Backup.Job.Steps.{step_pre_cmd, step_upload}
use spaceport.Backup.Job.Hash.{step_hash_part2}
use spaceport.Backup.Job.Next.{
  judge, check_proc, Again, dispatch, after_proc, make_dir, advance, begin, next_with, next_fuel,
  next,
}
use spaceport.Backup.Job.Progress.{
  Between, Past, between, GoesOn, step_keygen-Past, step_compress-Past, step_ec-Past,
  step_hash_part1-Past, step_pack-Past, step_pre_cmd-Past,
}
use spaceport.Backup.Job.Rises.{step_hash_part2-Past, step_upload-Past, complete-Past}

-- A call of `_next` from a later state gets past an earlier one.
abbrev pub Forward : Again → Type 0
Forward again = (n : ℕ) (arg : Option String) (j : Backup) → Between n j → Past n (again arg j)

goes_on :
    (again : Again) (n s : ℕ) (arg : Option String)
    → Forward again
    → n < s
    → s ≤ uploading
    → GoesOn n s (again arg)
goes_on again n s arg f h k j e = f n arg j (between n s j e h k)

upload-Forward :
    (env : Env) (n : ℕ) (again : Again) (j : Backup)
    → Forward again
    → n < uploading
    → Past n (step_upload env again j)
upload-Forward env n again j f h =
    step_upload-Past env n again j (λ arg. goes_on again n uploading arg f h (omega arith)) h

hash-Forward :
    (env : Env) (n : ℕ) (again : Again) (j : Backup)
    → Forward again
    → n < hashing_p2
    → Past n (step_hash_part2 env (again none) j)
hash-Forward env n again j f h =
    step_hash_part2-Past env n (again none) j (goes_on again n hashing_p2 none f h (omega arith))

pre_cmd-Forward :
    (env : Env) (n : ℕ) (again : Again) (j : Backup)
    → Forward again
    → n < pre_cmd
    → Past n (step_pre_cmd env (again none) j)
pre_cmd-Forward env n again j f h =
    step_pre_cmd-Past env n (again none) j (goes_on again n pre_cmd none f h (omega arith)) h

dispatch-Past :
    (env : Env) (again : Again) (arg : Option String) (n : ℕ) (j : Backup)
    → Forward again
    → j.state ≡ n
    → Past n (dispatch env again arg j)
unfolding dispatch
dispatch-Past env again arg n j f e = ground (
  arith,
  step_keygen-Past env n j,
  step_compress-Past env n j,
  step_ec-Past env n arg j,
  step_hash_part1-Past env n j,
  hash-Forward env n again j f,
  step_pack-Past env n j,
  upload-Forward env n again j f,
  complete-Past env n arg j,
  stop_now-cancel env false j,
)

pub make_dir-state : (env : Env) (j k : Backup) → make_dir env j ≡ some k → k.state ≡ j.state
unfolding make_dir
make_dir-state env j k h = ground arith

update_error : (env : Env) (j : Backup) → (update env error j).0 ≡ false
unfolding update
update_error env j = ground arith

judge-state :
    (env : Env) (j : Backup) (o : Option (ℤ × (String × String)))
    → (judge env j o).0 ≡ true
    → (judge env j o).1.state ≡ j.state
judge-state env j none h = ground (arith, update_error env j)
judge-state env j (some (n, (last, e))) h =
    ground (arith, update_error env (record j { last = some last }))

pub check_proc-state :
    (env : Env) (j : Backup) → (check_proc env j).0 ≡ true → (check_proc env j).1.state ≡ j.state
unfolding check_proc
check_proc-state env j h = ground (arith, judge-state env j env.output)

after_proc-Past :
    (env : Env) (again : Again) (arg : Option String) (n : ℕ) (r : Bool × Backup)
    → Forward again
    → (r.0 ≡ true → r.1.state ≡ n)
    → Past n (after_proc env again arg r)
after_proc-Past env again arg n (true, j) f h =
    dispatch-Past env again arg n (record j { proc = none }) f (h refl)
after_proc-Past env again arg n (false, j) f h =
    inr (inl (stop_now-cancel env true (record j { proc = none })))

advance-Past :
    (env : Env) (again : Again) (arg : Option String) (j : Backup)
    → Forward again
    → Past j.state (advance env again arg j)
unfolding advance
advance-Past env again arg j f = elim (Option-cases (make_dir env j)) [
  | inl e ↦ rw (e, advance) (inr (inl (stop_now-cancel env true j)))
  | inr (k, e) ↦
      rw (e, advance)
        (after_proc-Past env again arg j.state (check_proc env k) f
          (λ h. check_proc-state env k h ∙ make_dir-state env j k e))
]

begin-Past :
    (env : Env) (again : Again) (arg : Option String) (n : ℕ) (j : Backup)
    → Forward again
    → j.state ≡ n
    → Past n (begin env again arg j)
unfolding begin
begin-Past env again arg n j f e =
    let k = emit (forwarded (locker_message null)) j in
    ground (
      arith,
      advance-Past env again arg j f,
      advance-Past env again arg k f,
      pre_cmd-Forward env n again k f,
    )

next_with-Past :
    (env : Env) (again : Again) (arg : Option String) (j : Backup)
    → Forward again
    → Past j.state (next_with env again arg j)
unfolding next_with timeout_later
next_with-Past env again arg j f =
    let k = timeout_later false (cancel_timers j) in
    ground (
      arith,
      finish_stopped-Same (cancel_timers j),
      cancel_timers-Same j,
      begin-Past env again arg j.state k f,
    )

Past-trans : (n : ℕ) (j : Backup) (o : Outcome) → Between n j → Past j.state o → Past n o
Past-trans n j o h p = ground arith

next_fuel-Forward : (d : ℕ) (env : Env) → Forward (next_fuel d env)
unfolding next_fuel
next_fuel-Forward zero env n arg j h = inr (inr h)
next_fuel-Forward (suc d) env n arg j h =
    Past-trans n j (next_with env (next_fuel d env) arg j) h
      (next_with-Past env (next_fuel d env) arg j (next_fuel-Forward d env))

-- A call of `_next` in any state raises an exception, leaves the backup stopped, or takes it to a state
-- whose number is greater.
pub next-Past : (env : Env) (arg : Option String) (j : Backup) → Past j.state (next env arg j)
unfolding next next_fuel
next-Past env arg j = next_with-Past env (next_fuel 1 env) arg j (next_fuel-Forward 1 env)

-- `_next` of a backup that was stopped sends its last messages, and does nothing else.
pub next_stopped :
    (env : Env) (arg : Option String) (j : Backup)
    → j.cancel ≡ true
    → next env arg j ≡ (none, finish_stopped (cancel_timers j))
unfolding next next_fuel next_with
next_stopped env arg j h = ground arith

abbrev pub and_then : Outcome → (Backup → Outcome) → Outcome
and_then (some e, j) k = (some e, j)
and_then (none, j) k = k j

-- The calls of `_next` of one backup, up to the first that raises: what the system answers to each, and its
-- argument.
unfoldable pub run : List (Env × Option String) → Backup → Outcome
run [] j = (none, j)
run ((env, arg) ∷ calls) j = and_then (next env arg j) (run calls)

-- A call raised, or the backup is stopped.
abbrev pub Over : Outcome → Type 0
Over o = (is_some o.0 ≡ true) ⊎ (o.1.cancel ≡ true)

run_stopped :
    (calls : List (Env × Option String)) (j : Backup) → j.cancel ≡ true → Over (run calls j)
unfolding run
run_stopped [] j h = inr h
run_stopped ((env, arg) ∷ calls) j h = rw (next_stopped env arg j h) (
    run_stopped calls (finish_stopped (cancel_timers j))
      (ground (arith, finish_stopped-Same (cancel_timers j), cancel_timers-Same j)))

and_then-Over :
    (n : ℕ) (o : Outcome) (k : Backup → Outcome)
    → Past n o
    → ((j : Backup) → j.cancel ≡ true → Over (k j))
    → ((j : Backup) → Between n j → Over (k j))
    → Over (and_then o k)
and_then-Over n (some e, j) k p h b = inl refl
and_then-Over n (none, j) k (inl e) h b = cc
and_then-Over n (none, j) k (inr (inl c)) h b = h j c
and_then-Over n (none, j) k (inr (inr q)) h b = b j q

-- Ten calls of `_next` are enough for every backup that runs: one that is in a state up to the last in which
-- it uploads is stopped, unless a call raises, once the number of its state and the number of calls come to
-- ten.
pub run-Over :
    (calls : List (Env × Option String)) (j : Backup)
    → j.state ≤ uploading
    → 10 ≤ j.state + length calls
    → Over (run calls j)
unfolding run
run-Over [] j h l = absurd (omega arith)
run-Over ((env, arg) ∷ calls) j h l =
    and_then-Over j.state (next env arg j) (run calls) (next-Past env arg j) (run_stopped calls)
      (λ k b. run-Over calls k b.1 (omega arith))
