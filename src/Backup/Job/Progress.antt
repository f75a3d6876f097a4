-- ===== src/Backup/Job/Progress.antt =====
-- usr/lib/smd/lib/modules/backup.py: every step of `Backup` leads on, or stops it.
use spaceport.Base.{
  ℕ, ◌<◌, ◌≤◌, ◌≡◌, refl, String, Bool, true, false, Option, none, some, List, [], ◌∷◌, is_some,
  ◌⊎◌, inl, inr, arith, Option-cases,
}
use spaceport.Value.{Result, ok, err}
use spaceport.Util.Exec.{split_all}
use spaceport.Backup.Constants.{
  pre_cmd, keygen, encrypt_compress, compress, hashing_p1, packing, uploading,
}
use spaceport.Backup.Job.State.{
  executed, piped, commanded, Env, Backup, emit, with_proc, Outcome, proceed, read_later,
}
use spaceport.Backup.Job.Stop.{watch, enter, update}
use spaceport.Backup.Job.Ends.{watch-Same, update_cases, fail-cancel, enter_state}
use spaceport.Backup.Job.Commands.{
  compress_command, stream_command, encrypt_command, keygen_command, hash_command, pack_command,
}
use spaceport.Backup.Job.Steps.{
  read_soon, exec_and_watch, or_error, pre_commands, run_pre_cmd, step_pre_cmd, make_key,
  step_keygen, fresh_database, run_compress, step_compress, start_pair, run_pair, step_ec, run_hash,
  step_hash_part1, run_pack, step_pack,
}

-- A backup in one of the states after `n` in which it runs.
abbrev pub Between : ℕ → Backup → Type 0
Between n j = (n < j.state) × (j.state ≤ uploading)

-- A call that raised, or stopped the backup, or led to a later state.
abbrev pub Past : ℕ → Outcome → Type 0
Past n o = (is_some o.0 ≡ true) ⊎ (o.1.cancel ≡ true) ⊎ Between n o.1

pub between : (n s : ℕ) (j : Backup) → j.state ≡ s → n < s → s ≤ uploading → Between n j
between n s j e h k = rw e (h, k)

same-Between : (n : ℕ) (k j : Backup) → k.state ≡ j.state → Between n j → Between n k
same-Between n k j e h = rw e h

pub proceed-false :
    (u : Bool × Backup) (k : Backup → Outcome) → u.0 ≡ false → proceed u k ≡ (none, u.1)
proceed-false (false, j) k h = refl
proceed-false (true, j) k h = cc

pub proceed-Past :
    (env : Env) (n s : ℕ) (j : Backup) (k : Backup → Outcome)
    → ((j1 : Backup) → j1.state ≡ s → Past n (k j1))
    → Past n (proceed (update env s j) k)
proceed-Past env n s j k h = elim (update_cases env s j) [
  | inl (e, c) ↦ rw (proceed-false (update env s j) k e) (inr (inl c))
  | inr e ↦ rw e (h (enter s j) (enter_state s j))
]

read_soon-state : (env : Env) (j : Backup) → (read_soon env j).state ≡ j.state
unfolding read_later
read_soon-state env j = ground arith

pub exec-Past :
    (env : Env) (n : ℕ) (cmd : List String) (stdin add : Option String) (read : Bool) (j : Backup)
    → Between n j
    → Past n (or_error env j (exec_and_watch env cmd stdin add read j))
unfolding exec_and_watch
exec-Past env n cmd stdin add read j h =
    let j1 = with_proc (executed cmd stdin) j in
    ground (
      arith,
      fail-cancel env j,
      watch-Same add j1,
      watch-Same add (read_soon env j1),
      read_soon-state env j1,
    )

fresh_database-state :
    (env : Env) (j k : Backup) → fresh_database env j ≡ some k → k.state ≡ j.state
unfolding fresh_database
fresh_database-state env j k h = ground arith

make_key-Past : (env : Env) (n : ℕ) (j1 : Backup) → Between n j1 → Past n (make_key env j1)
unfolding make_key
make_key-Past env n j1 h = elim (Option-cases j1.key) [
  | inl e ↦ rw e (inl refl)
  | inr (key, e) ↦ rw e (
      ground (
        arith,
        exec-Past env n (keygen_command key j1) (some env.new_key) (some env.new_key) false j1,
      ))
]

pub step_keygen-Past : (env : Env) (n : ℕ) (j : Backup) → n < keygen → Past n (step_keygen env j)
unfolding step_keygen
step_keygen-Past env n j h =
    proceed-Past env n keygen j _
      (λ j1 e. make_key-Past env n j1 (between n _ j1 e h (omega arith)))

run_compress-Past : (env : Env) (n : ℕ) (j1 : Backup) → Between n j1 → Past n (run_compress env j1)
unfolding run_compress
run_compress-Past env n j1 h = elim (Option-cases (fresh_database env j1)) [
  | inl e ↦ rw (e, run_compress) (inr (inl (fail-cancel env j1)))
  | inr (k, e) ↦
      rw (e, run_compress)
        (exec-Past env n (compress_command env k) none none true k
          (same-Between n k j1 (fresh_database-state env j1 k e) h))
]

pub step_compress-Past :
    (env : Env) (n : ℕ) (j : Backup) → n < compress → Past n (step_compress env j)
unfolding step_compress
step_compress-Past env n j h =
    proceed-Past env n compress j _
      (λ j1 e. run_compress-Past env n j1 (between n _ j1 e h (omega arith)))

start_pair-Past :
    (env : Env) (n : ℕ) (key : Option String) (j : Backup)
    → Between n j
    → Past n (start_pair env key j)
start_pair-Past env n none j h = ground (arith, fail-cancel env j)
start_pair-Past env n (some k) j h =
    let j1 = with_proc (piped (stream_command env j) (encrypt_command j) k) j in
    ground (
      arith,
      fail-cancel env j,
      fail-cancel env (emit (executed (stream_command env j) none) j),
      watch-Same none j1,
      read_soon-state env (watch none j1),
    )

run_pair-Past :
    (env : Env) (n : ℕ) (key : Option String) (j1 : Backup)
    → Between n j1
    → Past n (run_pair env key j1)
unfolding run_pair
run_pair-Past env n key j1 h = elim (Option-cases (fresh_database env j1)) [
  | inl e ↦ rw (e, run_pair) (inr (inl (fail-cancel env j1)))
  | inr (k, e) ↦
      rw (e, run_pair)
        (start_pair-Past env n key k (same-Between n k j1 (fresh_database-state env j1 k e) h))
]

pub step_ec-Past :
    (env : Env) (n : ℕ) (key : Option String) (j : Backup)
    → n < encrypt_compress
    → Past n (step_ec env key j)
unfolding step_ec
step_ec-Past env n key j h =
    proceed-Past env n encrypt_compress j _
      (λ j1 e. run_pair-Past env n key j1 (between n _ j1 e h (omega arith)))

pub step_hash_part1-Past :
    (env : Env) (n : ℕ) (j : Backup) → n < hashing_p1 → Past n (step_hash_part1 env j)
unfolding step_hash_part1 run_hash
step_hash_part1-Past env n j h = proceed-Past env n hashing_p1 j _ (λ j1 e.
    exec-Past env n (hash_command j1) none none false j1 (between n _ j1 e h (omega arith)))

run_pack-Past : (env : Env) (n : ℕ) (j1 : Backup) → Between n j1 → Past n (run_pack env j1)
unfolding run_pack
run_pack-Past env n j1 h =
    ground (arith, fail-cancel env j1, exec-Past env n (pack_command j1) none none true j1)

pub step_pack-Past : (env : Env) (n : ℕ) (j : Backup) → n < packing → Past n (step_pack env j)
unfolding step_pack
step_pack-Past env n j h =
    proceed-Past env n packing j _
      (λ j1 e. run_pack-Past env n j1 (between n _ j1 e h (omega arith)))

-- What a step may call to go on: from its own state it gets past another.
abbrev pub GoesOn : ℕ → ℕ → (Backup → Outcome) → Type 0
GoesOn n s again = (j : Backup) → j.state ≡ s → Past n (again j)

pre_commands-Past :
    (env : Env) (n : ℕ) (again : Backup → Outcome) (j : Backup)
    (r : Result (Option (List (List String))))
    → Past n (again j)
    → Between n j
    → Past n (pre_commands env again j r)
pre_commands-Past env n again j (err e) p h = inl refl
pre_commands-Past env n again j (ok none) p h = p
pre_commands-Past env n again j (ok (some [])) p h = p
pre_commands-Past env n again j (ok (some (c ∷ cs))) p h =
    ground (arith, fail-cancel env j, watch-Same none (with_proc (commanded (c ∷ cs) true) j))

pub step_pre_cmd-Past :
    (env : Env) (n : ℕ) (again : Backup → Outcome) (j : Backup)
    → GoesOn n pre_cmd again
    → n < pre_cmd
    → Past n (step_pre_cmd env again j)
unfolding step_pre_cmd run_pre_cmd
step_pre_cmd-Past env n again j p h = proceed-Past env n pre_cmd j _ (λ j1 e.
    pre_commands-Past env n again j1 (split_all env.shell j1.plan.cmd_pre) (p j1 e)
      (between n _ j1 e h (omega arith)))
