-- ===== src/Backup/Job/Next.antt =====
-- usr/lib/smd/lib/modules/backup.py: `_next` of `Backup`, which takes a backup from one step to the next.
use spaceport.Base.{
  ℕ, zero, suc, ◌+◌, String, Bool, true, false, ◌&&◌, ◌||◌, Option, none, some, List, [], ◌∷◌, ltb,
  leb, ◌==◌, if◌then◌else◌,
}
use spaceport.Base.Int.{ℤ, pos, negsuc}
use spaceport.Value.{null, type_error, attribute_error}
use spaceport.Backup.Constants.{
  waiting, pre_cmd, keygen, no_keygen, encrypt_compress, compress, hashing_p1, hashing_p2, packing,
  uploading, error,
}
use spaceport.Backup.Upload.{valid}
use spaceport.Backup.Plan.{always, never, newest}
use spaceport.Backup.Job.State.{
  forwarded, made_dir, removed, Env, Backup, emit, timeout_later, Outcome,
}
use spaceport.Backup.Job.Stop.{
  locker_message, cancel_timers, finish_stopped, is_none, stop_now, update,
}
use spaceport.Backup.Job.Commands.{size_text}
use spaceport.Backup.Job.Hash.{step_hash_part2}
use spaceport.Backup.Job.Steps.{
  step_pre_cmd, step_keygen, step_compress, step_ec, step_hash_part1, step_pack, step_upload,
}

-- A process that ended with a code is no error: 0, or up to 1 while it compressed.
abbrev pub is_success : ℕ → ℤ → Bool
is_success state (pos n) = n == 0 || ltb no_keygen state && leb state compress && leb n 1
is_success state (negsuc n) = ltb no_keygen state && leb state compress

abbrev pub judge : Env → Backup → Option (ℤ × (String × String)) → Bool × Backup
judge env j none = update env error j
judge env j (some (n, (last, e))) =
    let j1 = record j { last = some last } in
    if is_success j.state n then (true, j1) else update env error j1

-- `_check_proc(server)`
unfoldable pub check_proc : Env → Backup → Bool × Backup
check_proc env j = elim j.proc as (λ _. Bool × Backup) [
  | none ↦ (true, j)
  | some p ↦ judge env j env.output
]

-- The old backups that are removed.
unfoldable pub remove_each : Env → List String → Backup → Backup
remove_each env [] j = j
remove_each env (f ∷ fs) j =
    remove_each env fs (if env.remove_fails f then j else emit (removed f) j)

abbrev pub drop {ℓ} : {A : Type ℓ} → ℕ → List A → List A
drop zero xs = xs
drop (suc n) [] = []
drop (suc n) (x ∷ xs) = drop n xs

-- `_cleanup(server)`: is the backup itself removed? None is the exception for a backup without an upload.
unfoldable pub cleanup : Env → Backup → Option Bool × Backup
cleanup env j = elim j.plan.keep as (λ _. Option Bool × Backup) [
  | always ↦ (some false, j)
  | never ↦ elim j.upload as (λ _. Option Bool × Backup) [
    | none ↦ (none, j)
    | some u ↦ (some (valid u), j)
  ]
  | newest n ↦ (some false, remove_each env (drop (n + 1) env.old_backups) j)
]

abbrev pub end_upload : Env → String → Option Bool × Backup → Outcome
end_upload env file (none, j) = (some attribute_error, j)
end_upload env file (some false, j) = (none, stop_now env false j)
end_upload env file (some true, j) =
    (none, stop_now env false (if env.remove_fails file then j else emit (removed file) j))

-- The end of `_next` for a backup that was uploaded, or that has no target.
unfoldable pub complete : Env → Option String → Backup → Outcome
complete env none j = (some type_error, j)
complete env (some file) j = elim (env.size_of file) as (λ _. Outcome) [
  | none ↦ end_upload env file (cleanup env (record j { size = some "U" }))
  | some n ↦
      let j1 = record j { size = some (size_text n) } in
      elim j.upload as (λ _. Outcome) [
        | none ↦ (some attribute_error, j1)
        | some u ↦ end_upload env file (cleanup env j1)
      ]
]

-- What a step calls when it goes on to the next: `_next(server, arg)`
abbrev pub Again : Type 0
Again = Option String → Backup → Outcome

-- The last part of `_next`: the step after the state that the backup is in.
unfoldable pub dispatch : Env → Again → Option String → Backup → Outcome
dispatch env again arg j =
    if j.state == waiting
    then step_keygen env j
    else if j.state == pre_cmd
    then step_keygen env j
    else if j.state == no_keygen
    then step_compress env j
    else if j.state == keygen
    then step_ec env arg j
    else if j.state == compress
    then step_hash_part1 env j
    else if j.state == encrypt_compress
    then step_hash_part1 env j
    else if j.state == hashing_p1
    then step_hash_part2 env (again none) j
    else if j.state == hashing_p2
    then step_pack env j
    else if j.state == packing
    then step_upload env again j
    else if j.state == uploading
    then complete env arg j
    else (none, stop_now env false j)

-- The process of the last step is done with: was it a success?
abbrev pub after_proc : Env → Again → Option String → Bool × Backup → Outcome
after_proc env again arg (true, j) = dispatch env again arg (record j { proc = none })
after_proc env again arg (false, j) = (none, stop_now env true (record j { proc = none }))

-- `makedirs(self._path)` of a backup that has only begun: none is an `OSError`.
unfoldable pub make_dir : Env → Backup → Option Backup
make_dir env j =
    if leb j.state pre_cmd
    then (if env.make_dir_fails j.path then none else some (emit (made_dir j.path) j))
    else some j

unfoldable pub advance : Env → Again → Option String → Backup → Outcome
advance env again arg j = elim (make_dir env j) as (λ _. Outcome) [
  | none ↦ (none, stop_now env true j)
  | some j1 ↦ after_proc env again arg (check_proc env j1)
]

-- A backup that begins takes its locker, and runs the command of its plan first.
unfoldable pub begin : Env → Again → Option String → Backup → Outcome
begin env again arg j =
    if j.state == waiting
    then (let j1 = emit (forwarded (locker_message null)) j in
        if is_none j.plan.cmd_pre
        then advance env again arg j1
        else step_pre_cmd env (again none) j1)
    else advance env again arg j

-- `_next(server, arg)`, where `again` is its call of itself
unfoldable pub next_with : Env → Again → Again
next_with env again arg j =
    let j1 = cancel_timers j in
    if j.cancel then (none, finish_stopped j1) else begin env again arg (timeout_later false j1)

-- `_next(server, arg)`, with calls of itself to a depth. The call of `_next` that `_start_post_cmd` makes is written out
-- where it stands, and is not one of these.
unfoldable pub next_fuel : ℕ → Env → Again
next_fuel zero env arg j = (none, j)
next_fuel (suc n) env arg j = next_with env (next_fuel n env) arg j

unfoldable pub next : Env → Again
next env = next_fuel 2 env
