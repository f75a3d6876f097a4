-- ===== src/Backup/Job/Rises.antt =====
-- usr/lib/smd/lib/modules/backup.py: the steps of `Backup` that go on by themselves, and its end.
use Prim.Native.String.{◌++◌}
use spaceport.Base.{
  ℕ, ◌<◌, ◌≡◌, refl, ◌∙◌, String, Bool, true, false, Option, none, some, if◌then◌else◌, str_eq, inl,
  inr, arith, Bool-cases, Option-cases,
}
use spaceport.Backup.Constants.{hashing_p2, uploading}
use spaceport.Backup.Upload.{Upload}
use spaceport.Backup.Job.State.{removed, Env, Backup, emit, Outcome}
use spaceport.Backup.Job.Ends.{fail-cancel, stop_now-cancel}
use spaceport.Backup.Job.Commands.{upload_command, tar_file, data_file, size_text}
use spaceport.Backup.Job.Steps.{step_upload, protect_key, send_file, run_upload}
use spaceport.Backup.Job.Hash.{
  write, or_fail, write_script, write_info, write_sum, given_text, without, write_hash,
  step_hash_part2, extract_script, info_text,
}
use spaceport.Backup.Job.Next.{cleanup, end_upload, complete, Again}
use spaceport.Backup.Job.Progress.{Between, Past, between, GoesOn, proceed-Past, exec-Past}

pub write_state :
    (env : Env) (path content : String) (j k : Backup)
    → write env path content j ≡ some k
    → k.state ≡ j.state
unfolding write
write_state env path content j k h = ground arith

or_fail-Past :
    (env : Env) (n s : ℕ) (path content : String) (j : Backup) (again : Backup → Outcome)
    → GoesOn n s again
    → j.state ≡ s
    → Past n (or_fail env j (write env path content j) again)
or_fail-Past env n s path content j again p h = elim (Option-cases (write env path content j)) [
  | inl e ↦ rw e (inr (inl (fail-cancel env j)))
  | inr (k, e) ↦ rw e (p k (write_state env path content j k e ∙ h))
]

write_script-Past :
    (env : Env) (n s : ℕ) (again : Backup → Outcome)
    → GoesOn n s again
    → GoesOn n s (write_script env again)
write_script-Past env n s again p j e =
    or_fail-Past env n s (j.path ++ "/extract.sh") (extract_script env j) j again p e

write_info-Past :
    (env : Env) (n s : ℕ) (again : Backup → Outcome) (h : String)
    → GoesOn n s again
    → GoesOn n s (write_info env again h)
write_info-Past env n s again h p j e = elim (Option-cases (env.size_of (data_file j))) [
  | inl e' ↦ rw (e', write_info) (inr (inl (fail-cancel env j)))
  | inr (size, e') ↦
      rw (e', write_info)
        (or_fail-Past env n s (j.path ++ "/info.txt") (info_text env h size j) j
          (write_script env again) (write_script-Past env n s again p) e)
]

write_sum-Past :
    (env : Env) (n s : ℕ) (again : Backup → Outcome) (h : String)
    → GoesOn n s again
    → GoesOn n s (write_sum env again h)
write_sum-Past env n s again h p j e = elim (Bool-cases (str_eq h "")) [
  | inl e' ↦ rw e' (inr (inl (fail-cancel env j)))
  | inr e' ↦ rw e' (
      or_fail-Past env n s (j.path ++ "/data.sum") h j (write_info env again h)
        (write_info-Past env n s again h p) e)
]

write_hash-Past :
    (env : Env) (n s : ℕ) (again : Backup → Outcome)
    → GoesOn n s again
    → GoesOn n s (write_hash env again)
unfolding write_hash
write_hash-Past env n s again p j e = elim (Option-cases (given_text j.last)) [
  | inl e' ↦ rw (e', write_hash) (inr (inl (fail-cancel env j)))
  | inr (t, e') ↦
      rw (e', write_hash) (write_sum-Past env n s again (without ("*" ++ j.path ++ "/") t) p j e)
]

pub step_hash_part2-Past :
    (env : Env) (n : ℕ) (again : Backup → Outcome) (j : Backup)
    → GoesOn n hashing_p2 again
    → Past n (step_hash_part2 env again j)
unfolding step_hash_part2
step_hash_part2-Past env n again j p =
    proceed-Past env n hashing_p2 j (write_hash env again)
      (write_hash-Past env n hashing_p2 again p)

protect_key-state :
    (env : Env) (o : Option String) (j : Backup) → (protect_key env o j).state ≡ j.state
unfolding protect_key
protect_key-state env none j = refl
protect_key-state env (some key) j = ground arith

send_file-Past :
    (env : Env) (n : ℕ) (again : Again) (j : Backup) (u : Upload)
    → Past n (again (some (tar_file j)) j)
    → Between n j
    → Past n (send_file env again j u)
send_file-Past env n again j u p h =
    let k = protect_key env u.key j in
    ground (
      arith,
      fail-cancel env j,
      protect_key-state env u.key j,
      exec-Past env n (upload_command u k) none (some (tar_file k)) true k,
    )

run_upload-Past :
    (env : Env) (n : ℕ) (again : Again) (j : Backup)
    → ((arg : Option String) → Past n (again arg j))
    → Between n j
    → Past n (run_upload env again j)
unfolding run_upload
run_upload-Past env n again j p h = elim (Option-cases j.upload) [
  | inl e ↦ rw (e, run_upload) (inl refl)
  | inr (u, e) ↦ rw (e, run_upload) (send_file-Past env n again j u (p (some (tar_file j))) h)
]

pub step_upload-Past :
    (env : Env) (n : ℕ) (again : Again) (j : Backup)
    → ((arg : Option String) → GoesOn n uploading (again arg))
    → n < uploading
    → Past n (step_upload env again j)
unfolding step_upload
step_upload-Past env n again j p h =
    proceed-Past env n uploading j (run_upload env again) (λ j1 e.
      run_upload-Past env n again j1 (λ arg. p arg j1 e) (between n _ j1 e h (omega arith)))

end_upload-Past :
    (env : Env) (n : ℕ) (file : String) (r : Option Bool × Backup) → Past n (end_upload env file r)
end_upload-Past env n file (none, j) = inl refl
end_upload-Past env n file (some false, j) = inr (inl (stop_now-cancel env false j))
end_upload-Past env n file (some true, j) =
    inr
      (inl (stop_now-cancel env false (if env.remove_fails file then j else emit (removed file) j)))

pub complete-Past :
    (env : Env) (n : ℕ) (arg : Option String) (j : Backup) → Past n (complete env arg j)
unfolding complete
complete-Past env n none j = inl refl
complete-Past env n (some file) j = elim (Option-cases (env.size_of file)) [
  | inl e ↦
      rw (e, complete) (end_upload-Past env n file (cleanup env (record j { size = some "U" })))
  | inr (m, e) ↦ elim (Option-cases j.upload) [
    | inl e' ↦ rw (e, e', complete) (inl refl)
    | inr (u, e') ↦
        rw (e, e', complete)
          (end_upload-Past env n file (cleanup env (record j { size = some (size_text m) })))
  ]
]
