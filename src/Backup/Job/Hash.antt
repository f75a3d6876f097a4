-- ===== src/Backup/Job/Hash.antt =====
-- usr/lib/smd/lib/modules/backup.py: `_step_hash_part2`, which writes what is kept beside the data.
use Prim.Native.String.{◌++◌}
use spaceport.Base.{ℕ, zero, suc, ◌-◌, String, Option, none, some, if◌then◌else◌, is_some, str_eq}
use spaceport.Backup.Constants.{hashing_p2}
use spaceport.Backup.Text.{str_take, str_length, find, drop_last, nes_text}
use spaceport.Backup.Job.State.{written, Env, Backup, emit, Outcome, proceed}
use spaceport.Backup.Job.Stop.{update, fail}
use spaceport.Backup.Job.Commands.{size_text, data_file}

-- Is `k` the beginning of `s`? The rest.
abbrev pub after_prefix : String → String → Option String
after_prefix String.[] s = some s
after_prefix (String.◌∷◌ c k) String.[] = none
after_prefix (String.◌∷◌ c k) (String.◌∷◌ d s) =
    let rest = after_prefix k s in
    if str_eq (String.◌∷◌ c String.[]) (String.◌∷◌ d String.[]) then rest else none

-- `s.replace(k, "")` for a text k that is not empty; `skip` characters of s belong to a place that was found.
replace_from : String → ℕ → String → String
replace_from k n String.[] = ""
replace_from k (suc n) (String.◌∷◌ c s) = replace_from k n s
replace_from k zero (String.◌∷◌ c s) =
    let kept = String.◌∷◌ c (replace_from k 0 s) in
    let cut = replace_from k (str_length k - 1) s in
    if is_some (after_prefix k (String.◌∷◌ c s)) then cut else kept

unfoldable pub without : String → String → String
unfolding replace_from
without k s = replace_from k 0 s

-- `h[: h.find(" ")]`: all but the last character, where there is no space.
unfoldable pub digest : String → String
digest h = elim (find b' ' h) as (λ _. String) [ none ↦ drop_last h | some i ↦ str_take i h ]

abbrev pub described : Env → Backup → String
described env j = elim (nes_text j.plan.description) as (λ _. String) [
  | none ↦ "Backup of \"" ++ j.plan.path ++ "\" on " ++ env.today
  | some d ↦ d
]

-- The text of `info.txt`, where `size` is the size of the data.
abbrev pub info_text : Env → String → ℕ → Backup → String
info_text env h size j =
    described env j
    ++ "\n\nSOURCE: "
    ++ j.plan.path
    ++ "\nSHA256: "
    ++ digest h
    ++ "\nSIZE:   "
    ++ size_text size
    ++ "\nDATE:   "
    ++ env.date
    ++ "\nTYPE:   "
    ++ (if j.increment then "Incremental" else "Full")
    ++ "\n"

-- `write(path, content)`: none is an `OSError`
unfoldable pub write : Env → String → String → Backup → Option Backup
write env path content j =
    if env.write_fails path then none else some (emit (written path content) j)

-- A write, whose `OSError` ends the backup.
abbrev pub or_fail : Env → Backup → Option Backup → (Backup → Outcome) → Outcome
or_fail env j none k = (none, fail env j)
or_fail env j (some j') k = k j'

abbrev pub extract_script : Env → Backup → String
extract_script env j = if is_some j.key then env.restore_script else env.restore_script_no_key

abbrev pub write_script : Env → (Backup → Outcome) → Backup → Outcome
write_script env again j =
    or_fail env j (write env (j.path ++ "/extract.sh") (extract_script env j) j) again

abbrev pub write_info : Env → (Backup → Outcome) → String → Backup → Outcome
write_info env again h j = elim (env.size_of (data_file j)) as (λ _. Outcome) [
  | none ↦ (none, fail env j)
  | some size ↦
      or_fail env j (write env (j.path ++ "/info.txt") (info_text env h size j) j)
        (write_script env again)
]

abbrev pub write_sum : Env → (Backup → Outcome) → String → Backup → Outcome
write_sum env again h j =
    if str_eq h ""
    then (none, fail env j)
    else or_fail env j (write env (j.path ++ "/data.sum") h j) (write_info env again h)

abbrev pub given_text : Option String → Option String
given_text none = none
given_text (some t) = if str_eq t "" then none else some t

unfoldable pub write_hash : Env → (Backup → Outcome) → Backup → Outcome
write_hash env again j1 = elim (given_text j1.last) as (λ _. Outcome) [
  | none ↦ (none, fail env j1)
  | some t ↦ write_sum env again (without ("*" ++ j1.path ++ "/") t) j1
]

-- `_step_hash_part2(server)`, which ends with the call `again` of `_next`
unfoldable pub step_hash_part2 : Env → (Backup → Outcome) → Backup → Outcome
step_hash_part2 env again j = proceed (update env hashing_p2 j) (write_hash env again)
