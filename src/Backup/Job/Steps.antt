-- ===== src/Backup/Job/Steps.antt =====
-- usr/lib/smd/lib/modules/backup.py: the steps of `Backup`, each of which starts a process or goes on to the
-- next step. A step's own call of `_next` is its argument `again`.
use spaceport.Base.{
  ◌*◌, String, Bool, true, false, not, ◌&&◌, Option, none, some, List, [], ◌∷◌, ltb, if◌then◌else◌,
}
use spaceport.Base.Int.{round_div}
use spaceport.Value.{Result, ok, err, type_error, attribute_error}
use spaceport.Util.Exec.{split_all}
use spaceport.Backup.Constants.{
  pre_cmd, keygen, encrypt_compress, compress, hashing_p1, packing, uploading,
}
use spaceport.Backup.Upload.{Upload, valid}
use spaceport.Backup.Job.State.{
  executed, piped, commanded, removed, protected, Env, Backup, emit, read_later, with_proc, Outcome,
  proceed,
}
use spaceport.Backup.Job.Stop.{watch, update, fail}
use spaceport.Backup.Job.Commands.{
  database, data_file, tar_file, compress_command, stream_command, encrypt_command, keygen_command,
  hash_command, pack_command, upload_command,
}

-- A process that can be read without waiting is read later.
abbrev pub read_soon : Env → Backup → Backup
read_soon env j = if env.set_blocking_fails then j else read_later j

-- `_exec_and_watch(server, cmd, stdin, add, read)`: none is the `OSError` of `Single.new`
unfoldable pub exec_and_watch :
    Env → List String → Option String → Option String → Bool → Backup → Option Backup
exec_and_watch env cmd stdin add read j =
    if env.start_fails cmd
    then none
    else (let j1 = with_proc (executed cmd stdin) j in
        some (watch add (if read then read_soon env j1 else j1)))

-- The `OSError` of a start ends the backup.
abbrev pub or_error : Env → Backup → Option Backup → Outcome
or_error env j none = (none, fail env j)
or_error env j (some j') = (none, j')

abbrev pub pre_commands :
    Env → (Backup → Outcome) → Backup → Result (Option (List (List String))) → Outcome
pre_commands env again j (err e) = (some e, j)
pre_commands env again j (ok none) = again j
pre_commands env again j (ok (some [])) = again j
pre_commands env again j (ok (some (c ∷ cs))) =
    if env.start_fails c
    then (none, fail env j)
    else (none, watch none (with_proc (commanded (c ∷ cs) true) j))

unfoldable pub run_pre_cmd : Env → (Backup → Outcome) → Backup → Outcome
run_pre_cmd env again j1 = pre_commands env again j1 (split_all env.shell j1.plan.cmd_pre)

-- `_step_pre_cmd(server)`
unfoldable pub step_pre_cmd : Env → (Backup → Outcome) → Backup → Outcome
step_pre_cmd env again j = proceed (update env pre_cmd j) (run_pre_cmd env again)

unfoldable pub make_key : Env → Backup → Outcome
make_key env j1 = elim j1.key as (λ _. Outcome) [
  | none ↦ (some attribute_error, j1)
  | some key ↦
      if not (env.exists key)
      then (some attribute_error, j1)
      else or_error env j1 (
          exec_and_watch env (keygen_command key j1) (some env.new_key) (some env.new_key) false j1)
]

-- `_step_keygen(server)`: without a key it raises, since a backup has no attribute `server`.
unfoldable pub step_keygen : Env → Backup → Outcome
step_keygen env j = proceed (update env keygen j) (make_key env)

-- The incremental state is removed for a full backup: none is an `OSError`.
unfoldable pub fresh_database : Env → Backup → Option Backup
fresh_database env j =
    if not j.increment && env.is_file (database j)
    then (if env.remove_fails (database j) then none else some (emit (removed (database j)) j))
    else some j

unfoldable pub run_compress : Env → Backup → Outcome
run_compress env j1 = elim (fresh_database env j1) as (λ _. Outcome) [
  | none ↦ (none, fail env j1)
  | some j2 ↦ or_error env j2 (exec_and_watch env (compress_command env j2) none none true j2)
]

-- `_step_compress(server)`
unfoldable pub step_compress : Env → Backup → Outcome
step_compress env j = proceed (update env compress j) (run_compress env)

-- The two processes of `_step_ec` are started; one without a key is refused after the first.
abbrev pub start_pair : Env → Option String → Backup → Outcome
start_pair env key j =
    if env.start_fails (stream_command env j)
    then (none, fail env j)
    else elim key as (λ _. Outcome) [
      | none ↦ (some type_error, emit (executed (stream_command env j) none) j)
      | some k ↦
          if env.start_fails (encrypt_command j)
          then (none, fail env (emit (executed (stream_command env j) none) j))
          else (
            none,
            read_soon env
                (watch none (with_proc (piped (stream_command env j) (encrypt_command j) k) j)),
          )
    ]

unfoldable pub run_pair : Env → Option String → Backup → Outcome
run_pair env key j1 = elim (fresh_database env j1) as (λ _. Outcome) [
  | none ↦ (none, fail env j1)
  | some j2 ↦ start_pair env key j2
]

-- `_step_ec(server, key)`
unfoldable pub step_ec : Env → Option String → Backup → Outcome
step_ec env key j = proceed (update env encrypt_compress j) (run_pair env key)

unfoldable pub run_hash : Env → Backup → Outcome
run_hash env j1 = or_error env j1 (exec_and_watch env (hash_command j1) none none false j1)

-- `_step_hash_part1(server)`
unfoldable pub step_hash_part1 : Env → Backup → Outcome
step_hash_part1 env j = proceed (update env hashing_p1 j) (run_hash env)

-- `_check_space(server, file)`: is there room for one and a half of the file?
unfoldable pub check_space : Env → String → Backup → Bool
check_space env path j = elim (env.free path) as (λ _. Bool) [
  | none ↦ false
  | some free ↦ elim (env.size_of path) as (λ _. Bool) [
    | none ↦ false
    | some size ↦ not (ltb free (round_div (3 * size) 2))
  ]
]

unfoldable pub run_pack : Env → Backup → Outcome
run_pack env j1 =
    if not (check_space env (data_file j1) j1)
    then (none, fail env j1)
    else or_error env j1 (exec_and_watch env (pack_command j1) none none true j1)

-- `_step_pack(server)`
unfoldable pub step_pack : Env → Backup → Outcome
step_pack env j = proceed (update env packing j) (run_pack env)

abbrev pub known_hosts : String
known_hosts = "/etc/smd/backup-hosts.ssh"

-- The mode of the key of the upload, whose error is passed over
unfoldable pub protect_key : Env → Option String → Backup → Backup
protect_key env none j = j
protect_key env (some key) j = if env.chmod_fails key then j else emit (protected key) j

abbrev pub start_upload : Env → Upload → Backup → Outcome
start_upload env u j =
    or_error env j (exec_and_watch env (upload_command u j) none (some (tar_file j)) true j)

abbrev pub send_file : Env → (Option String → Backup → Outcome) → Backup → Upload → Outcome
send_file env again j u =
    if not (valid u)
    then again (some (tar_file j)) j
    else if not (env.exists known_hosts)
    then (none, fail env j)
    else start_upload env u (protect_key env u.key j)

unfoldable pub run_upload : Env → (Option String → Backup → Outcome) → Backup → Outcome
run_upload env again j1 = elim j1.upload as (λ _. Outcome) [
  | none ↦ (some attribute_error, j1)
  | some u ↦ send_file env again j1 u
]

-- `_step_upload(server)`: it raises where the backup has no upload at all.
unfoldable pub step_upload : Env → (Option String → Backup → Outcome) → Backup → Outcome
step_upload env again j = proceed (update env uploading j) (run_upload env again)
