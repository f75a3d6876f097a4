-- ===== src/Backup/Job/Commands.antt =====
-- usr/lib/smd/lib/modules/backup.py: the command lines that `Backup` runs, and the texts that it writes.
use Prim.Native.String.{◌++◌}
use spaceport.Base.{
  ℕ, suc, ◌*◌, ◌/◌, ◌%◌, ◌^◌, String, Bool, Option, none, some, List, [], ◌∷◌, ◌++◌ as ◌<++>◌, ltb,
  if◌then◌else◌,
}
use spaceport.Base.Int.{round_div}
use spaceport.Value.{Value, text, Items, nil, cons}
use spaceport.Util.{show_number}
use spaceport.Backup.Text.{rfind, str_drop}
use spaceport.Backup.Upload.{Upload, target}
use spaceport.Backup.Job.State.{Env, Backup}

-- `basename(path)`
unfoldable pub basename : String → String
basename s = elim (rfind b'/' s) as (λ _. String) [ none ↦ s | some i ↦ str_drop (suc i) s ]

-- One decimal of `n / m`, as `f"{…:.1f}"` shows it.
abbrev one_decimal : ℕ → ℕ → String
one_decimal n m =
    let t = round_div (10 * n) m in show_number (t / 10) ++ "." ++ show_number (t % 10)

size_from : ℕ → ℕ → List String → String
size_from n k [] = one_decimal n (1024 ^ k) ++ "YB"
size_from n k (u ∷ us) =
    let rest = size_from n (suc k) us in
    if ltb n (1024 ^ suc k) then one_decimal n (1024 ^ k) ++ u ++ "B" else rest

-- `_size(size)` for a size in bytes
unfoldable pub size_text : ℕ → String
unfolding size_from
size_text n =
    if ltb n 1024
    then one_decimal n 1 ++ "B"
    else size_from n 1 ("K" ∷ "M" ∷ "G" ∷ "T" ∷ "P" ∷ "E" ∷ "Z" ∷ [])

-- `f"{v}"`
abbrev pub shown : (Value → String) → Value → String
shown str_of (text t) = t
shown str_of v = str_of v

abbrev pub exclude_options : (Value → String) → Items → List String
exclude_options str_of nil = []
exclude_options str_of (cons v vs) = ("--exclude=" ++ shown str_of v) ∷ exclude_options str_of vs

abbrev pub plan_excludes : (Value → String) → Option Items → List String
plan_excludes str_of none = []
plan_excludes str_of (some vs) = exclude_options str_of vs

-- `BACKUP_EXCLUDE`
abbrev pub backup_exclude : Items
backup_exclude = cons (text "/dev") (
    cons (text "/sys")
      (cons (text "/tmp") (cons (text "/run") (cons (text "/proc") (cons (text "/var/run") nil)))))

-- The incremental state of a plan
abbrev pub database : Backup → String
database j = "/var/cache/smd/backup/" ++ j.plan.uuid ++ ".db"

abbrev pub debug_options : Bool → List String
debug_options debug = if debug then "-v" ∷ "-v" ∷ [] else []

-- The `tar` that reads the path of the plan, without its output.
unfoldable pub tar_command : Env → Backup → List String
tar_command env j =
    "/bin/tar"
      ∷ "-c"
      ∷ "--zstd"
      ∷ "--acls"
      ∷ "--sparse"
      ∷ "--xattrs"
      ∷ "--restrict"
      ∷ "--recursion"
      ∷ "--no-selinux"
      ∷ "--totals=USR1"
      ∷ "--warning=no-xdev"
      ∷ "--one-file-system"
      ∷ "--preserve-permissions"
      ∷ "--warning=no-file-ignored"
      ∷ "--warning=no-file-changed"
      ∷ "--warning=no-file-removed"
      ∷ ("--listed-incremental=" ++ database j)
      ∷ ("--exclude=" ++ j.dir)
      ∷ ("--directory=" ++ j.plan.path)
      ∷ exclude_options env.str_of backup_exclude
    <++> plan_excludes env.str_of j.plan.exclude
    <++> debug_options j.plan.debug

abbrev pub data_file : Backup → String
data_file j = j.path ++ "/data.pak"

-- The command of `_step_compress`
abbrev pub compress_command : Env → Backup → List String
compress_command env j = tar_command env j <++> "-f" ∷ data_file j ∷ j.plan.path ∷ []

-- The two commands of `_step_ec`
abbrev pub stream_command : Env → Backup → List String
stream_command env j = tar_command env j <++> "-f" ∷ "-" ∷ j.plan.path ∷ []

abbrev pub encrypt_command : Backup → List String
encrypt_command j =
    "/bin/openssl"
    ∷ "aes-256-ctr"
    ∷ "-bufsize"
    ∷ "16384"
    ∷ "-e"
    ∷ "-salt"
    ∷ "-pbkdf2"
    ∷ "-pass"
    ∷ "env:SMD_ENC_KEY"
    ∷ "-in"
    ∷ "-"
    ∷ "-out"
    ∷ data_file j
    ∷ []

-- The command of `_step_keygen`
abbrev pub keygen_command : String → Backup → List String
keygen_command key j =
    "/bin/openssl"
    ∷ "pkeyutl"
    ∷ "-encrypt"
    ∷ "-pubin"
    ∷ "-in"
    ∷ "-"
    ∷ "-inkey"
    ∷ key
    ∷ "-out"
    ∷ (j.path ++ "/data.pem")
    ∷ []

-- The command of `_step_hash_part1`
abbrev pub hash_command : Backup → List String
hash_command j = "/bin/sha256sum" ∷ "--binary" ∷ data_file j ∷ []

abbrev pub tar_file : Backup → String
tar_file j = j.path ++ ".tar"

-- The command of `_step_pack`
abbrev pub pack_command : Backup → List String
pack_command j =
    "/bin/tar"
    ∷ "-c"
    ∷ "--sparse"
    ∷ "--no-acls"
    ∷ "--restrict"
    ∷ "--no-xattrs"
    ∷ "--recursion"
    ∷ "--no-selinux"
    ∷ "--force-local"
    ∷ "--totals=USR1"
    ∷ "--remove-files"
    ∷ "--one-file-system"
    ∷ "-f"
    ∷ tar_file j
    ∷ ("--directory=" ++ j.dir)
    ∷ basename j.path
    ∷ []

abbrev pub port_text : Option ℕ → String
port_text none = "None"
port_text (some n) = show_number n

abbrev pub identity : Option String → String
identity none = ""
identity (some key) = " -i " ++ key

abbrev pub host_text : Option String → String
host_text none = "None"
host_text (some t) = t

-- The command of `_step_upload`
abbrev pub upload_command : Upload → Backup → List String
upload_command u j =
    "/bin/rsync"
    ∷ "--sparse"
    ∷ "--progress"
    ∷ "--compress"
    ∷ "--recursive"
    ∷ "--safe-links"
    ∷ "--open-noatime"
    ∷ "--human-readable"
    ∷ "--one-file-system"
    ∷ "-e"
    ∷ ("/bin/ssh -o VisualHostKey=no -o UserKnownHostsFile=/etc/smd/backup-hosts.ssh -p "
        ++ port_text u.port
        ++ identity u.key)
    ∷ tar_file j
    ∷ (host_text (target u) ++ ":")
    ∷ []
