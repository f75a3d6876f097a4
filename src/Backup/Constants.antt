-- ===== src/Backup/Constants.antt =====
-- usr/lib/smd/lib/constants/__init__.py and config.py: the numbers and names of the backups.
use spaceport.Base.{ℕ, String, List, [], ◌∷◌}

abbrev pub waiting : ℕ
waiting = 0x0

abbrev pub pre_cmd : ℕ
pre_cmd = 0x1

abbrev pub keygen : ℕ
keygen = 0x2

abbrev pub no_keygen : ℕ
no_keygen = 0x3

abbrev pub encrypt_compress : ℕ
encrypt_compress = 0x4

abbrev pub compress : ℕ
compress = 0x5

abbrev pub hashing_p1 : ℕ
hashing_p1 = 0x6

abbrev pub hashing_p2 : ℕ
hashing_p2 = 0x7

abbrev pub packing : ℕ
packing = 0x8

abbrev pub uploading : ℕ
uploading = 0x9

abbrev pub error : ℕ
error = 0xA

abbrev pub done : ℕ
done = 0xB

-- `BACKUP_STATE_NAMES`, whose index is a state, as `title()` writes them.
abbrev pub state_titles : List String
state_titles =
    "Idle" ∷ "Prep" ∷ "Keygen" ∷ "Compress" ∷ "Encrypt" ∷ "Compress" ∷ "Hashing" ∷ "Hashing"
    ∷ "Packing" ∷ "Upload" ∷ "Error" ∷ "Done" ∷ []

abbrev pub backup_timeout : ℕ
backup_timeout = 14400

abbrev pub backup_read_time : ℕ
backup_read_time = 300

abbrev pub backup_wait_time : ℕ
backup_wait_time = 86400

abbrev pub backup_backoff_time : ℕ
backup_backoff_time = 900

abbrev pub backup_default_port : ℕ
backup_default_port = 22

abbrev pub backup_default_dir : String
backup_default_dir = "/opt/hydra/smd-backup"
