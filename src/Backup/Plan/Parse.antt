-- ===== src/Backup/Plan/Parse.antt =====
-- usr/lib/smd/lib/modules/backup.py: `Plan` and `Plans`, as they are read from the configuration.
use Prim.Native.String.{◌++◌}
use spaceport.Base.{
  ℕ, String, Bool, true, false, not, ◌&&◌, Option, none, some, ◌==◌, if◌then◌else◌, is_some, str_eq,
}
use spaceport.Base.Int.{pos, negsuc}
use spaceport.Value.{
  Value, null, boolean, number, text, dict, Items, Fields, Result, ok, err, Exn, value_error,
  get_field, get_or_null, set_field,
}
use spaceport.Value.Do.{◌>>=◌, ◌>>◌, raise_if}
use spaceport.Util.{to_bool, fnv32}
use spaceport.Backup.Constants.{backup_wait_time}
use spaceport.Backup.Schedule.{Schedule, new_schedule, list_or_none, get_or}
use spaceport.Backup.Text.{
  str_length, starts_with_char, ends_with_char, drop_last, is_abs, nes_text, full_path, hex, zfill,
}
use spaceport.Backup.Upload.{Upload, no_upload, new_upload, required}

-- How many old backups a plan keeps: all, none, or the newest ones.
pub data Keep : Type 0 where
  always never : Keep
  newest : ℕ → Keep

-- What the files answer while the configuration is read.
pub record Files : Type 0 where
  pub is_dir : String → Bool
  -- `info(path).only(file=True).check(0o01377, 0, 0)` of usr/lib/smd/lib/util/file.py
  pub file_check : String → Option Exn
  -- Python's `UUID(text)` raises no `ValueError`
  pub uuid_valid : String → Bool

pub record Plan : Type 0 where
  pub id : String
  pub dir : Option String
  pub key : Option String
  pub keep : Keep
  pub uuid : String
  pub path : String
  pub wait : ℕ
  pub debug : Bool
  pub upload : Option Upload
  pub exclude : Option Items
  pub cmd_pre : Value
  pub cmd_post : Value
  pub schedule : Schedule
  pub description : Value

-- `f"P{hex(fnv32(uuid))[2:].zfill(9)}"`
unfoldable pub plan_id : String → String
plan_id uuid = "P" ++ zfill 9 (hex (fnv32 uuid))

abbrev pub with_slash : String → String
with_slash p = if ends_with_char b'/' p then p else p ++ "/"

-- A whole number that is not negative; a truth value is one too.
abbrev pub wait_of : Value → Option ℕ
wait_of (number (pos n)) = some n
wait_of (boolean b) = some (if b then 1 else 0)
wait_of _ = none

-- The settings of one plan's upload: none, `Upload(None)`, or a target; and the dict with it put in.
unfoldable pub upload_of : Value → Fields → Result (Option Upload × Fields)
upload_of null d = ok (none, d)
upload_of (boolean false) d = ok (some no_upload, d)
upload_of (dict u) d =
    if is_some (get_first u)
    then (do (up, u') ← new_upload u; ok (some up, set_field "upload" (dict u') d))
    else ok (none, d)
  where
    get_first : Fields → Option String
    get_first Fields.end = none
    get_first (Fields.field k _ _) = some k
upload_of _ d = err value_error

-- The identifier of a plan: a new one where there is none.
unfoldable pub uuid_of : Files → String → Fields → Result (String × Fields)
uuid_of files fresh d = elim (nes_text (get_or_null "uuid" d)) [
  | none ↦ ok (fresh, set_field "uuid" (text fresh) d)
  | some t ↦ if files.uuid_valid t then ok (t, d) else err value_error
]

abbrev pub keep_bool : Bool → Keep
keep_bool true = always
keep_bool false = never

unfoldable pub keep_of : Value → Result Keep
keep_of (boolean b) = ok (keep_bool b)
keep_of (number (pos n)) = ok (if n == 0 then never else newest n)
keep_of (number (negsuc n)) = ok never
keep_of v = do b ← to_bool v true; ok (keep_bool b)

-- `Plan(data)`, where `uuid4()` gives `fresh`.
unfoldable pub new_plan : Files → String → Fields → Result (Plan × Fields)
new_plan files fresh d = do
  dir ← full_path (get_or_null "dir" d)
  given ← required (nes_text (get_or_null "path" d))
  raise_if (not (is_abs (with_slash given))) value_error
  wait ← required (wait_of (get_or (get_field "wait" d) (number (pos backup_wait_time))))
  schedule ← new_schedule (get_or_null "schedule" d)
  key ← full_path (get_or_null "public_key" d)
  exclude ← list_or_none (get_or_null "exclude" d)
  (upload, d') ← upload_of (get_or_null "upload" d) d
  (uuid, d'') ← uuid_of files fresh d'
  keep ← keep_of (get_or (get_field "keep" d) (boolean false))
  debug ← to_bool (get_or_null "debug" d) true
  ok (
    record {
      id = plan_id uuid;
      dir = dir;
      key = key;
      keep = keep;
      uuid = uuid;
      path = with_slash given;
      wait = wait;
      debug = debug;
      upload = upload;
      exclude = exclude;
      cmd_pre = get_or_null "command_pre" d;
      cmd_post = get_or_null "command_post" d;
      schedule = schedule;
      description = get_or_null "description" d;
    },
    d'',
  )

abbrev pub is_given : Value → Bool
is_given null = false
is_given _ = true

-- The end of `check`: the directory of the plan, and its key.
abbrev pub path_check : Files → Plan → Result (Unit {0})
path_check files p =
    if not (files.is_dir p.path) then err value_error else elim p.key as (λ _. Result (Unit {0})) [
      | none ↦ ok tt
      | some k ↦ elim (files.file_check k) as (λ _. Result (Unit {0})) [
        | none ↦ ok tt
        | some e ↦ err e
      ]
    ]

-- `Plan.check()`
unfoldable pub plan_check : Files → Plan → Result (Unit {0})
plan_check files p = elim p.dir as (λ _. Result (Unit {0})) [
  | none ↦ path_check files p
  | some dir ↦
      if not (files.is_dir dir)
      then if is_given p.cmd_pre then ok tt else err value_error
      else path_check files p
]

-- `_match_path_or_id(v, plan)`
unfoldable pub is_match : Value → Plan → Bool
is_match v p = elim (nes_text v) as (λ _. Bool) [
  | none ↦ false
  | some t ↦
      if str_length t == 10 && starts_with_char b'P' t
      then str_eq p.id t
      else if ends_with_char b'/' p.path && not (ends_with_char b'/' t)
      then str_eq (drop_last p.path) t
      else if not (ends_with_char b'/' p.path) && ends_with_char b'/' t
      then str_eq p.path (drop_last t)
      else str_eq p.path t
]
