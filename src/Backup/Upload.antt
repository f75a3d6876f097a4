-- ===== src/Backup/Upload.antt =====
-- usr/lib/smd/lib/modules/backup.py: `Upload`, where a backup is sent to.
pub mod Target
use Prim.Native.String.{◌++◌}
use spaceport.Base.{
  ℕ, suc, ◌+◌, String, Bool, true, false, not, ◌&&◌, ◌||◌, Option, none, some, ltb, leb, ◌==◌,
  if◌then◌else◌, is_some, str_eq,
}
use spaceport.Base.Int.{ℤ, pos, negsuc, abs}
use spaceport.Value.{
  Value, null, boolean, number, text, Fields, end, Result, ok, err, Exn, value_error, get_field,
  get_or_null, set_field,
}
use spaceport.Value.Do.{◌>>=◌, ◌>>◌, raise_if}
use spaceport.Util.{nes, num}
use spaceport.Backup.Constants.{backup_default_port}
use spaceport.Backup.Schedule.{get_or}
use spaceport.Backup.Text.{str_take, str_drop, str_length, find, rfind, full_path, nes_text}

-- `_host`, `port`, `_user` and `key`; `Upload(None)` has none of them.
pub record Upload : Type 0 where
  pub host : Option String
  pub port : Option ℕ
  pub user : Option String
  pub key : Option String

-- `Upload(None)`
abbrev pub no_upload : Upload
no_upload = record { host = none; port = none; user = none; key = none }

-- `_split_user(s, other)`: the text before the first `@`, and the one after it.
unfoldable pub split_user : String → Value → String × Value
split_user s other = elim (find b'@' s) [
  | none ↦ (s, other)
  | some i ↦
      if i == 0 || ltb (str_length s) (i + 1)
      then (s, other)
      else (str_take i s, text (str_drop (i + 1) s))
]

-- `i > n` for a place, where a missing one is -1
abbrev pub after : ℕ → Option ℕ → Bool
after n none = false
after n (some i) = ltb n i

-- `i > b` for two places
abbrev pub beyond : Option ℕ → Option ℕ → Bool
beyond none b = false
beyond (some i) none = true
beyond (some i) (some b) = ltb b i

abbrev pub place : Option ℕ → ℕ
place none = 0
place (some i) = i

-- `num(t, False)`, with every `ValueError` raised anew
abbrev pub port_number : String → Result Value
port_number t = elim (num (text t) false true) [ ok z ↦ ok (number z) | err e ↦ err value_error ]

-- `_split_port(s, other)`: a number after the last `:`, unless that stands inside brackets.
unfoldable pub split_port : String → Value → Result (String × Value)
split_port s other =
    let i = rfind b':' s in
    let b = rfind b']' s in
    if not (after 1 i) && not (after 1 b)
    then ok (s, other)
    else if after 1 i && beyond i b
    then (do p ← port_number (str_drop (place i + 1) s); ok (str_take (place i) s, p))
    else ok (s, other)

-- A port is a whole number in range; a truth value is one too.
unfoldable pub port_of : Value → Option ℕ
port_of (number (pos n)) = if ltb 0 n && ltb n 0xFFFF then some n else none
port_of (boolean true) = some 1
port_of _ = none

abbrev pub required {ℓ} : {A : Type ℓ} → Option A → Result A
required none = err value_error
required (some a) = ok a

abbrev pub key_value : Option String → Value
key_value none = null
key_value (some t) = text t

abbrev pub make_upload : Fields → String → String → Value → ℕ → Option String → Upload × Fields
make_upload d user host port_value port key = (
  record { host = some host; port = some port; user = some user; key = key },
  set_field "port" port_value (set_field "user" (text user) (set_field "host" (text host) d)),
)

-- The host may not be empty, and the key is a full path.
abbrev pub with_port : Fields → String → String → Value → ℕ → Result (Upload × Fields)
with_port d user host port_value port = do
  raise_if (str_eq host "") value_error
  key ← full_path (get_or_null "key" d)
  ok (make_upload d user host port_value port key)

abbrev pub with_host : Fields → String → String × Value → Result (Upload × Fields)
with_host d user (host, port_value) = do
  port ← required (port_of port_value)
  with_port d user host port_value port

abbrev pub with_user : Fields → String → String → Result (Upload × Fields)
with_user d named user = do
  at_port ← split_port named (get_or (get_field "port" d) (number (pos backup_default_port)))
  with_host d user at_port

abbrev pub with_name : Fields → String × Value → Result (Upload × Fields)
with_name d (named, user_value) = do user ← required (nes_text user_value); with_user d named user

-- `Upload(data)` for a dict: the upload, and the dict with the parts of the host put in.
unfoldable pub new_upload : Fields → Result (Upload × Fields)
new_upload d = do
  given ← required (nes_text (get_or_null "host" d))
  with_name d (split_user given (get_or_null "user" d))

-- `valid()`, which is also the truth value: its port is in range when it has one.
unfoldable pub valid : Upload → Bool
valid u = elim u.host [
  | none ↦ false
  | some h ↦
      not (str_eq h "")
      && elim u.port as (λ _. Bool) [ none ↦ false | some p ↦ ltb 0 p && ltb p 0xFFFF ]
]

-- `host()`: the target of `ssh` and `rsync`
unfoldable pub target : Upload → Option String
target u = elim u.user [
  | none ↦ u.host
  | some user ↦ elim u.host as (λ _. Option String) [
    | none ↦ some (user ++ "@None")
    | some h ↦ some (user ++ "@" ++ h)
  ]
]

-- `check()`: is the target reached? A key is looked at when it is; that can raise.
unfoldable pub check : (Upload → Bool) → (String → Option Exn) → Upload → Result Bool
check reached file_check u =
    if not (reached u) then ok false else elim u.key as (λ _. Result Bool) [
      | none ↦ ok true
      | some k ↦ elim (file_check k) as (λ _. Result Bool) [ none ↦ ok true | some e ↦ err e ]
    ]
