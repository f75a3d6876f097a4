-- ===== src/Backup/Text.antt =====
-- What the backups do with texts and paths (usr/lib/smd/lib/modules/backup.py): Python's slices and
-- searches. A place that is not found is `none`, for Python's -1.
use Prim.Native.Char.{code}
use Prim.Native.String.{◌++◌}
use spaceport.Base.{
  ℕ, zero, suc, ◌-◌, ◌/◌, ◌%◌, String, Bool, false, Option, none, some, ltb, ◌==◌, if◌then◌else◌,
  str_eq,
}
use spaceport.Value.{Value, text, Result, ok, err, value_error}

-- `s[0:n]`
abbrev pub str_take : ℕ → String → String
str_take zero s = ""
str_take (suc n) String.[] = ""
str_take (suc n) (String.◌∷◌ c s) = String.◌∷◌ c (str_take n s)

-- `s[n:]`
abbrev pub str_drop : ℕ → String → String
str_drop zero s = s
str_drop (suc n) String.[] = ""
str_drop (suc n) (String.◌∷◌ c s) = str_drop n s

abbrev pub str_length : String → ℕ
str_length String.[] = 0
str_length (String.◌∷◌ c s) = suc (str_length s)

abbrev pub next_place : Option ℕ → Option ℕ
next_place none = none
next_place (some i) = some (suc i)

-- `s.find(c)` for one character
unfoldable pub find : ℕ → String → Option ℕ
find k String.[] = none
find k (String.◌∷◌ c s) = let rest = next_place (find k s) in if code c == k then some 0 else rest

abbrev pub last_place : Bool → Option ℕ → Option ℕ
last_place here none = if here then some 0 else none
last_place here (some i) = some (suc i)

-- `s.rfind(c)` for one character
unfoldable pub rfind : ℕ → String → Option ℕ
rfind k String.[] = none
rfind k (String.◌∷◌ c s) = last_place (code c == k) (rfind k s)

-- `s[0] == c`
abbrev pub starts_with_char : ℕ → String → Bool
starts_with_char k String.[] = false
starts_with_char k (String.◌∷◌ c s) = code c == k

-- `s[-1] == c`
abbrev pub ends_with_char : ℕ → String → Bool
ends_with_char k String.[] = false
ends_with_char k (String.◌∷◌ c String.[]) = code c == k
ends_with_char k (String.◌∷◌ c (String.◌∷◌ d s)) = ends_with_char k (String.◌∷◌ d s)

-- `s[0:-1]`
abbrev pub drop_last : String → String
drop_last String.[] = ""
drop_last (String.◌∷◌ c String.[]) = ""
drop_last (String.◌∷◌ c (String.◌∷◌ d s)) = String.◌∷◌ c (drop_last (String.◌∷◌ d s))

-- `isabs(s)`
abbrev pub is_abs : String → Bool
is_abs s = starts_with_char b'/' s

-- The value of a text that is not empty, if it is one.
unfoldable pub nes_text : Value → Option String
nes_text (text t) = if str_eq t "" then none else some t
nes_text _ = none

-- A path that is to be full where it is given.
unfoldable pub full_path : Value → Result (Option String)
full_path v = elim (nes_text v) [
  | none ↦ ok none
  | some t ↦ if is_abs t then ok (some t) else err value_error
]

hex_digit : ℕ → String
hex_digit zero = "0"
hex_digit (suc zero) = "1"
hex_digit (suc (suc zero)) = "2"
hex_digit (suc (suc (suc zero))) = "3"
hex_digit (suc (suc (suc (suc zero)))) = "4"
hex_digit (suc (suc (suc (suc (suc zero))))) = "5"
hex_digit (suc (suc (suc (suc (suc (suc zero)))))) = "6"
hex_digit (suc (suc (suc (suc (suc (suc (suc zero))))))) = "7"
hex_digit (suc (suc (suc (suc (suc (suc (suc (suc zero)))))))) = "8"
hex_digit (suc (suc (suc (suc (suc (suc (suc (suc (suc zero))))))))) = "9"
hex_digit n = letter (n - 10)
  where
    letter : ℕ → String
    letter zero = "a"
    letter (suc zero) = "b"
    letter (suc (suc zero)) = "c"
    letter (suc (suc (suc zero))) = "d"
    letter (suc (suc (suc (suc zero)))) = "e"
    letter _ = "f"

-- The hexadecimal digits of a number below 16 ^ (f + 1).
show_hex : ℕ → ℕ → String → String
show_hex zero n acc = hex_digit (n % 16) ++ acc
show_hex (suc f) n acc =
    let more = show_hex f (n / 16) (hex_digit (n % 16) ++ acc) in
    if ltb n 16 then hex_digit n ++ acc else more

zeros : ℕ → String
zeros zero = ""
zeros (suc n) = "0" ++ zeros n

-- `s.zfill(n)` for a text without a sign
unfoldable pub zfill : ℕ → String → String
unfolding zeros
zfill n s = zeros (n - str_length s) ++ s

-- `hex(n)[2:]` for a number of 32 bits
unfoldable pub hex : ℕ → String
unfolding show_hex hex_digit
hex n = show_hex 7 n ""

-- `f"{dir}/backup-{id}-{stamp}"`
abbrev pub backup_path : String → String → String → String
backup_path dir id stamp = dir ++ "/backup-" ++ id ++ "-" ++ stamp
