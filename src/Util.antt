-- ===== src/Util.antt =====
-- usr/lib/smd/lib/util/__init__.py: the conversions and the small functions that every module uses.
-- A `ValueError` or an `IndexError` is a value of the result.
mod Text
pub mod Exec
unfoldable pub use Text.{time_to_str, split_time, show_number}
pub use Text.{Expiry, until_reboot, disabled, at}
use Prim.Native.Nat.{bit_xor}
use spaceport.Base.{
  ℕ, ◌+◌, ◌-◌, ◌*◌, ◌^◌, ◌%◌, ◌/◌, String, Bool, true, false, not, ◌&&◌, ◌||◌, Option, none, some,
  List, [], ◌∷◌, ◌++◌, reverse, map, ltb, leb, ◌==◌, if◌then◌else◌, codes, str_eq,
}
use spaceport.Base.Int.{ℤ, pos, negsuc, signed, abs, is_positive, round_div}
use spaceport.Value.{
  Value, null, boolean, number, float, text, arr, dict, Result, ok, err, value_error, index_error,
}

-- `nes(v)` for a value of any type
unfoldable pub nes : Value → Bool
nes (text s) = not (str_eq s "")
nes _ = false

is_a2z : List ℕ → Bool
is_a2z [] = true
is_a2z (c ∷ s) = leb 0x61 c && leb c 0x7A && is_a2z s

unfoldable pub a2z : Value → Bool
unfolding nes is_a2z
a2z (text s) = if nes (text s) then is_a2z (codes s) else false
a2z _ = false

-- `str.encode("UTF-8")`, a code point at a time
encode_point : ℕ → List ℕ
encode_point c =
    if ltb c 0x80
    then c ∷ []
    else if ltb c 0x800
    then (0xC0 + c / 64) ∷ (0x80 + c % 64) ∷ []
    else if ltb c 0x10000
    then (0xE0 + c / 4096) ∷ (0x80 + c / 64 % 64) ∷ (0x80 + c % 64) ∷ []
    else (0xF0 + c / 262144) ∷ (0x80 + c / 4096 % 64) ∷ (0x80 + c / 64 % 64) ∷ (0x80 + c % 64) ∷ []

encode : List ℕ → List ℕ
unfolding encode_point
encode [] = []
encode (c ∷ s) = encode_point c ++ encode s

-- `h & 0xFFFFFFFF`
abbrev u32 : ℕ → ℕ
u32 n = n % 2 ^ 32

-- The loop of `fnv32`.
fnv_loop : ℕ → List ℕ → ℕ
fnv_loop h [] = h
fnv_loop h (i ∷ d) = fnv_loop (u32 (bit_xor (u32 (h * 0x1000193)) i)) d

unfoldable pub fnv32 : String → ℕ
unfolding fnv_loop encode
fnv32 v = fnv_loop 0x811C9DC5 (encode (codes v))

-- `str.isspace` of one code point
is_space : ℕ → Bool
is_space c =
    leb 9 c && leb c 13
    || leb 28 c && leb c 32
    || c == 0x85
    || c == 0xA0
    || c == 0x1680
    || leb 0x2000 c && leb c 0x200A
    || c == 0x2028
    || c == 0x2029
    || c == 0x202F
    || c == 0x205F
    || c == 0x3000

strip_left : List ℕ → List ℕ
unfolding is_space
strip_left [] = []
strip_left (c ∷ s) = let rest = strip_left s in if is_space c then rest else c ∷ s

-- `str.strip()`
strip : List ℕ → List ℕ
unfolding strip_left
strip s = reverse (strip_left (reverse (strip_left s)))

unfoldable pub lower : ℕ → ℕ
lower c = if leb 0x41 c && leb c 0x5A then c + 32 else c

-- The digits of `int(s, 10)`: one `_` may stand between two digits.
read_digits : ℕ → Bool → List ℕ → Option ℕ
read_digits acc after_digit [] = if after_digit then some acc else none
read_digits acc after_digit (c ∷ s) =
    let next = read_digits (acc * 10 + (c - b'0')) true s in
    let gap = read_digits acc false s in
    if leb b'0' c && leb c b'9' then next else if c == b'_' && after_digit then gap else none

read_signed : Bool → Option ℕ → Result ℤ
read_signed sign none = err value_error
read_signed sign (some n) = ok (signed sign n)

read_sign : List ℕ → Result ℤ
unfolding read_digits read_signed
read_sign [] = err value_error
read_sign (c ∷ s) =
    if c == b'-'
    then read_signed true (read_digits 0 false s)
    else if c == b'+'
    then read_signed false (read_digits 0 false s)
    else read_signed false (read_digits 0 false (c ∷ s))

-- `int(s, 10)`
unfoldable pub int10 : String → Result ℤ
unfolding read_sign strip
int10 s = read_sign (strip (codes s))

-- `abs(…)` of a result
unfoldable pub drop_sign : Bool → Result ℤ → Result ℤ
drop_sign true r = r
drop_sign false (ok z) = ok (pos (abs z))
drop_sign false (err e) = err e

-- `num(val, neg, soft_fail)`
unfoldable pub num : Value → Bool → Bool → Result ℤ
unfolding drop_sign
num null neg soft_fail = if soft_fail then ok (pos 0) else err value_error
num (boolean b) neg soft_fail = ok (pos (if b then 1 else 0))
num (number z) neg soft_fail = drop_sign neg (ok z)
num (float sign m k) neg soft_fail = drop_sign neg (ok (signed sign (round_div m (2 ^ k))))
num (text s) neg soft_fail =
    if str_eq s ""
    then if soft_fail then ok (pos 0) else err value_error
    else drop_sign neg (int10 s)
num (arr _) neg soft_fail = err value_error
num (dict _) neg soft_fail = err value_error

is_end : List ℕ → Bool
is_end [] = true
is_end (_ ∷ _) = false

is_n : List ℕ → Bool
unfolding is_end
is_n [] = false
is_n (d ∷ r) = d == b'n' && is_end r

-- The tests of `boolean` on the stripped text, whose first character is read at once.
starts_like_true : List ℕ → Result Bool
unfolding is_end is_n
starts_like_true [] = err index_error
starts_like_true (c ∷ s) =
    ok (c == b't' || c == b'y' || c == b'e' || c == b'1' && is_end s || c == b'o' && is_n s)

-- `boolean(value, int_check)`: a text of blanks alone makes `v[0]` raise.
unfoldable pub to_bool : Value → Bool → Result Bool
unfolding starts_like_true lower strip
to_bool null int_check = ok false
to_bool (boolean b) int_check = ok b
to_bool (number z) int_check = ok (int_check && is_positive z)
to_bool (float sign m k) int_check = ok (int_check && not sign && ltb 0 m)
to_bool (text s) int_check =
    if str_eq s "" then ok false else starts_like_true (strip (map lower (codes s)))
to_bool (arr _) int_check = ok false
to_bool (dict _) int_check = ok false
