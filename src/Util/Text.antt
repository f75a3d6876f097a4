-- ===== src/Util/Text.antt =====
-- usr/lib/smd/lib/util/__init__.py: `time_to_str`.
use Prim.Native.String.{◌++◌}
use spaceport.Base.{
  ℕ, zero, suc, ◌+◌, ◌-◌, ◌*◌, ◌/◌, ◌%◌, String, ◌&&◌, ltb, ◌==◌, if◌then◌else◌, ◌≡◌, refl,
}
use spaceport.Base.Int.{round_div}

-- A time at which something expires: never, never since the ability is off, or at a second.
pub data Expiry : Type 0 where
  until_reboot disabled : Expiry
  at : ℕ → Expiry

digit : ℕ → String
digit zero = "0"
digit (suc zero) = "1"
digit (suc (suc zero)) = "2"
digit (suc (suc (suc zero))) = "3"
digit (suc (suc (suc (suc zero)))) = "4"
digit (suc (suc (suc (suc (suc zero))))) = "5"
digit (suc (suc (suc (suc (suc (suc zero)))))) = "6"
digit (suc (suc (suc (suc (suc (suc (suc zero))))))) = "7"
digit (suc (suc (suc (suc (suc (suc (suc (suc zero)))))))) = "8"
digit _ = "9"

show_fuel : ℕ → ℕ → String → String
show_fuel zero n acc = acc
show_fuel (suc f) n acc =
    let more = show_fuel f (n / 10) (digit (n % 10) ++ acc) in
    if ltb n 10 then digit n ++ acc else more

-- `f"{n}"`; a number has at most as many digits as its value plus one.
unfoldable pub show_number : ℕ → String
unfolding show_fuel digit
show_number n = show_fuel (n + 1) n ""

-- The hours, minutes and seconds of `t` seconds, as `time_to_str` subtracts them.
unfoldable pub split_time : ℕ → ℕ × ℕ × ℕ
split_time t =
    let h = t / 3600 in let rest = t - h * 3600 in let m = rest / 60 in (h, m, rest - m * 60)

show_split : ℕ × ℕ × ℕ → String
unfolding show_number
show_split (h, m, s) =
    if h == 0
    then (if s == 0 then show_number m ++ "m" else show_number m ++ "m " ++ show_number s ++ "s")
    else if m == 0
    then (if s == 0 then show_number h ++ "hr" else show_number h ++ "hr " ++ show_number s ++ "s")
    else if ltb 0 m && s == 0
    then show_number h ++ "hr " ++ show_number m ++ "m"
    else show_number h ++ "hr " ++ show_number m ++ "m " ++ show_number s ++ "s"

show_left : ℕ → String
unfolding show_split show_number split_time
show_left t =
    if t == 0 then "0s" else if ltb t 60 then show_number t ++ "s" else show_split (split_time t)

-- `time_to_str(value, now)`, with `now` in milliseconds. A time that has passed leaves 0.
unfoldable pub time_to_str : Expiry → ℕ → String
unfolding show_left
time_to_str until_reboot now = "Until Reboot"
time_to_str disabled now = "Ability Disabled"
time_to_str (at value) now = show_left (round_div (1000 * value - now) 1000)

time_to_str_runs : time_to_str (at 3725) 0 ≡ "1hr 2m 5s"
unfolding time_to_str round_div
time_to_str_runs = refl
