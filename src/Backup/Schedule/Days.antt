-- ===== src/Backup/Schedule/Days.antt =====
-- usr/lib/smd/lib/modules/backup.py: the days that `Schedule` reads, and the beginnings of their names.
use spaceport.Base.{
  ℕ, zero, suc, ◌<◌, ◌≡◌, refl, Bool, false, ◌||◌, none, some, List, map, codes, arith, inl, inr,
  Option-cases,
}
use spaceport.Value.{
  Value, null, boolean, number, float, text, arr, dict, Items, nil, cons, starts_with,
}
use spaceport.Util.{lower}
use spaceport.Backup.Schedule.{Schedule, is_day, second_letter, any_day, runnable, item_is_day}

-- The letters by which a day of the week is known, from Monday on.
abbrev pub day_letters : ℕ → List ℕ
day_letters zero = codes "m"
day_letters (suc zero) = codes "tu"
day_letters (suc (suc zero)) = codes "w"
day_letters (suc (suc (suc zero))) = codes "th"
day_letters (suc (suc (suc (suc zero)))) = codes "f"
day_letters (suc (suc (suc (suc (suc zero))))) = codes "sa"
day_letters _ = codes "su"

is_day_lem : (day : ℕ) (v : List ℕ) → day < 7 → is_day day v ≡ starts_with (day_letters day) v
unfolding is_day second_letter
is_day_lem zero v h = ground arith
is_day_lem (suc zero) v h = ground arith
is_day_lem (suc (suc zero)) v h = ground arith
is_day_lem (suc (suc (suc zero))) v h = ground arith
is_day_lem (suc (suc (suc (suc zero)))) v h = ground arith
is_day_lem (suc (suc (suc (suc (suc zero))))) v h = ground arith
is_day_lem (suc (suc (suc (suc (suc (suc zero)))))) v h = ground arith
is_day_lem (suc (suc (suc (suc (suc (suc (suc n))))))) v h = absurd (omega arith)

-- A text that begins with the letters of a day.
abbrev pub names_day : ℕ → Value → Bool
names_day day (text t) = starts_with (day_letters day) (map lower (codes t))
names_day day _ = false

unfoldable pub any_item : (Value → Bool) → Items → Bool
any_item p nil = false
any_item p (cons v vs) = p v || any_item p vs

item_is_day_lem : (day : ℕ) (v : Value) → day < 7 → item_is_day day v ≡ names_day day v
item_is_day_lem day (text t) h = is_day_lem day (map lower (codes t)) h
item_is_day_lem day null h = refl
item_is_day_lem day (boolean _) h = refl
item_is_day_lem day (number _) h = refl
item_is_day_lem day (float _ _ _) h = refl
item_is_day_lem day (arr _) h = refl
item_is_day_lem day (dict _) h = refl

any_day_lem : (day : ℕ) (vs : Items) → day < 7 → any_day day vs ≡ any_item (names_day day) vs
unfolding any_day any_item
any_day_lem day nil h = refl
any_day_lem day (cons v vs) h = rw (item_is_day_lem day v h, any_day_lem day vs h) refl

-- A plan runs on a day of the week exactly when its schedule has a list of days with a text in it that
-- begins, in small or capital letters, with the letters of that day: m, tu, w, th, f, sa or su.
pub runnable_days :
    (s : Schedule) (day : ℕ)
    → day < 7
    → runnable s day
      ≡ elim s.days as (λ _. Bool) [ none ↦ false | some vs ↦ any_item (names_day day) vs ]
unfolding runnable
runnable_days s day h = elim (Option-cases s.days) [
  | inl e ↦ rw e refl
  | inr (vs, e) ↦ rw e (any_day_lem day vs h)
]
