-- ===== src/Value.antt =====
-- The values that SMD reads from JSON (configuration files and message payloads), and what Python's
-- built-in operations do with them. A dict is a list of fields in insertion order, whose keys are
-- texts. A float is the exact number that it holds, `(-1)^sign * mantissa / 2^scale`; infinities and
-- NaN, which JSON does not have, are left out.
pub mod Laws
pub mod Do
use spaceport.Base.{
  ℕ, String, Bool, true, false, not, Option, none, some, List, [], ◌∷◌, ◌==◌, ◌*◌, ◌^◌, ◌&&◌, ◌||◌,
  str_eq, if◌then◌else◌, is_some, codes,
}
use spaceport.Base.Int.{ℤ, pos, negsuc, is_zero}

-- The built-in exceptions that the modelled code raises or lets pass.
pub data Exn : Type 0 where
  value_error type_error key_error attribute_error index_error overflow_error struct_error : Exn
  -- an `OSError`, with its `errno`
  os_error : ℕ → Exn

pub data Result {ℓ} (A : Type ℓ) : Type ℓ where
  ok : A → Result A
  err : Exn → Result A

mutual
  pub data Value : Type 0 where
    null : Value
    boolean : Bool → Value
    number : ℤ → Value
    float : Bool → ℕ → ℕ → Value
    text : String → Value
    arr : Items → Value
    dict : Fields → Value

  pub data Items : Type 0 where
    nil : Items
    cons : Value → Items → Items

  pub data Fields : Type 0 where
    end : Fields
    field : String → Value → Fields → Fields

-- `d.get(k)`, with `none` for a missing key.
abbrev pub get_field : String → Fields → Option Value
get_field k end = none
get_field k (field j v d) = if str_eq j k then some v else get_field k d

-- `d.get(k)`, as Python gives it: `None` for a missing key.
abbrev pub get_or_null : String → Fields → Value
get_or_null k d = elim (get_field k d) [ none ↦ null | some v ↦ v ]

-- `k in d`
abbrev pub has_field : String → Fields → Bool
has_field k d = is_some (get_field k d)

-- `d[k] = v`
abbrev pub set_field : String → Value → Fields → Fields
set_field k v end = field k v end
set_field k v (field j w d) = if str_eq j k then field k v d else field j w (set_field k v d)

abbrev pub field_names : Fields → List String
field_names end = []
field_names (field k _ d) = k ∷ field_names d

-- `v is None`
abbrev pub is_null : Value → Bool
is_null null = true
is_null _ = false

abbrev pub is_text : Value → Bool
is_text (text _) = true
is_text _ = false

-- The truth value that `if v` and `not v` use.
abbrev pub truthy : Value → Bool
truthy null = false
truthy (boolean b) = b
truthy (number z) = not (is_zero z)
truthy (float _ m _) = not (m == 0)
truthy (text s) = not (str_eq s "")
truthy (arr nil) = false
truthy (arr (cons _ _)) = true
truthy (dict end) = false
truthy (dict (field _ _ _)) = true

-- `v == n` for a whole number n, which booleans and floats can equal too.
abbrev pub eq_number : Value → ℕ → Bool
eq_number (boolean b) n = (if b then 1 else 0) == n
eq_number (number (pos m)) n = m == n
eq_number (float sign m k) n = m == n * 2 ^ k && (not sign || (m == 0))
eq_number _ n = false

-- `v == s` for a text s.
abbrev pub eq_text : Value → String → Bool
eq_text (text t) s = str_eq t s
eq_text _ s = false

abbrev pub any_text : String → Items → Bool
any_text s nil = false
any_text s (cons v vs) = eq_text v s || any_text s vs

-- `s in t` between texts, on code points.
abbrev pub starts_with : List ℕ → List ℕ → Bool
starts_with [] t = true
starts_with (c ∷ s) [] = false
starts_with (c ∷ s) (d ∷ t) = (c == d) && starts_with s t

pub is_substring : List ℕ → List ℕ → Bool
is_substring s [] = starts_with s []
is_substring s (d ∷ t) = starts_with s (d ∷ t) || is_substring s t

-- `s in v` for a text s: membership, a key, a substring, or a `TypeError`.
unfoldable pub contains_text : String → Value → Result Bool
unfolding is_substring
contains_text s (arr vs) = ok (any_text s vs)
contains_text s (dict d) = ok (has_field s d)
contains_text s (text t) = ok (is_substring (codes s) (codes t))
contains_text s _ = err type_error
