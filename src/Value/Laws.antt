-- ===== src/Value/Laws.antt =====
-- The laws of the fields of a Python dict (Value.antt).
use spaceport.Base.{String, ◌≡◌, refl, ◌≢◌, some, arith, eq_iff, str_eq, str_eq_self, if◌then◌else◌}
use spaceport.Value.{Value, Fields, end, field, get_field, set_field}

pub get_field-set_field :
    (k j : String) (v : Value) (d : Fields)
    → get_field j (set_field k v d) ≡ (if str_eq k j then some v else get_field j d)
get_field-set_field k j v end = refl
get_field-set_field k j v (field i w d) =
    ground (arith, eq_iff k j, eq_iff i k, eq_iff i j, get_field-set_field k j v d)

pub get_field-set_field_self :
    (k : String) (v : Value) (d : Fields) → get_field k (set_field k v d) ≡ some v
get_field-set_field_self k v d = ground (arith, get_field-set_field k k v d, str_eq_self k)

pub get_field-set_field_ne :
    (k j : String) (v : Value) (d : Fields) → k ≢ j → get_field j (set_field k v d) ≡ get_field j d
get_field-set_field_ne k j v d h = ground (arith, get_field-set_field k j v d, eq_iff k j)

pub set_field-set_field :
    (k : String) (v w : Value) (d : Fields) → set_field k w (set_field k v d) ≡ set_field k w d
set_field-set_field k v w end = ground (arith, str_eq_self k)
set_field-set_field k v w (field i u d) =
    ground (arith, str_eq_self k, eq_iff i k, set_field-set_field k v w d)
