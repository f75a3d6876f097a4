-- ===== src/Hydra/Alias.antt =====
-- usr/lib/smd/lib/modules/hydra.py: `user_alias`, the names that a user gives to machines, in the configuration of the client.
use spaceport.Base.{
  ℕ, suc, String, Bool, true, not, ◌&&◌, Option, none, some, if◌then◌else◌, str_eq, is_some,
}
use spaceport.Value.{
  Value, text, dict, Fields, end, field, Result, ok, err, Exn, type_error, key_error, has_field,
  set_field, is_null,
}
use spaceport.Storage.{get, set}
use spaceport.Message.{Message, attr, attr_is}
use spaceport.Backup.Text.{nes_text}

abbrev pub hydra_user_directory : ℕ
hydra_user_directory = 0x18

abbrev pub hydra_user_add_alias : ℕ
hydra_user_add_alias = 0x19

abbrev pub hydra_user_delete_alias : ℕ
hydra_user_delete_alias = 0x20

-- The configuration, and how often it was saved
pub record Config : Type 0 where
  pub fields : Fields
  pub saves : ℕ

-- `del d[k]` for a key that is there
unfoldable pub erase_field : String → Fields → Fields
erase_field k end = end
erase_field k (field j v d) = if str_eq j k then d else field j v (erase_field k d)

-- `server.set(name, value)` and `server.save()`
unfoldable pub store : String → Value → Config → Option Exn × Config
store name v c =
    let (r, d) = set name v c.fields in
    elim r [
      | err e ↦ (some e, record c { fields = d })
      | ok _ ↦ (none, record { fields = d; saves = suc c.saves })
    ]

-- `a[n] = file`, and `a[n]` with `del a[n]`
unfoldable pub add_alias : String → Value → Value → Result Value
add_alias n file (dict d) = ok (dict (set_field n file d))
add_alias n file _ = err type_error

unfoldable pub delete_alias : String → Value → Result Value
delete_alias n (dict d) = if has_field n d then ok (dict (erase_field n d)) else err key_error
delete_alias n _ = err type_error

abbrev pub store_aliases : Result Value → Config → Option Exn × Config
store_aliases (err e) c = (some e, c)
store_aliases (ok a) c = store "hydra.aliases" a c

abbrev pub changed_alias : Bool → String → Value → Result Value → Result Value
changed_alias adds n file (err e) = err e
changed_alias adds n file (ok a) = if adds then add_alias n file a else delete_alias n a

-- The change of one alias
unfoldable pub change_alias : Bool → String → Value → Config → Option Exn × Config
change_alias adds n file c =
    let (r, d) = get "hydra.aliases" (dict end) true c.fields in
    store_aliases (changed_alias adds n file r) (record c { fields = d })

-- A request for an alias, whose name is there
unfoldable pub ask_alias : (String → String) → Message → String → Config → Option Exn × Config
ask_alias lower m name c =
    let adds = attr_is "type" m hydra_user_add_alias in
    if is_null (attr "vmid" m)
    then (none, c)
    else if not adds && not (attr_is "type" m hydra_user_delete_alias)
    then (none, c)
    else if adds && not (is_some (nes_text (attr "file" m)))
    then (none, c)
    else change_alias adds (lower name) (attr "file" m) c

-- `user_alias(server, message)`, where `lower` is Python's
unfoldable pub user_alias : (String → String) → Message → Config → Option Exn × Config
user_alias lower m c =
    if attr_is "type" m hydra_user_directory
    then (elim (nes_text (attr "directory" m)) [
      | none ↦ (none, c)
      | some d ↦ store "hydra.directory" (text d) c
    ])
    else elim (nes_text (attr "name" m)) [ none ↦ (none, c) | some name ↦ ask_alias lower m name c ]
