-- ===== src/Hydra/Devices.antt =====
-- usr/lib/smd/lib/modules/hydra.py: the USB devices of a `VM`.
pub mod Single
use spaceport.Base.{
  ℕ, suc, String, Bool, true, false, not, ◌&&◌, Option, none, some, List, [], ◌∷◌, ◌==◌,
  if◌then◌else◌, any, str_eq,
}
use Prim.Native.String.{◌++◌}
use spaceport.Base.Int.{ℤ, pos, negsuc}
use spaceport.Base.Dict.{Dict, contains, insert, erase, lookup}
use spaceport.Value.{Value, null, Result, ok, err, type_error, key_error, is_null}
use spaceport.Util.{num}
use spaceport.Backup.Text.{nes_text}
use spaceport.Hydra.State.{
  Vm, Shared, Env, Answer, Ended, returned, error, crash, is_running, After, and_then,
}
use spaceport.Hydra.Machine.{cmd, ended}

-- `_usb[i], manager._usb[i] = n, vmid` after the command
abbrev pub attached : String → ℕ → Ended → Vm → Shared → After
attached i n returned v s =
    (returned, (record v { usb = insert i n v.usb }, record s { usb = insert i v.vmid s.usb }))
attached i n (error _) v s = (error "cannot add device", (v, s))
attached i n (crash x) v s = (crash x, (v, s))

unfoldable pub attach : Env → String → ℕ → Vm → Shared → After
attach env i n v s = let (a, v') = cmd env 0 false v in attached i n (ended a) v' s

-- The number of the device: with others there, `max` of their names and 1 are added.
unfoldable pub attach_next : Env → String → Dict ℕ → Vm → Shared → After
attach_next env i [] v s = attach env i 1 v s
attach_next env i (_ ∷ _) v s = (crash type_error, (v, s))

-- `_usb_add` for a device with this name
unfoldable pub usb_add_named : Env → List String → String → Vm → Shared → After
usb_add_named env devices i v s =
    if not (any (str_eq i) devices)
    then (error "device not found", (v, s))
    else if not (is_running env v)
    then (error "cannot add a device while stopped", (v, s))
    else if contains i v.usb
    then (error "device is already mounted", (v, s))
    else if contains i s.usb
    then (error "device is already mounted to another VM", (v, s))
    else attach_next env i v.usb v s

-- The name of a device, where both values are texts.
abbrev pub device_name : Env → Value → Value → Option String
device_name env vendor product = elim (nes_text vendor) [
  | none ↦ none
  | some a ↦ elim (nes_text product) [ none ↦ none | some b ↦ some (env.lower (a ++ ":" ++ b)) ]
]

unfoldable pub add_device : Env → List String → Option String → Vm → Shared → After
add_device env devices none v s = (error "device vendor and product cannot be empty", (v, s))
add_device env devices (some i) v s = usb_add_named env devices i v s

-- `_usb_add(server, manager, vendor, product, slow)`, where these devices are found
unfoldable pub usb_add : Env → List String → Value → Value → Vm → Shared → After
usb_add env devices vendor product v s = add_device env devices (device_name env vendor product) v s

-- `del self._usb[k], manager._usb[k]`
unfoldable pub detach : String → Vm → Shared → After
detach k v s =
    let v' = record v { usb = erase k v.usb } in
    if contains k s.usb
    then (returned, (v', record s { usb = erase k s.usb }))
    else (crash key_error, (v', s))

-- The first device with a number
abbrev pub with_number : ℕ → Dict ℕ → Option String
with_number n [] = none
with_number n ((k, m) ∷ d) = if m == n then some k else with_number n d

abbrev pub device_numbered : Result ℤ → Vm → Result (Option String)
device_numbered (ok (pos n)) v = ok (with_number n v.usb)
device_numbered (ok (negsuc n)) v = ok none
device_numbered (err x) v = err x

-- The end of `_usb_remove`
abbrev pub detached : String → Ended → Vm → Shared → After
detached k returned v s = detach k v s
detached k (error _) v s = (error "cannot remove device", (v, s))
detached k (crash x) v s = (crash x, (v, s))

unfoldable pub usb_remove_named : Env → String → Vm → Shared → After
usb_remove_named env k v s = let (a, v') = cmd env 0 false v in detached k (ended a) v' s

-- The device with a number, if there is one, is removed, or the one with a name.
unfoldable pub remove_number : Env → Result (Option String) → Vm → Shared → After
remove_number env (err _) v s = (error "device ID must be a non-zero positive number", (v, s))
remove_number env (ok none) v s = (error "device ID is not connected", (v, s))
remove_number env (ok (some k)) v s = usb_remove_named env k v s

unfoldable pub remove_device : Env → Option String → Vm → Shared → After
remove_device env none v s = (error "device ID or device vendor/product must be specified", (v, s))
remove_device env (some k) v s =
    if contains k v.usb
    then usb_remove_named env k v s
    else (error "device is not connected", (v, s))

-- `_usb_remove(server, manager, vendor, product, usb)`
unfoldable pub usb_remove : Env → Value → Value → Value → Vm → Shared → After
usb_remove env vendor product usb v s =
    if not (is_null usb)
    then remove_number env (device_numbered (num usb false true) v) v s
    else remove_device env (device_name env vendor product) v s

-- The loop of `_usb_clean`, from its i-th turn on
unfoldable pub clean_from : Env → ℕ → Dict ℕ → Vm → Shared → After
clean_from env i [] v s = (returned, (record v { usb = [] }, s))
clean_from env i ((k, _) ∷ d) v s =
    let (a, v') = cmd env i false v in
    and_then (clean_from env (suc i) d) (detached k (ended a) v' s)

-- `_usb_clean(server, manager)`: its test is of the method `_running` itself, which is always true.
unfoldable pub usb_clean : Env → Vm → Shared → After
usb_clean env v s = clean_from env 0 v.usb v s
