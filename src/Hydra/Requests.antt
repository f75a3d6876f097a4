-- ===== src/Hydra/Requests.antt =====
-- usr/lib/smd/lib/modules/hydra.py: `HydraServer.hook` and `_get_vm`. The addresses in the reply of `_ip` are left out.
use spaceport.Base.{
  ℕ, String, Bool, true, false, not, ◌&&◌, ◌||◌, Option, none, some, List, [], ◌∷◌, leb, ◌==◌,
  if◌then◌else◌, length, is_some,
}
use spaceport.Base.Int.{ℤ, pos, negsuc}
use spaceport.Base.Table.{Table, lookup, contains, insert, erase}
use spaceport.Value.{
  Value, boolean, number, text, Result, ok, err, is_null, truthy, field_names, get_field,
}
use spaceport.Storage.{set}
use spaceport.Util.{num}
use spaceport.Message.{Message, attr, attr_is, multicast}
use spaceport.Constants.{msg_status, hook_shutdown}
use spaceport.Backup.Text.{nes_text}
use spaceport.Hydra.State.{Vm, Shared, Env, Ended, returned, error, crash, is_running, After}
use spaceport.Hydra.Machine.{
  Status, status, is_stopped, is_sleeping, is_active, sleep, hibernate, restart, ping, cmd,
}
use spaceport.Hydra.Devices.{usb_add, usb_remove, usb_clean}
use spaceport.Hydra.Stop.{stop}
use spaceport.Hydra.Start.{Setup, start}
use spaceport.Hydra.Alias.{hydra_user_directory}
use spaceport.Hydra.Server.{Hydra, World, start_server, stop_server}

-- The types of the requests
abbrev pub hydra_stop : ℕ
hydra_stop = 0x11

abbrev pub hydra_wake : ℕ
hydra_wake = 0x12

abbrev pub hydra_start : ℕ
hydra_start = 0x13

abbrev pub hydra_sleep : ℕ
hydra_sleep = 0x14

abbrev pub hydra_usb_add : ℕ
hydra_usb_add = 0x15

abbrev pub hydra_usb_delete : ℕ
hydra_usb_delete = 0x17

abbrev pub hydra_usb_clean : ℕ
hydra_usb_clean = 0x21

abbrev pub hydra_ga_ip : ℕ
hydra_ga_ip = 0x22

abbrev pub hydra_ga_ping : ℕ
hydra_ga_ping = 0x23

abbrev pub hydra_tap : ℕ
hydra_tap = 0x24

abbrev pub hydra_restart : ℕ
hydra_restart = 0x25

abbrev pub hydra_hibernate : ℕ
hydra_hibernate = 0x26

-- What `hook` returns or raises: nothing, the status of all machines or of one (with whether its guest answered a
-- ping), an error, `True`, a message for all clients, or an exception.
pub data Reply : Type 0 where
  nothing : Reply
  statuses : List Status → Reply
  one_status : Status → Reply
  pinged : Status → Bool → Reply
  refused : String → Reply
  yes : Reply
  relayed : Message → Reply
  raised : Ended → Reply

-- The machine that the file of a request describes, or why it cannot be loaded, and the USB devices that are found.
pub record Loaded : Type 0 where
  pub vm : Option Vm
  pub setup : Setup
  pub devices : List String

-- `_get_vm`: a machine, and whether it is a new one.
abbrev pub Found : Type 0
Found = Option (Vm × Bool)

abbrev pub load_vm : World → Message → Loaded → Hydra → Found
load_vm w m l h = if not (is_some (nes_text (attr "file" m))) then none else elim l.vm [
  | none ↦ none
  | some v ↦ elim (lookup v.vmid h.vms) [
    | none ↦ some (v, true)
    | some x ↦ if is_running (w.env v.vmid) x then some (x, false) else some (v, true)
  ]
]

abbrev pub known_vm : Result ℤ → Hydra → Result (Option Vm)
known_vm (ok (pos n)) h = ok (lookup n h.vms)
known_vm (ok (negsuc n)) h = ok none
known_vm (err x) h = err x

-- `_get_vm(server, message)`: none where it raises an `Error`.
unfoldable pub get_vm : World → Message → Loaded → Hydra → Found
get_vm w m l h =
    if is_null (attr "vmid" m)
    then load_vm w m l h
    else elim (known_vm (num (attr "vmid" m) true true) h) [
      | err _ ↦ none
      | ok (some v) ↦ some (v, false)
      | ok none ↦ load_vm w m l h
    ]

-- The reply to a request for a machine, by how it ended
abbrev pub reply_to : Reply → Ended → Reply
reply_to r returned = r
reply_to r (error e) = refused e
reply_to r (crash x) = raised (crash x)

abbrev pub put_vm : Vm → Hydra → Hydra
put_vm v h = record h { vms = insert v.vmid v h.vms }

abbrev pub put_both : Vm → Shared → Hydra → Hydra
put_both v s h = record h { vms = insert v.vmid v h.vms; shared = s }

-- The machine after a call, and its status as the reply
abbrev pub with_status : Env → After → Hydra → Reply × Hydra
with_status env (e, (v, s)) h = (reply_to (one_status (status env v)) e, put_both v s h)

abbrev pub with_yes : Ended × Vm → Hydra → Reply × Hydra
with_yes (e, v) h = (reply_to yes e, put_vm v h)

-- `message.get("timeout", 90)`
abbrev pub timeout_of : Message → Value
timeout_of m = elim (get_field "timeout" m.payload) [ none ↦ number (pos 90) | some v ↦ v ]

-- A request for a machine that runs
unfoldable pub ask_vm : Env → List String → Message → Vm → Hydra → Reply × Hydra
ask_vm env devices m v h =
    if attr_is "type" m hydra_sleep || attr_is "type" m hydra_wake
    then (let (e, v') = sleep (attr_is "type" m hydra_sleep) v in
        with_status env (e, (v', h.shared)) h)
    else if attr_is "type" m hydra_stop
    then with_status env (stop env (truthy (attr "force" m)) (timeout_of m) false v h.shared) h
    else if attr_is "type" m hydra_ga_ip
    then (let (_, v') = cmd env 0 true v in (one_status (status env v'), put_vm v' h))
    else if attr_is "type" m hydra_ga_ping
    then (let ((st, b), v') = ping env v in (pinged st b, put_vm v' h))
    else if attr_is "type" m hydra_tap
    then (let (e, (v', s)) = stop env false (number (pos 90)) true v h.shared in
        (reply_to yes e, put_both v' s h))
    else if attr_is "type" m hydra_restart
    then with_yes (restart env (truthy (attr "force" m)) v) h
    else if attr_is "type" m hydra_hibernate
    then with_yes (hibernate env v) h
    else if attr_is "type" m hydra_usb_clean
    then with_status env (usb_clean env v h.shared) h
    else if attr_is "type" m hydra_usb_add
    then with_status env (usb_add env devices (attr "vendor" m) (attr "product" m) v h.shared) h
    else if attr_is "type" m hydra_usb_delete
    then with_status env
        (usb_remove env (attr "vendor" m) (attr "product" m) (attr "usb" m) v h.shared) h
    else (refused "unknown or invalid command", h)

-- A request to start a machine that stands in the table: one that sleeps is woken.
unfoldable pub start_known : Env → Setup → Vm → Hydra → Reply × Hydra
start_known env u v h =
    if not (is_sleeping v.state)
    then (one_status (status env v), h)
    else elim (start env u v h.shared).0 [
      | returned ↦
          let (v', s) = (start env u v h.shared).1 in (one_status (status env v'), put_both v' s h)
      | e ↦ let (v', s) = (start env u v h.shared).1 in (raised e, put_both v' s h)
    ]

-- A machine that could not be started goes out of the table, where it stands there.
abbrev pub not_started : Env → Vm → Hydra → Hydra
not_started env v h =
    if contains v.vmid h.vms && (not (is_running env v) || not (is_active v.state))
    then record h { vms = erase v.vmid h.vms }
    else h

abbrev pub started : Env → After → Hydra → Reply × Hydra
started env (returned, (v, s)) h = (one_status (status env v), put_both v s h)
started env (error e, (v, s)) h = (refused e, not_started env v (record h { shared = s }))
started env (crash x, (v, s)) h = (raised (crash x), record h { shared = s })

-- A request to start a machine that was loaded: the services first, then the machine, whether they came up or not.
unfoldable pub start_new : World → Setup → Vm → Hydra → Reply × Hydra
start_new w u v h = elim (start_server w h).0 [
  | returned ↦
      let h' = (start_server w h).1 in
      started (w.env v.vmid) (start (w.env v.vmid) u v h'.shared) h'
  | e ↦ (raised e, (start_server w h).1)
]

-- `message.set("vmid", …)` and `message.set("file", …)`, for all clients
abbrev pub told : Vm → Message → Message
told v m = multicast (record m {
  payload = (set "file" (text v.path) (set "vmid" (number (pos v.vmid)) m.payload).1).1;
})

-- `hook` once the machine is known
unfoldable pub hook_vm : World → Message → Loaded → Vm × Bool → Hydra → Reply × Hydra
hook_vm w m l (v, new) h =
    let env = w.env v.vmid in
    if truthy (attr "user" m)
    then (relayed (told v m), h)
    else if attr_is "type" m msg_status
    then (one_status (status env v), h)
    else if attr_is "type" m hydra_start
    then (if new then start_new w l.setup v h else start_known env l.setup v h)
    else if not (is_running env v) || is_stopped v.state
    then (refused "VM is not running!", h)
    else ask_vm env l.devices m v h

-- What is done to each machine that runs: an `Error` is logged.
unfoldable pub all_one : Env → Message → Vm → Shared → After
all_one env m v s =
    if attr_is "type" m hydra_stop
    then stop env (truthy (attr "force" m)) (number (pos 90)) false v s
    else if attr_is "type" m hydra_wake || attr_is "type" m hydra_sleep
    then (let (e, v') = sleep (attr_is "type" m hydra_sleep) v in (e, (v', s)))
    else if attr_is "type" m hydra_hibernate
    then (let (e, v') = hibernate env v in (e, (v', s)))
    else if attr_is "type" m hydra_restart
    then (let (e, v') = restart env (truthy (attr "force" m)) v in (e, (v', s)))
    else (returned, (v, s))

-- The loop of `hook` over the machines
unfoldable pub all_each : World → Message → Table Vm → Hydra → Ended × Hydra
all_each w m [] h = (returned, h)
all_each w m ((k, v) ∷ d) h =
    if not (is_running (w.env k) v)
    then all_each w m d h
    else let (e, (v', s)) = all_one (w.env k) m v h.shared in
      let h' = record h { vms = insert k v' h.vms; shared = s } in
      let rest = all_each w m d h' in
      elim e as (λ _. Ended × Hydra) [ crash x ↦ (crash x, h') | _ ↦ rest ]

abbrev pub status_each : World → Table Vm → List Status
status_each w [] = []
status_each w ((k, v) ∷ d) = status (w.env k) v ∷ status_each w d

abbrev pub all_done : World → Ended × Hydra → Reply × Hydra
all_done w (crash x, h) = (raised (crash x), h)
all_done w (_, h) = (statuses (status_each w h.vms), h)

-- `isinstance(v, int)`
abbrev pub is_int : Value → Bool
is_int (boolean _) = true
is_int (number _) = true
is_int _ = false

abbrev pub shut_down : Ended × Hydra → Reply × Hydra
shut_down (returned, h) = (nothing, h)
shut_down (e, h) = (raised e, h)

-- `hook(server, message)`
unfoldable pub hook : World → Message → Loaded → Hydra → Reply × Hydra
hook w m l h =
    if m.header == hook_shutdown
    then shut_down (stop_server w h)
    else if not (is_int (attr "type" m))
    then (nothing, h)
    else if attr_is "type" m msg_status && leb (length (field_names m.payload)) 2
    then (statuses (status_each w h.vms), h)
    else if truthy (attr "user" m) && attr_is "type" m hydra_user_directory
    then (relayed (multicast m), h)
    else if truthy (attr "all" m)
    then all_done w (all_each w m h.vms h)
    else elim (get_vm w m l h) [ none ↦ (refused "cannot load VM", h) | some x ↦ hook_vm w m l x h ]
