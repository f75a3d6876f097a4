-- ===== src/Hydra/Server.antt =====
-- usr/lib/smd/lib/modules/hydra.py: `HydraServer`. The machine of a request that is not among `_vms` is a parameter, as it is
-- loaded from its file.
pub mod Suspend
use spaceport.Base.{ℕ, Bool, true, false, not, ◌&&◌, [], ◌∷◌, ltb, if◌then◌else◌}
use spaceport.Base.Int.{pos}
use spaceport.Base.Table.{Table, insert, erase}
use spaceport.Message.{Message, attr_is}
use spaceport.Constants.{msg_pre}
use spaceport.Hydra.State.{stopped, state_number, Vm, Shared, Env, Ended, returned, crash, After}
use spaceport.Hydra.Machine.{is_sleeping, sleep}
use spaceport.Hydra.Stop.{kill, thread}

-- `HydraServer`: `_vms`, what the machines share, whether `_dns` runs, and `_running`.
pub record Hydra : Type 0 where
  pub vms : Table Vm
  pub shared : Shared
  pub dns : Bool
  pub running : Bool

-- What `start` meets: all works, it returns with an error before it has made anything or at a check of a program,
-- or it fails and calls `stop`.
pub data BringUp : Type 0 where
  up left torn_down : BringUp

-- What the system answers to a machine, by its number, and to the server itself: `writes` for the memory that it gives
-- back.
pub record World : Type 0 where
  pub env : ℕ → Env
  pub bring_up : BringUp
  pub dns_installed : Bool
  pub writes : Bool

abbrev pub on_vms :
    (Table Vm → Table Vm) → Ended × (Table Vm × Shared) → Ended × (Table Vm × Shared)
on_vms f (e, (d, s)) = (e, (f d, s))

-- The loop of `stop` over the machines. An `OSError` is logged, and any other exception ends it.
unfoldable pub stop_each : World → Table Vm → Shared → Ended × (Table Vm × Shared)
stop_each w [] s = (returned, ([], s))
stop_each w ((k, v) ∷ d) s =
    let (e, (v', s')) = kill (w.env k) v s in
    let rest = on_vms (λ d'. (k, v') ∷ d') (stop_each w d s') in
    elim e as (λ _. Ended × (Table Vm × Shared)) [
      | crash x ↦ (crash x, ((k, v') ∷ d, s'))
      | _ ↦ rest
    ]

-- The end of `stop`
abbrev pub stopped_all : World → Ended × (Table Vm × Shared) → Hydra → Ended × Hydra
stopped_all w (crash x, (d, s)) h = (crash x, record h { vms = d; shared = s })
stopped_all w (_, (_, s)) h = (
  returned,
  record {
    vms = [];
    shared = record s { usb = []; reserved = if h.running && w.writes then pos 0 else s.reserved };
    dns = false;
    running = false;
  },
)

-- `stop(server, force)`; whether the bridge is removed is left out.
unfoldable pub stop_server : World → Hydra → Ended × Hydra
stop_server w h = stopped_all w (stop_each w h.vms h.shared) h

-- `start(server)`
unfoldable pub start_server : World → Hydra → Ended × Hydra
start_server w h = if h.running then (returned, h) else elim w.bring_up [
  | up ↦ (returned, record h { running = true; dns = w.dns_installed })
  | left ↦ (returned, h)
  | torn_down ↦ stop_server w h
]

-- A turn of `thread` for a machine that has stopped: it is removed.
abbrev pub dismiss : World → ℕ → After → Hydra → Ended × Hydra
dismiss w k (returned, (v, s)) h =
    if ltb (state_number v.state) (state_number stopped)
    then (returned, record h { vms = insert k v h.vms; shared = s })
    else let (e, (v', s')) = kill (w.env k) v s in
      elim e as (λ _. Ended × Hydra) [
        | returned ↦ (returned, record h { vms = erase k h.vms; shared = s' })
        | _ ↦ (e, record h { vms = insert k v' h.vms; shared = s' })
      ]
dismiss w k (e, (v, s)) h = (e, record h { vms = insert k v h.vms; shared = s })

abbrev pub while_fine : (Hydra → Ended × Hydra) → Ended × Hydra → Ended × Hydra
while_fine rest (returned, h) = rest h
while_fine rest r = r

-- The loop of `thread` over a copy of the machines
unfoldable pub thread_each : World → Table Vm → Hydra → Ended × Hydra
thread_each w [] h = (returned, h)
thread_each w ((k, v) ∷ d) h =
    while_fine (thread_each w d) (dismiss w k (thread (w.env k) v h.shared) h)

-- `thread(server)`
unfoldable pub thread_server : World → Hydra → Ended × Hydra
thread_server w h =
    if not h.running
    then elim h.vms as (λ _. Ended × Hydra) [
      | [] ↦ (returned, h)
      | _ ∷ _ ↦
          let (e, h') = start_server w h in
          if h'.running then (e, h') else (e, record h' { vms = [] })
    ]
    else elim h.vms as (λ _. Ended × Hydra) [ [] ↦ stop_server w h | _ ∷ _ ↦ thread_each w h.vms h ]

-- A machine after a failure that is only logged, or after an exception that ends the loop
abbrev pub suspended_on : ℕ → Table Vm → Ended × Table Vm → Ended × Vm → Ended × Table Vm
suspended_on k d rest (crash x, v) = (crash x, (k, v) ∷ d)
suspended_on k d rest (_, v) = (rest.0, (k, v) ∷ rest.1)

-- The loop of `hibernate`: a machine that cannot be suspended is logged.
unfoldable pub suspend_each : Table Vm → Ended × Table Vm
suspend_each [] = (returned, [])
suspend_each ((k, v) ∷ d) =
    let rest = suspend_each d in
    if is_sleeping v.state then (rest.0, (k, v) ∷ rest.1) else suspended_on k d rest (sleep true v)

-- `hibernate(server, message)`
unfoldable pub hibernate_all : Message → Hydra → Ended × Hydra
hibernate_all m h =
    if not (attr_is "type" m msg_pre)
    then (returned, h)
    else let (e, d) = suspend_each h.vms in (e, record h { vms = d })
