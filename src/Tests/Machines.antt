-- ===== src/Tests/Machines.antt =====
-- The theorems on the machines of Hydra, at concrete inputs.
use spaceport.Base.{List, ◌==◌, ◌≡◌, refl, true, false, some, none, [], ◌∷◌, arith}
use spaceport.Base.Int.{pos, round_div}
use spaceport.Base.Table as Table
use spaceport.Base.Table.{map_values}
use spaceport.Storage.{update, is_reserved}
use spaceport.Message
use spaceport.Message.{Message}
use spaceport.Constants.{hook_suspend}
use spaceport.Hydra.Server.{Hydra, hibernate_all}
use spaceport.Hydra.Server.Suspend.{put_to_sleep, machines_sleep}
use spaceport.Value.{text, null, number, field, end}
use spaceport.Hydra.State.{running, stopped, waiting, Vm, Shared, Env, replied, returned, error}
use spaceport.Hydra.Pages.{pages, total}
use spaceport.Hydra.Pages.Balance.{Balanced, pages-Balanced}
use spaceport.Hydra.Devices.Single.{Call, add, run, Single, run-Single}
use spaceport.Hydra.Stop.{kill}
use spaceport.Hydra.Stop.Release.{HoldsNothing, Released, kill-Released}
use spaceport.Hydra.Stop.Waiting.{turns, waiting_ends}
use spaceport.Hydra.Start.{make_adapters, Setup, start}
use spaceport.Hydra.Start.Failures.{start_keeps_memory, make_adapters_lem}

-- A system on which all works, and one on which the process of the machine has ended.
abbrev works : Env
works = record {
  alive = true;
  answers = λ i. replied null;
  sockets = true;
  links = λ i. true;
  task = some 1;
  writes = true;
  lower = λ s. s;
}

abbrev ended_process : Env
ended_process = record works { alive = false }

-- A machine that runs with a device, and one that was loaded from its file.
abbrev machine : Vm
machine = record {
  vmid = 300;
  path = "/home/user/vm.conf";
  state = running;
  has_proc = true;
  wait = 0;
  event = none;
  agent = false;
  has_output = false;
  usb = ("1d6b:0002", 1) ∷ [];
  adapters = [];
  frozen = false;
  memory_reserve = true;
  memory_size = some 1024;
}

abbrev loaded : Vm
loaded = record machine { state = stopped; has_proc = false; usb = [] }

abbrev shared : Shared
shared = record { usb = ("1d6b:0002", 300) ∷ []; pages = (300, 512) ∷ []; reserved = pos 512 }

abbrev unshared : Shared
unshared = record { usb = []; pages = []; reserved = pos 0 }

pages-Balanced_example : Balanced (pages true 301 (some 256) false shared).1
unfolding total
pages-Balanced_example = pages-Balanced 301 shared (refl, (refl, tt)) true false (some 256) refl

-- The machine is asked to take another device.
abbrev another : List Call
another = add works ("1d6b:0002" ∷ "046d:c52b" ∷ []) (text "046d") (text "c52b") ∷ []

run-Single_example : Single (run another machine shared).0 (run another machine shared).1
run-Single_example = run-Single another machine shared (omega arith, (refl, refl, tt))

kill-Released_example :
    ((kill works machine shared).0 ≡ returned)
    × HoldsNothing (kill works machine shared).1.0
    × Released works machine shared (kill works machine shared).1.1
kill-Released_example = kill-Released works machine shared refl (refl, refl, tt)

waiting_ends_example :
    ((turns 10 ended_process (record machine { state = waiting; usb = [] }) shared).0 ≡ returned)
    × ((turns 10 ended_process (record machine { state = waiting; usb = [] }) shared).1.0.state
        ≡ stopped)
waiting_ends_example =
    waiting_ends 9 ended_process (record machine { state = waiting; usb = [] }) shared refl refl tt
      refl

-- All is in order, but the program of the machine cannot be started.
abbrev no_program : Setup
no_program = record {
  checks = returned;
  drives = returned;
  bios = returned;
  network = record { valid = true; bridge = none; device = none } ∷ [];
  spawns = false;
}

start_keeps_memory_example :
    ((start works no_program loaded unshared).0 ≡ error "cannot start")
    × (Table.lookup 300 (start works no_program loaded unshared).1.1.pages ≡ some 512)
    × ((later : Env)
        → kill later
            (start works no_program loaded unshared).1.0
            (start works no_program loaded unshared).1.1
          ≡ (returned, (start works no_program loaded unshared).1))
unfolding round_div
start_keeps_memory_example =
    start_keeps_memory works no_program loaded unshared 1024 refl refl refl refl refl refl refl refl
      refl

abbrev with_network : Vm
with_network = record loaded {
  adapters = record { auto = true; bridge = "vmi0"; device = "vmi0s300n0" } ∷ [];
}

-- A system on which the interfaces can be made at the second try only
abbrev late_links : Env
late_links = record works { links = λ i. i == 1 }

make_adapters_example :
    make_adapters late_links with_network ≡ (returned, record with_network { adapters = [] })
make_adapters_example = make_adapters_lem late_links with_network

-- The message before the system sleeps, and a server with one machine
abbrev before_sleep : Message
before_sleep = Message.new hook_suspend (field "type" (number (pos 0)) end)

abbrev hydra : Hydra
hydra = record { vms = (300, machine) ∷ []; shared = shared; dns = true; running = true }

machines_sleep_example :
    hibernate_all before_sleep hydra
    ≡ (returned, record hydra { vms = map_values put_to_sleep ((300, machine) ∷ []) })
unfolding Message.new update is_reserved
machines_sleep_example = machines_sleep before_sleep hydra refl (refl, tt)
