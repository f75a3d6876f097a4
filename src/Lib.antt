-- ===== src/Lib.antt =====
-- Spaceport's lockers, which decide when a laptop locks, blanks, suspends and hibernates, its backups and its virtual
-- machines, with the daemon that they stand on. All paths are from the root of the repository.
--
-- The parts and how they interact. The daemon SMD runs as a server (root) and as one client for each
-- user. Both read messages from a socket and give them to hook functions; a scheduler runs events at a
-- time. `LockerServer` holds the lockers, which are inhibitors with an optional end, and asks the system
-- to sleep. `LockerClient` runs the lock screen and the idle process of one user, and sends the server
-- what the user's settings allow (`Ability`) and when the screen has been locked for long enough.
-- `BackupServer` keeps a queue of plans and one `Backup`, a chain of processes that takes the Backup locker while
-- it runs. `HydraServer` runs virtual machines and shares USB devices and reserved memory among them. The sockets
-- belong to `Server` and `Client`: what they read goes to the dispatcher, with who sent it, and what the hooks answer
-- goes to the queue of each connection that it is meant for. `Session` runs commands at certain
-- events and freezes the windows while the screen is locked.
--
-- Which file models what:
--   Base, Base/*       Boolean tests, lists, association lists and integers; no code of the program
--   Value              the values of JSON and Python's operations on them
--   Util, Util/Text    usr/lib/smd/lib/util/__init__.py: nes, a2z, fnv32, num, boolean (`to_bool`),
--                      time_to_str
--   Util/Exec          usr/lib/smd/lib/util/exec.py: `split`, for one command (`split`) and for several
--                      (`split_all`)
--   Storage            usr/lib/smd/lib/structs/storage.py: `Flex` and `Storage`; `__get` is `access`,
--                      `walk` its loop over the parts of a dotted name
--   Storage/*          theorems on it
--   Constants          usr/lib/smd/lib/constants/
--   Message            usr/lib/smd/lib/structs/message.py: the object; Message/Wire: `send` and `recv`
--   Host               usr/lib/smd/lib/structs/dispatcher.py: add_task, cancel_task and the queue; the
--                      clock; the effects of a handler, in order
--   Dispatcher         the same file, `Dispatcher`: the messages that wait, `_process` (`process`) and the loop of
--                      `run` over them (`drain`); Dispatcher/Order holds its theorem
--   Server             usr/lib/smd/lib/server.py: Defs (`Conn`, `Server`; `_poll` is `poll`, `_read` is `read`), Life
--                      (`start`, `_stop` is `halt`, and the runs of the daemon); Office, Delivery, Turns, Visits, Steps, Waiting
--                      and Sources hold its theorems
--   Client             usr/lib/smd/lib/client.py; Client/Arrival holds its theorem
--   Hook               usr/lib/smd/lib/structs/hook.py: `Hook` (`exec` is `_exec`) and `HookList`;
--                      Hook/Replies holds its theorem
--   Ability            usr/lib/smd/lib/modules/locker.py: `Ability` and `Locker`
--   LockerServer       the same file, `LockerServer`: State (slots, and the system's answers `Env`),
--                      Table (`_locker_add`, `_locker_remove`, `_locker_close`, `Locker.__init__`), Power
--                      (`_suspend` is `try_suspend`, suspend, hibernate, alarm, lid, displays), Update
--                      (update, trigger, `_notify`, thread), Steps (`HOOKS_SERVER`)
--   LockerServer/*     Sync, Keeps, Timed and Sound build the invariant of Invariant; Sleep, Lockers and Exchange say
--                      what the operations do
--   LockerClient       the same file, `LockerClient`: State, Screen (processes and the lock screen), Calls
--                      (hooks, setup and scheduled functions)
--   LockerClient/*     Queue, Asleep and Locking hold its theorems
--   Backup             usr/lib/smd/lib/modules/backup.py: Constants, Text (Python's operations on texts), Schedule,
--                      Upload, Plan (Parse: `Plan`; Config: `Plans`; Counter: `incremental` and the counts), Queue
--   Backup/Job         the same file, `Backup`: State (slots, the scheduler's events, and the system's answers
--                      `Env`), Stop (`_update`, `_stop`, `_start_post_cmd`), Commands (command lines), Hash and Steps
--                      (`_step_…`), Next (`_next` is `next`), Control (start, resume, suspend, save, the two timers)
--   Backup/Server      the same file, `BackupServer`: Defs (hook, `_stop`), Status, Select (`_select`), Control
--                      (control)
--   Backup/*/*         Days, Target, Table, Choice, Ends, Progress, Rises, Life, Depth, Count, Locker and Requests hold
--                      theorems
--   Hydra              usr/lib/smd/lib/modules/hydra.py: State (the slots of `VM`, and the system's answers `Env`), Machine
--                      (commands, sleep, interfaces; `__stop` is `on_exit`), Devices (`_usb_…`), Pages (`pages`), Stop
--                      (`_stop`, `_thread`), Start (`_start`), Server (`HydraServer`), Requests (`hook`, `_get_vm`),
--                      Alias (`user_alias`)
--   Hydra/*/*          Single, Release, Suspend, Waiting, Balance and Failures hold theorems
--   Session            usr/lib/smd/lib/modules/session.py: `Session`; Session/Thaw holds its theorems
--   Tests              the theorems at concrete inputs
--
-- How code becomes a definition. A method is a function from the object's slots to the slots after it,
-- with its reply; an exception is a value (`Result`), next to the state that it leaves. What files,
-- commands and processes answer during one call is the argument `env`; what the call does to the outside
-- is appended to `host.effects`. A run is a list of events, each with its `env`, so theorems on runs
-- hold for every order of calls and every failure. Calls do not overlap: a handler is one step.
--
-- Bounds. A header is one byte and a length four; `pack` fails beyond that. Numbers are otherwise
-- unbounded, as in Python. Times in the queue are milliseconds, and `seconds` rounds half to even.
-- `show_number` has the number itself as fuel, more than its digits, and `show_hex` the eight digits of 32 bits.
-- `_next` calls itself through a step; `next_fuel` bounds the depth, and `next` takes two: only three steps call it
-- (the call in `_start_post_cmd` is written out there, and not counted),
-- and each from a state whose own step does not. A size is shown with one decimal, rounded half to even.
--
-- Parameters: `json` (Message/Wire); `expand`, which reads the environment, and Python's `shlex`, which
-- reads the shell's syntax (Util/Exec); the functions of the hooks (Hook); for the backups `uuid`, `glob`, the times
-- of `datetime`, the files, sockets and processes (`Files`, `Clock`, `Env`, `System`); the sockets of the server and
-- the client (`Net`, `Poll`), where what goes out of a write may be less than all of it; for the machines, the process,
-- what it answers to commands, and the outcome of the checks and of the network services (`Env`, `Setup`, `World`);
-- for the session, its configuration (`Config`), and the windows, process groups, signals and commands (`Env`).
--
-- Not modelled: log lines; the directory of the lock screen; infinite and NaN floats; digits other than ASCII's in the
-- text of a number; what `json.loads` raises for too many digits or too deep a nesting; the start and the end of the
-- dispatcher's threads; the other modules (usr/lib/smd/lib/modules/), which share no state with those here but
-- messages; the arguments of QEMU and the checks of its files; the processes of a backup and the texts that they write; what a backup's
-- scheduler does once the daemon stops; the command line; scripts and themes.
pub mod Base
pub mod Value
pub mod Util
pub mod Storage
pub mod Constants
pub mod Message
pub mod Host
pub mod Hook
pub mod Backup
pub mod Dispatcher
pub mod Server
pub mod Client
pub mod Ability
pub mod LockerServer
pub mod LockerClient
pub mod Hydra
pub mod Session
pub mod Tests
