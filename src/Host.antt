-- ===== src/Host.antt =====
-- The daemon as its modules see it: the scheduler of usr/lib/smd/lib/structs/dispatcher.py (`add_task`,
-- `cancel_task`, and the queue that `DispatchExecuter._run_sched` empties), the clock, and a record of
-- what was sent, run and written, in order. The scheduler itself is Python's `sched`.
pub mod Queue
use spaceport.Base.{
  ℕ, suc, ◌+◌, ◌*◌, String, Bool, true, false, ◌&&◌, ◌||◌, Option, none, some, List, [], ◌∷◌, ◌++◌,
  ltb, leb, ◌==◌, if◌then◌else◌,
}
use spaceport.Base.Int.{round_div}
use spaceport.Message.{Message}

-- The functions that the lockers give to the scheduler. `locker_close` carries the name of the locker
-- object that is its argument.
pub data Job : Type 0 where
  locker_close : String → Job
  backoff_clear wake_attempt wake_backoff blank_backoff : Job

-- An event of `sched`; its place in time is a number of milliseconds.
pub record Task : Type 0 where
  pub id : ℕ
  pub time : ℕ
  pub priority : ℕ
  pub job : Job

pub data Command : Type 0 where
  suspend hibernate lock_keyring notify_on notify_off : Command

-- What a handler does outside its own state.
pub data Effect : Type 0 where
  -- `server.send`, `server.broadcast`
  sent : Message → Effect
  -- `nulexec(…, wait=True)`
  ran : Command → Effect
  -- The RTC alarm, set to a second or cleared.
  alarm_set : ℕ → Effect
  alarm_cleared : Effect
  -- The names in the status file.
  status_written : List String → Effect
  -- `server.notify(title, body, icon)`
  notified : String → String → String → Effect
  -- Processes: started under a number, stopped, and signalled.
  started : ℕ → List String → Effect
  stopped : ℕ → Effect
  paused resumed nudged : ℕ → Effect
  -- `swaymsg(0, "output * power …")`
  displays_power : Bool → Effect

pub record Host : Type 0 where
  -- `time()`, in milliseconds
  pub now : ℕ
  -- `Dispatcher._running`, which is set when the daemon stops
  pub stopping : Bool
  -- The number of the next event or process.
  pub next : ℕ
  pub queue : List Task
  pub effects : List Effect

-- `seconds()`
abbrev pub seconds : Host → ℕ
seconds h = round_div h.now 1000

abbrev pub emit : Effect → Host → Host
emit e h = record h { effects = h.effects ++ e ∷ [] }

-- The event that a call of `add_task` makes: none once the daemon stops.
abbrev pub task_event : Host → Option ℕ
task_event h = if h.stopping then none else some h.next

-- `Dispatcher.add_task(timeout, func, priority)`
unfoldable pub add_task : ℕ → Job → ℕ → Host → Host
add_task timeout job priority h = if h.stopping then h else record h {
  next = h.next + 1;
  queue =
      h.queue
      ++ record { id = h.next; time = h.now + 1000 * timeout; priority = priority; job = job } ∷ [];
}

abbrev pub remove_task : ℕ → List Task → List Task
remove_task i [] = []
remove_task i (t ∷ q) = let rest = remove_task i q in if t.id == i then rest else t ∷ rest

-- `Dispatcher.cancel_task(event)`; an event that is not in the queue is left alone.
unfoldable pub cancel_task : Option ℕ → Host → Host
cancel_task none h = h
cancel_task (some i) h = record h { queue = remove_task i h.queue }

-- The order of `sched`: by time, then priority; the first that was entered comes first.
abbrev pub is_before : Task → Task → Bool
is_before a b = ltb a.time b.time || a.time == b.time && ltb a.priority b.priority

abbrev pub earlier : Task → Option Task → Option Task
earlier t none = some t
earlier t (some u) = if is_before u t then some u else some t

abbrev pub first_task : List Task → Option Task
first_task [] = none
first_task (t ∷ q) = earlier t (first_task q)

-- The task that `sched.run(blocking=False)` takes next: the first one, if its time has come.
unfoldable pub due_task : Host → Option Task
due_task h = elim (first_task h.queue) [
  | none ↦ none
  | some t ↦ if leb t.time h.now then some t else none
]
