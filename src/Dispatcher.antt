-- ===== src/Dispatcher.antt =====
-- usr/lib/smd/lib/structs/dispatcher.py: how `Dispatcher` takes messages and gives them to the hooks. Its thread
-- takes the messages one at a time; what the hooks do to the state of the modules is in their functions. Log
-- lines are left out, and the waits between the threads.
pub mod Order
use spaceport.Base.{
  ℕ, zero, suc, ◌+◌, Bool, true, false, not, ◌&&◌, Option, none, some, List, [], ◌∷◌, ◌++◌, length,
  ◌==◌, if◌then◌else◌,
}
use spaceport.Value.{Value, get_field}
use spaceport.Message.{Message, multicast, set_forward}
use spaceport.Constants.{hook_log, hook_reload}
use spaceport.Hook.{Hook, run_all}

-- A message, and the connection that it came from, if any (`DispatchMessage`).
pub record DispatchMessage : Type 0 where
  pub eid : Option ℕ
  pub message : Message

-- What is sent: `send(eid, result)` with a list of messages.
pub record Sent : Type 0 where
  pub eid : Option ℕ
  pub messages : List Message

pub record Dispatcher {ℓ} (S : Type ℓ) : Type ℓ where
  -- `_running`, which is set when it is to stop
  pub stopping : Bool
  pub messages : List DispatchMessage
  -- `_hooks[header]`
  pub hooks : ℕ → Option (List (Hook S))
  pub is_server : Bool
  -- The log level, where one was set, the number of loads of the configuration, and what was sent.
  pub log_level : Option Value
  pub loads : ℕ
  pub sent : List Sent
  -- The state of the modules
  pub modules : S

-- `list.pop()` of a list with an item: the last one, and the others.
unfoldable pub pop : DispatchMessage → List DispatchMessage → DispatchMessage × List DispatchMessage
pop x [] = (x, [])
pop x (y ∷ ys) = let (last, rest) = pop y ys in (last, x ∷ rest)

module _ {ℓ} {S : Type ℓ} where
  -- `add(eid, message)`
  unfoldable pub add : Option ℕ → Message → Dispatcher S → Dispatcher S
  add eid m d =
      if d.stopping
      then d
      else record d { messages = d.messages ++ record { eid = eid; message = m } ∷ [] }

  abbrev pub send : Option ℕ → List Message → Dispatcher S → Dispatcher S
  send eid [] d = d
  send eid (m ∷ ms) d = record d { sent = d.sent ++ record { eid = eid; messages = m ∷ ms } ∷ [] }

  -- A new log level, which the server passes on to its clients.
  unfoldable pub process_log : Message → Dispatcher S → Dispatcher S
  process_log m d =
      let d1 = record d { log_level = get_field "level" m.payload } in
      if d.is_server && not m.is_multicast then send none (multicast m ∷ []) d1 else d1

  -- The hooks of a message are run, and their replies go back to where it came from.
  abbrev pub answered : Option ℕ → List Message × S → Dispatcher S → Dispatcher S
  answered eid (replies, s) d = send eid replies (record d { modules = s })

  unfoldable pub run_hooks : DispatchMessage → Dispatcher S → Dispatcher S
  run_hooks x d = elim (d.hooks x.message.header) as (λ _. Dispatcher S) [
    | none ↦ d
    | some hs ↦ answered x.eid (run_all hs x.message d.modules) d
  ]

  -- `_process(msg)`
  unfoldable pub process : DispatchMessage → Dispatcher S → Dispatcher S
  process x d =
      if x.message.header == hook_log
      then process_log x.message d
      else if x.message.header == hook_reload
      then run_hooks x (record d { loads = d.loads + 1 })
      else run_hooks x d

  abbrev pub taken :
      (Dispatcher S → Dispatcher S) → List DispatchMessage → Dispatcher S → Dispatcher S
  taken rest [] d = d
  taken rest (x ∷ xs) d = rest (process (pop x xs).0 (record d { messages = (pop x xs).1 }))

  -- `while len(self._messages) > 0: self._process(self._messages.pop())`, for n messages.
  unfoldable pub drain : ℕ → Dispatcher S → Dispatcher S
  drain zero d = d
  drain (suc n) d = taken (drain n) d.messages d

  -- `Service.forward(message)` of usr/lib/smd/lib/structs/service.py, for a daemon with this process and user: the
  -- message comes from no connection.
  unfoldable pub forward : Option ℕ → Option ℕ → Message → Dispatcher S → Dispatcher S
  forward pid uid m d = add none (set_forward m pid uid) d
