-- ===== src/Hook.antt =====
-- usr/lib/smd/lib/structs/hook.py: `Hook` and `HookList`, which call the functions of the modules and
-- collect their replies. What the functions do to the state of their modules is a parameter: a hook
-- carries its function. Log lines and the time limit (`alarm`) are left out, and the hooks of the daemon,
-- which have neither a message nor a queue.
pub mod Replies
use spaceport.Base.{
  ℕ, String, Bool, true, false, not, Option, none, some, List, [], ◌∷◌, ◌++◌, ◌==◌, ◌||◌,
  if◌then◌else◌,
}
use spaceport.Base.Int.{pos}
use spaceport.Value.{number, text, Fields, end, field}
use spaceport.Constants.{hook_ok, hook_error}
use spaceport.Message
use spaceport.Message.{Message}

-- An item of a list that a function returns.
pub data Item : Type 0 where
  message : Message → Item
  truth : Bool → Item
  code : ℕ → Item
  fields : Fields → Item
  words : String → Item
  unknown : Item

-- What a function returns: nothing (`None`), one thing, or a list or tuple.
pub data Returned : Type 0 where
  nothing : Returned
  one : Item → Returned
  several : List Item → Returned

-- A call returns, or raises an exception with this text and trace.
pub data Outcome : Type 0 where
  returned : Returned → Outcome
  raised : String → String → Outcome

-- `Hook`: a function that takes the state of the modules, the message and the queue, where its number of
-- arguments asks for them.
pub record Hook {ℓ} (S : Type ℓ) : Type ℓ where
  pub callable : Bool
  pub args : ℕ
  pub call : Option Message → List Message → S → Outcome × (List Message × S)

-- `as_exception(header, err)`
unfoldable pub as_exception : ℕ → String → String → Message
as_exception header error trace = Message.new hook_error (
    field "hook" (number (pos header)) (
      field "error" (text error)
        (field "trace" (text trace) (field "result" (text "Error processing request!") end))))

-- The message for one item of a list. A truth value is a number there, 0 or 1.
unfoldable pub item_message : ℕ → Item → List Message
item_message header (message m) = m ∷ []
item_message header (truth b) = Message.new (if b then 1 else 0) end ∷ []
item_message header (code n) = Message.new n end ∷ []
item_message header (fields d) = Message.new header d ∷ []
item_message header (words s) = Message.new header (field "result" (text s) end) ∷ []
item_message header unknown = []

-- The messages for a list.
unfoldable pub item_messages : ℕ → List Item → List Message
item_messages header [] = []
item_messages header (i ∷ is) = item_message header i ++ item_messages header is

-- The messages for what a function returns. A truth value by itself stands for success or failure.
unfoldable pub answers : ℕ → Returned → List Message
answers header nothing = []
answers header (one (truth b)) =
    (if b
      then Message.new hook_ok end
      else Message.new hook_error (field "error" (text "unknown error occurred") end))
    ∷ []
answers header (one i) = item_message header i
answers header (several is) = item_messages header is

-- What the queue becomes after a call.
unfoldable pub collect : ℕ → Outcome → List Message → List Message
collect header (returned r) q = q ++ answers header r
collect header (raised error trace) q = q ++ as_exception header error trace ∷ []

-- Does the function take the message, and the queue?
unfoldable pub takes_message : ℕ → Bool
takes_message args = args == 5 || args == 4 || args == 3

unfoldable pub takes_queue : ℕ → Bool
takes_queue args = args == 5 || args == 4

-- `_exec(service, message, queue)` for a function that can be called: its outcome, the queue that it
-- leaves, and the state of the modules.
unfoldable pub exec {ℓ} :
    {S : Type ℓ} → Hook S → Message → List Message → S → Outcome × (List Message × S)
exec h m q s =
    let (o, (q', s')) =
      h.call (if takes_message h.args then some m else none) (if takes_queue h.args then q else [])
        s in
    (o, (if takes_queue h.args then q' else q, s'))

-- `Hook.run(service, message, queue)`
unfoldable pub run {ℓ} : {S : Type ℓ} → Hook S → Message → List Message → S → List Message × S
run h m q s =
    if not h.callable
    then (q, s)
    else let (o, (q', s')) = exec h m q s in (collect m.header o q', s')

-- The loop of `HookList.run`.
unfoldable pub run_from {ℓ} :
    {S : Type ℓ} → List (Hook S) → Message → List Message → S → List Message × S
run_from [] m q s = (q, s)
run_from (h ∷ hs) m q s = run_from hs m (run h m q s).0 (run h m q s).1

-- `HookList.run(service, message)`
unfoldable pub run_all {ℓ} : {S : Type ℓ} → List (Hook S) → Message → S → List Message × S
run_all hs m s = run_from hs m [] s
