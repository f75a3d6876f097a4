-- ===== src/Message.antt =====
-- usr/lib/smd/lib/structs/message.py: a message, what may be asked of it, and its way over a socket.
-- A header is a natural number. What `json` does to a payload is a parameter of the functions that
-- use it.
mod Wire
pub mod Transfer
unfoldable pub use Wire.{pack, unpack, recv_bytes, send, decode, recv_body, recv}
pub use Wire.{Stream, Loads, Dumps, with_header}
use spaceport.Base.{
  ℕ, String, Bool, true, false, not, ◌&&◌, Option, none, some, ◌==◌, if◌then◌else◌, is_some, str_eq,
}
use spaceport.Value.{
  Value, boolean, text, Fields, end, field, get_or_null, has_field, eq_number, is_null,
}
use spaceport.Storage.{update}

-- `Message`: its slots, and the dictionary that it inherits.
pub record Message : Type 0 where
  pub header : ℕ
  pub payload : Fields
  pub pid : Option ℕ
  pub uid : Option ℕ
  pub forwarded : Bool
  pub is_multicast : Bool

-- `Message(header, payload)`
unfoldable pub new : ℕ → Fields → Message
unfolding update
new header payload = record {
  header = header;
  payload = update end payload;
  pid = none;
  uid = none;
  forwarded = false;
  is_multicast = false;
}

-- `message.name` for a name that is no attribute
abbrev pub attr : String → Message → Value
attr k m = get_or_null k m.payload

-- `message.name == n`
abbrev pub attr_is : String → Message → ℕ → Bool
attr_is k m n = eq_number (attr k m) n

-- `multicast()`
abbrev pub multicast : Message → Message
multicast m = record m { is_multicast = true }

abbrev pub same_id : Option ℕ → Option ℕ → Bool
same_id none none = true
same_id (some a) (some b) = a == b
same_id _ _ = false

-- `message.uid() == n`
abbrev pub uid_is : Message → ℕ → Bool
uid_is m n = same_id m.uid (some n)

-- `is_same_client(uid)`
unfoldable pub is_same_client : Message → Option ℕ → Bool
is_same_client m none = false
is_same_client m (some u) = same_id m.uid (some u)

-- `is_forward(uid, pid)`
unfoldable pub is_forward : Message → Option ℕ → Option ℕ → Bool
is_forward m uid pid =
    if not m.forwarded
    then false
    else if not (is_some uid) && not (is_some pid)
    then true
    else if is_some uid && is_some pid
    then same_id m.uid uid && same_id m.pid pid
    else if is_some uid
    then same_id m.uid uid
    else same_id m.pid pid

-- `set_forward(pid, uid)`
unfoldable pub set_forward : Message → Option ℕ → Option ℕ → Message
set_forward m pid uid = record m { forwarded = true; uid = uid; pid = pid }

-- `is_error()`: the text of the error, if there is one.
unfoldable pub is_error : Message → Option String
is_error m = error_text (attr "error" m)
  where
    error_text : Value → Option String
    error_text (text s) = if str_eq s "" then none else some s
    error_text _ = none
