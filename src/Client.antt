-- ===== src/Client.antt =====
-- usr/lib/smd/lib/client.py: the daemon `Client`, with one socket to the server. The socket is a parameter, as it is for
-- the server. Log lines are left out.
pub mod Arrival
use spaceport.Base.{
  ℕ, String, Bool, true, false, not, ◌&&◌, ◌||◌, Option, none, some, List, [], ◌∷◌, ◌++◌, ◌==◌,
  if◌then◌else◌,
}
use spaceport.Value.{Value, text, Fields, end, field, Result, ok, err, Exn, os_error}
use spaceport.Storage.{set_item}
use spaceport.Message
use spaceport.Message.{Message, Stream}
use spaceport.Constants.{hook_notification}
use spaceport.Dispatcher.{
  Dispatcher, DispatchMessage, Sent, add, pop, process as process_message, forward,
}
use spaceport.Server.{Net, writes}

pub record Client {ℓ} (S : Type ℓ) : Type ℓ where
  pub uuid : String
  pub pid : ℕ
  pub uid : ℕ
  pub dispatcher : Dispatcher S
  -- `_socket`, its descriptor, and what was written to it
  pub socket : Option ℕ
  pub written : Stream

-- An event of the loop, and what waits in the socket.
pub record Event : Type 0 where
  pub readable : Bool
  pub hup : Bool
  pub error : Bool
  pub stream : Stream

-- What `start` finds: whether the path exists, and the socket that it connects.
pub record Setup : Type 0 where
  pub exists : Bool
  pub made : Option ℕ
  pub connects : Bool

-- `message["id"] = self._uuid`
unfoldable pub label : String → Message → Message
label uuid m = record m { payload = (set_item "id" (text uuid) m.payload).1 }

-- A message that was read from the server.
unfoldable pub received : ℕ → Fields → Message
received header payload = record {
  header = header;
  payload = payload;
  pid = none;
  uid = none;
  forwarded = false;
  is_multicast = false;
}

module _ {ℓ} {S : Type ℓ} where
  -- `stop()`
  unfoldable pub stop : Client S → Client S
  stop c = record c { dispatcher = record c.dispatcher { stopping = true }; socket = none }

  -- `_send_one(message)`: what goes wrong is logged, and the message is dropped.
  unfoldable pub send_over : Net → Message → Client S → Option ℕ → Client S
  send_over net m c none = c
  send_over net m c (some fd) = record c {
    written = c.written ++ net.put fd c.written (writes net (label c.uuid m));
  }

  unfoldable pub send_one : Net → Message → Client S → Client S
  send_one net m c = send_over net m c c.socket

  -- `send(_, message)` with a list of messages.
  unfoldable pub send : Net → List Message → Client S → Client S
  send net [] c = c
  send net (m ∷ ms) c = send net ms (send_one net m c)

  -- What `_process` makes of what it read: does the loop go on?
  unfoldable pub take_message : Result (ℕ × Fields) → Client S → Bool × Client S
  take_message (ok (header, payload)) c =
      (true, record c { dispatcher = add none (received header payload) c.dispatcher })
  take_message (err (os_error n)) c = (not (n == 0x3E8 || n == 0x68), c)
  take_message (err _) c = (false, c)

  -- `_process(poll_msg)`
  unfoldable pub process : Net → Event → Client S → Bool × Client S
  process net e c =
      if e.hup || e.error
      then (false, c)
      else if not e.readable
      then (true, c)
      else take_message (Message.recv net.loads end e.stream).0 c

  abbrev pub while_true : (Client S → Bool × Client S) → Bool × Client S → Bool × Client S
  while_true rest (true, c) = rest c
  while_true rest (false, c) = (false, c)

  -- The events of the loop, up to the first that ends it.
  unfoldable pub serve : Net → List Event → Client S → Bool × Client S
  serve net [] c = (true, c)
  serve net (e ∷ es) c = while_true (serve net es) (process net e c)

  -- `start()`: the state after it, where these events come and nothing else ends it.
  unfoldable pub start : Net → Setup → List Event → Client S → Client S
  start net u es c =
      if not u.exists
      then c
      else if not u.connects
      then record c { socket = u.made }
      else stop (serve net es (record c { socket = u.made })).1

  -- The replies of the hooks go to the server, whatever they answer.
  unfoldable pub send_all : Net → List Sent → Client S → Client S
  send_all net [] c = c
  send_all net (x ∷ xs) c = send_all net xs (send net x.messages c)

  -- A turn of the dispatcher's thread, whose `send` is that of the client.
  unfoldable pub dispatch_from : Net → List DispatchMessage → Client S → Client S
  dispatch_from net [] c = c
  dispatch_from net (x ∷ xs) c =
      let (last, rest) = pop x xs in
      let d = process_message last (record c.dispatcher { messages = rest; sent = [] }) in
      send_all net d.sent (record c { dispatcher = record d { sent = [] } })

  unfoldable pub dispatch : Net → Client S → Client S
  dispatch net c = dispatch_from net c.dispatcher.messages c

  -- `notify(title, message, icon)`
  unfoldable pub notify : Value → Value → Value → Client S → Client S
  notify title message icon c = record c {
    dispatcher =
        forward (some c.pid) (some c.uid)
          (Message.new hook_notification
            (field "icon" icon (field "title" title (field "message" message end))))
          c.dispatcher;
  }
