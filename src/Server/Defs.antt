-- ===== src/Server/Defs.antt =====
-- usr/lib/smd/lib/server.py: `Conn` and `Server`. The sockets are parameters: what arrives, whom `accept` gives,
-- and how much of what is written goes out. A message that stands in several queues is one object there; what
-- `_flush` stores in it is the same each time. Log lines, file modes and owners are left out.
use spaceport.Base.{
  ℕ, Bool, true, false, ◌&&◌, ◌||◌, Option, none, some, List, [], ◌∷◌, ◌++◌, ◌==◌, if◌then◌else◌,
}
use spaceport.Base.Int.{pos}
use spaceport.Base.Table.{Table, lookup, insert, erase, map_values}
use spaceport.Value.{Value, number, Fields, end, field, Result, ok, err, Exn, os_error}
use spaceport.Storage.{set_item}
use spaceport.Message
use spaceport.Message.{Message, Stream, Loads, Dumps}
use spaceport.Constants.{hook_notification}
use spaceport.Dispatcher.{Dispatcher, DispatchMessage, Sent, add, pop, process}

-- `json`, and a socket: what of the writes of a message goes out on a descriptor after what went out before,
-- all of them where none fails.
pub record Net : Type 0 where
  pub dumps : Dumps
  pub loads : Loads
  pub put : ℕ → Stream → Stream → Stream

-- `Conn`: who is at the other end, the messages that wait for it, and what was written to its socket.
pub record Conn : Type 0 where
  pub uid : Option ℕ
  pub pid : Option ℕ
  pub queue : List Message
  pub written : Stream

pub record Server {ℓ} (S : Type ℓ) : Type ℓ where
  pub pid : ℕ
  pub uid : ℕ
  pub dispatcher : Dispatcher S
  -- `_clients`, by descriptor, and the descriptors that the loop asks about, besides the server's own
  pub clients : Table Conn
  pub polled : List ℕ
  -- The descriptor of `_socket`; whether its path exists; `_running` and `_complete`
  pub socket : Option ℕ
  pub bound : Bool
  pub running : Bool
  pub complete : Bool

-- `Conn.add(message)`
unfoldable pub queue_up : Message → Conn → Conn
queue_up m c = record c { queue = c.queue ++ m ∷ [] }

-- `m["server_pid"] = server._pid`
unfoldable pub stamp : ℕ → Message → Message
stamp pid m = record m { payload = (set_item "server_pid" (number (pos pid)) m.payload).1 }

-- The writes of `m.send(sock)`: none where it raises before the first.
abbrev pub writes_of : Result Stream → Stream
writes_of (ok w) = w
writes_of (err _) = []

unfoldable pub writes : Net → Message → Stream
writes net m = writes_of (Message.send net.dumps m.header m.payload)

-- `Conn._flush(server)` for the message that it takes: what goes wrong is logged, and the message is dropped.
unfoldable pub flush_one : Net → ℕ → ℕ → Message → Conn → Conn
flush_one net pid fd m c = record c {
  written = c.written ++ net.put fd c.written (writes net (stamp pid m));
}

-- The loop of `Conn.flush(server)` over a queue: `pop` takes the last message first.
unfoldable pub flush_from : Net → ℕ → ℕ → List Message → Conn → Conn
flush_from net pid fd [] c = record c { queue = [] }
flush_from net pid fd (m ∷ ms) c = flush_one net pid fd m (flush_from net pid fd ms c)

abbrev pub flush_conn : Net → ℕ → ℕ → Conn → Conn
flush_conn net pid fd c = flush_from net pid fd c.queue c

-- What a turn of the loop `_poll` finds: the event, whom `accept` gives where it is the server's own descriptor
-- (nobody, where it raises), what waits in the socket, and whether it can be shut down.
pub record Poll : Type 0 where
  pub file : ℕ
  pub readable : Bool
  pub hup : Bool
  pub error : Bool
  pub accepted : Option (ℕ × (Option ℕ × Option ℕ))
  pub stream : Stream
  pub closes : Bool

-- What `_poll` returns: `True`, or something false, or it raises.
pub data Turn : Type 0 where
  goes_on breaks raises : Turn

abbrev pub remove : ℕ → List ℕ → List ℕ
remove k [] = []
remove k (j ∷ js) = let rest = remove k js in if j == k then rest else j ∷ rest

-- A message that was read from a connection (`Conn.read`).
unfoldable pub received : Conn → ℕ → Fields → Message
received c header payload = record {
  header = header;
  payload = payload;
  pid = c.pid;
  uid = c.uid;
  forwarded = false;
  is_multicast = false;
}

module _ {ℓ} {S : Type ℓ} where
  -- `_flush()`
  unfoldable pub flush : Net → Server S → Server S
  flush net s = record s { clients = map_values (flush_conn net s.pid) s.clients }

  -- The message is put in every queue, or in that of one client, where it is found.
  unfoldable pub queue_for_all : Message → Server S → Bool × Server S
  queue_for_all m s = (true, record s { clients = map_values (λ fd c. queue_up m c) s.clients })

  unfoldable pub queue_for_one : ℕ → Message → Option Conn → Server S → Bool × Server S
  queue_for_one eid m none s = (false, s)
  queue_for_one eid m (some c) s =
      (true, record s { clients = insert eid (queue_up m c) s.clients })

  -- The message is put in the queues it is for; false where that is no client's.
  unfoldable pub enqueue : Option ℕ → Message → Server S → Bool × Server S
  enqueue none m s = queue_for_all m s
  enqueue (some eid) m s =
      if m.is_multicast then queue_for_all m s else queue_for_one eid m (lookup eid s.clients) s

  -- `_send_one(eid, message, flush)`
  unfoldable pub send_one : Net → Option ℕ → Bool → Message → Server S → Server S
  send_one net eid flushes m s =
      let (found, s') = enqueue eid m s in if found && flushes then flush net s' else s'

  -- The loop of `send`.
  unfoldable pub send_each : Net → Option ℕ → List Message → Server S → Server S
  send_each net eid [] s = s
  send_each net eid (m ∷ ms) s = send_each net eid ms (send_one net eid false m s)

  -- `send(eid, message)` with a list of messages.
  unfoldable pub send : Net → Option ℕ → List Message → Server S → Server S
  send net eid [] s = s
  send net eid (m ∷ ms) s = flush net (send_each net eid (m ∷ ms) s)

  -- `broadcast(message)`
  unfoldable pub broadcast : Net → List Message → Server S → Server S
  broadcast net ms s = send net none ms s

  -- `notify(title, message, icon)`
  unfoldable pub notify : Net → Value → Value → Value → Server S → Server S
  notify net title message icon s =
      send_one net none true
        (Message.new hook_notification
          (field "icon" icon (field "title" title (field "body" message end))))
        s

  -- `poll.unregister(file)`, `close()` and the end of the client's entry; `shutdown` may raise before that.
  unfoldable pub drop_client : Poll → Server S → Turn × Server S
  drop_client p s =
      if p.closes
      then (goes_on, record s { polled = remove p.file s.polled; clients = erase p.file s.clients })
      else (raises, record s { polled = remove p.file s.polled })

  -- What `_read` does with an exception.
  unfoldable pub read_failed : Poll → Exn → Server S → Turn × Server S
  read_failed p (os_error n) s = if n == 0x3E8 then drop_client p s else (goes_on, s)
  read_failed p _ s = (raises, s)

  -- `_read` after `read()` of the connection has ended.
  unfoldable pub after_read : Poll → Conn → Server S → Result (ℕ × Fields) → Turn × Server S
  after_read p c s (ok (header, payload)) = (
    goes_on,
    record s { dispatcher = add (some p.file) (received c header payload) s.dispatcher },
  )
  after_read p c s (err x) = read_failed p x s

  -- `_read(poll, file)` for a client.
  unfoldable pub read : Net → Poll → Conn → Server S → Turn × Server S
  read net p c s = after_read p c s (Message.recv net.loads end p.stream).0

  -- A new client.
  unfoldable pub accept : ℕ → Option ℕ → Option ℕ → Server S → Server S
  accept fd pid uid s = record s {
    polled = s.polled ++ fd ∷ [];
    clients = insert fd (record { uid = uid; pid = pid; queue = []; written = [] }) s.clients;
  }

  -- `_poll` for the server's own descriptor.
  unfoldable pub poll_self : Poll → Server S → Turn × Server S
  poll_self p s = if p.hup then (breaks, record s { running = true }) else elim p.accepted [
    | none ↦ (raises, s)
    | some (fd, (pid, uid)) ↦ (goes_on, accept fd pid uid s)
  ]

  -- `_poll` for the descriptor of a client.
  unfoldable pub poll_client : Net → Poll → Conn → Server S → Turn × Server S
  poll_client net p c s =
      if p.readable
      then read net p c s
      else if p.hup || p.error
      then drop_client p s
      else (goes_on, s)

  -- `_poll` for a descriptor other than the server's own: one that is no client's is passed over.
  unfoldable pub poll_of : Net → Poll → Option Conn → Server S → Turn × Server S
  poll_of net p none s = (goes_on, s)
  poll_of net p (some c) s = poll_client net p c s

  -- `_poll(poll, file, event)`
  unfoldable pub poll : Net → Poll → Server S → Turn × Server S
  poll net p s =
      if Message.same_id s.socket (some p.file)
      then poll_self p s
      else poll_of net p (lookup p.file s.clients) s

  -- The messages that the hooks answered with go out.
  unfoldable pub deliver_all : Net → List Sent → Server S → Server S
  deliver_all net [] s = s
  deliver_all net (x ∷ xs) s = deliver_all net xs (send net x.eid x.messages s)

  -- A turn of the dispatcher's thread, whose `send` is that of the server.
  unfoldable pub dispatch_from : Net → List DispatchMessage → Server S → Server S
  dispatch_from net [] s = s
  dispatch_from net (x ∷ xs) s =
      let (last, rest) = pop x xs in
      let d = process last (record s.dispatcher { messages = rest; sent = [] }) in
      deliver_all net d.sent (record s { dispatcher = record d { sent = [] } })

  unfoldable pub dispatch : Net → Server S → Server S
  dispatch net s = dispatch_from net s.dispatcher.messages s
