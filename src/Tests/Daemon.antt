-- ===== src/Tests/Daemon.antt =====
-- The theorems on the server and its clients, at concrete inputs.
use spaceport.Base.{ℕ, ◌≡◌, refl, true, false, some, none, [], ◌∷◌, arith}
use mathlib.Core.List.{Memᴰ}
use spaceport.Value.{text, dict, Fields, end, field, ok}
use spaceport.Storage.{update, is_reserved, set_item}
use spaceport.Message
use spaceport.Message.{Message, Stream}
use spaceport.Message.Transfer.{header_bytes}
use spaceport.Constants.{hook_locker}
use spaceport.Dispatcher.{Dispatcher, DispatchMessage, add}
use spaceport.LockerServer.{action, refuse_backup, init}
use spaceport.Server.{
  poll_of, poll_client, read, after_read, writes, Net, Conn, Server, Poll, goes_on, poll, received,
}
use spaceport.Server.Life.{Halt, polled, sent, dispatched, run, step, serve, batch, finish}
use spaceport.Server.Office.{IsSettled, view, mail}
use spaceport.Server.Delivery.{Idle}
use spaceport.Server.Steps.{step-Refines, run-IsSettled}
use spaceport.Server.Sources.{backup_kept}
use spaceport.Client.{Client, label, send_one, send_over}
use spaceport.Client.Arrival.{Fits, message_arrives}
use spaceport.Host.{Host}

abbrev host : Host
host = record { now = 5000; stopping = false; next = 0; queue = []; effects = [] }

-- The payload of a request for the Backup locker, and `json` for it.
abbrev payload : Fields
payload = field "name" (text "backup") end

abbrev net : Net
net = record {
  dumps = λ d. 0x7B ∷ 0x7D ∷ [];
  loads = λ b. some (dict payload);
  put = λ fd before w. w;
}

abbrev dispatcher : Dispatcher ℕ
dispatcher = record {
  stopping = false;
  messages = [];
  hooks = λ h. none;
  is_server = true;
  log_level = none;
  loads = 0;
  sent = [];
  modules = 0;
}

-- A server with one client.
abbrev client_conn : Conn
client_conn = record { uid = some 1000; pid = some 42; queue = []; written = [] }

abbrev server : Server ℕ
server = record {
  pid = 1;
  uid = 0;
  dispatcher = dispatcher;
  clients = (7, client_conn) ∷ [];
  polled = 7 ∷ [];
  socket = some 3;
  bound = true;
  running = false;
  complete = false;
}

server-IsSettled : IsSettled server
unfolding Idle
server-IsSettled = ((refl, tt), (refl, tt), λ fd. ground arith)

abbrev request : Message
request = Message.new hook_locker payload

step-Refines_example :
    view (step net (sent (some 7) (request ∷ request ∷ [])) server).clients
    ≡ mail net 1 (some 7) (request ∷ request ∷ []) (view server.clients)
step-Refines_example =
    step-Refines net (sent (some 7) (request ∷ request ∷ [])) server server-IsSettled

-- The client has written a request.
abbrev arrival : Poll
arrival = record {
  file = 7;
  readable = true;
  hup = false;
  error = false;
  accepted = none;
  stream = header_bytes hook_locker 2 ∷ (0x7B ∷ 0x7D ∷ []) ∷ [];
  closes = true;
}

abbrev halts : Halt
halts = record { closes = true; removes = true }

run-IsSettled_example : IsSettled (run net (polled halts (arrival ∷ []) ∷ dispatched ∷ []) server)
run-IsSettled_example =
    run-IsSettled net (polled halts (arrival ∷ []) ∷ dispatched ∷ []) server server-IsSettled

abbrev taken : DispatchMessage
taken = record { eid = some 7; message = received client_conn hook_locker payload }

backup_kept_example : action taken.message (init host) ≡ (ok refuse_backup, init host)
unfolding run step serve batch finish poll poll_of poll_client read after_read Message.recv
    Message.recv_bytes Message.unpack Message.recv_body Message.decode add update is_reserved
    received
backup_kept_example =
    backup_kept net (polled halts (arrival ∷ []) ∷ []) server taken 7 (init host) refl
      (Memᴰ.head refl) refl refl

abbrev client : Client ℕ
client = record {
  uuid = "0e8e";
  pid = 42;
  uid = 1000;
  dispatcher = dispatcher;
  socket = some 5;
  written = (0x10 ∷ 0 ∷ 0 ∷ 0 ∷ 0 ∷ []) ∷ [];
}

-- A message of the client, as `json` reads it back.
abbrev labelled : Fields
labelled = field "id" (text "0e8e") end

abbrev id_net : Net
id_net = record net { loads = λ b. some (dict labelled) }

abbrev status : Message
status = Message.new hook_locker end

labelled-Fits : Fits id_net (label "0e8e" status)
unfolding label Message.new set_item
labelled-Fits = (omega arith, omega arith, (refl, refl, refl, tt), omega arith, omega arith, refl)

message_arrives_example :
    poll id_net (record arrival { stream = writes id_net (label "0e8e" status) }) server ≡ (
      goes_on,
      record server {
        dispatcher =
            add
              (some 7)
              (received client_conn hook_locker (label "0e8e" status).payload)
              dispatcher;
      },
    )
unfolding Message.new send_one send_over
message_arrives_example =
    message_arrives id_net status client 5
      (record arrival { stream = writes id_net (label "0e8e" status) }) client_conn server refl refl
      labelled-Fits refl refl refl refl
