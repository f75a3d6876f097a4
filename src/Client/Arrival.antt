-- ===== src/Client/Arrival.antt =====
-- usr/lib/smd/lib/client.py and usr/lib/smd/lib/server.py: a message that a client sends, and the server takes.
use spaceport.Base.{
  ℕ, ◌≡◌, ◌<◌, ◌^◌, sym, ap, ◌∙◌, true, false, ◌||◌, Option, some, [], ◌++◌, if◌then◌else◌, if_true,
  if_false, length, append-nil, List, ◌∷◌, drop,
}
use spaceport.Base.Table.{lookup}
use spaceport.Value.{Fields, Result, dict, end, ok}
use spaceport.Message
use spaceport.Message.{Message, Stream}
use spaceport.Message.Transfer.{IsPayload, recv-send}
use spaceport.Dispatcher.{add}
use spaceport.Server.{
  poll_self, drop_client, Net, Conn, Server, Poll, goes_on, writes, writes_of, read, after_read,
  poll, poll_client, poll_of, received,
}
use spaceport.Client.{Client, label, send_one, send_over}

-- A message that JSON carries and the wire holds.
abbrev pub Fits : Net → Message → Type 0
Fits net m =
    (0 < m.header)
    × (m.header < 256)
    × IsPayload m.payload
    × (0 < length (net.dumps m.payload))
    × (length (net.dumps m.payload) < 2 ^ 32)
    × (net.loads (net.dumps m.payload) ≡ some (dict m.payload))

append_cancel_left : {A : Type 0} (l a b : List A) → l ++ a ≡ l ++ b → a ≡ b
append_cancel_left [] a b e = e
append_cancel_left (x ∷ l) a b e = append_cancel_left l a b (ap (drop 1) e)

recv-writes :
    (net : Net) (m : Message)
    → Fits net m
    → Message.recv net.loads end (writes net m) ≡ (ok (m.header, m.payload), [])
unfolding writes
recv-writes net m (a, b, c, d, e, f) =
    let (w, s, r) = recv-send net.dumps net.loads m.header m.payload [] a b c d e f in
    ap (λ (o : Result Stream). Message.recv net.loads end (writes_of o)) s
    ∙ ap (Message.recv net.loads end) (sym (append-nil w))
    ∙ r

written-send_one {κ} :
    {R : Type κ} (net : Net) (m : Message) (c : Client R) (fd : ℕ)
    → c.socket ≡ some fd
    → (send_one net m c).written ≡ c.written ++ net.put fd c.written (writes net (label c.uuid m))
unfolding send_one send_over
written-send_one net m c fd h = ap (λ (o : Option ℕ). (send_over net m c o).written) h

module _ {ℓ} {S : Type ℓ} where
  read_whole :
      (net : Net) (m : Message) (p : Poll) (k : Conn) (s : Server S)
      → Fits net m
      → p.stream ≡ writes net m
      → read net p k s ≡ (
        goes_on,
        record s { dispatcher = add (some p.file) (received k m.header m.payload) s.dispatcher },
      )
  unfolding read after_read
  read_whole net m p k s fits e =
      ap (λ (r : Result (ℕ × Fields) × Stream). after_read p k s r.0)
        (ap (Message.recv net.loads end) e ∙ recv-writes net m fits)

  poll_client_reads :
      (net : Net) (p : Poll) (k : Conn) (s : Server S)
      → p.readable ≡ true
      → Message.same_id s.socket (some p.file) ≡ false
      → lookup p.file s.clients ≡ some k
      → poll net p s ≡ read net p k s
  unfolding poll poll_of poll_client
  poll_client_reads net p k s r o l =
      if_false (Message.same_id s.socket (some p.file)) (poll_self p s)
        (poll_of net p (lookup p.file s.clients) s) o
      ∙ ap (λ (x : Option Conn). poll_of net p x s) l
      ∙ if_true p.readable (read net p k s)
          (if p.hup || p.error then drop_client p s else (goes_on, s)) r

module _ {ℓ κ} {S : Type ℓ} {R : Type κ} where
  -- A message that a connected client sends after any others, where its header is from 1 to 255, the names in it are
  -- different and none is reserved, its JSON has from 1 to 2^32 - 1 bytes and is read back as what it was, and all of it goes out. The
  -- server, for which the descriptor is a client's and not its own, and which has read all that was sent before, finds
  -- it there when it looks: it is put at the end of the dispatcher's queue, with the client's mark, the header and the
  -- user and process of the connection, unless the dispatcher has been stopped; nothing else changes at the server.
  pub message_arrives :
      (net : Net) (m : Message) (c : Client R) (fd : ℕ) (p : Poll) (k : Conn) (s : Server S)
      → c.socket ≡ some fd
      → net.put fd c.written (writes net (label c.uuid m)) ≡ writes net (label c.uuid m)
      → Fits net (label c.uuid m)
      → (send_one net m c).written ≡ c.written ++ p.stream
      → p.readable ≡ true
      → Message.same_id s.socket (some p.file) ≡ false
      → lookup p.file s.clients ≡ some k
      → poll net p s ≡ (
        goes_on,
        record s {
          dispatcher =
              add (some p.file) (received k m.header (label c.uuid m).payload) s.dispatcher;
        },
      )
  unfolding label
  message_arrives net m c fd p k s sock whole fits str rd other known =
      let whole_stream : p.stream ≡ writes net (label c.uuid m) =
        append_cancel_left c.written p.stream (writes net (label c.uuid m)) (
          sym str ∙ written-send_one net m c fd sock ∙ ap (λ (w : Stream). c.written ++ w) whole) in
      poll_client_reads net p k s rd other known
      ∙ read_whole net (label c.uuid m) p k s fits whole_stream
