-- ===== src/Server/Delivery.antt =====
-- usr/lib/smd/lib/server.py: what `send` puts on the sockets of the clients.
use spaceport.Base.{
  ℕ, ◌≡◌, refl, sym, ap, ◌∙◌, Bool, true, false, ◌||◌, Option, none, some, List, [], ◌∷◌, ◌++◌,
  ◌==◌, if◌then◌else◌, reverse, append-nil, append_assoc, arith, inl, inr, Bool-cases,
}
use spaceport.Base.Table.{Table, lookup, insert, map_values, Distinct, map_values-Distinct}
use mathlib.Core.List.{reverse-append}
use spaceport.Message.{Message, Stream}
use spaceport.Server.Defs.{
  Net, Conn, Server, queue_up, stamp, writes, flush_one, flush_from, flush_conn, flush, enqueue,
  queue_for_all, queue_for_one, send_one, send_each, send,
}

-- Is a message that is sent to `eid` meant for the client at `fd`?
unfoldable pub meant : Option ℕ → ℕ → Message → Bool
meant none fd m = true
meant (some eid) fd m = m.is_multicast || fd == eid

unfoldable pub meant_for : Option ℕ → ℕ → List Message → List Message
meant_for eid fd [] = []
meant_for eid fd (m ∷ ms) =
    let rest = meant_for eid fd ms in if meant eid fd m then m ∷ rest else rest

-- What has been written to a client after these messages, the first of them first.
unfoldable pub post : Net → ℕ → ℕ → List Message → Stream → Stream
post net pid fd [] w = w
post net pid fd (m ∷ ms) w = post net pid fd ms (w ++ net.put fd w (writes net (stamp pid m)))

unfoldable pub queue_meant : Option ℕ → Message → ℕ → Conn → Conn
queue_meant eid m fd c = if meant eid fd m then queue_up m c else c

unfoldable pub queue_all : Option ℕ → List Message → ℕ → Conn → Conn
queue_all eid ms fd c = record c { queue = c.queue ++ meant_for eid fd ms }

-- A client after `send` of these messages, where none waited for it.
unfoldable pub posted : Net → ℕ → Option ℕ → List Message → ℕ → Conn → Conn
posted net pid eid ms fd c = record c {
  written = post net pid fd (reverse (meant_for eid fd ms)) c.written;
}

-- No message waits for a client.
unfoldable pub Idle : Table Conn → Type 0
Idle [] = Unit {0}
Idle ((_, c) ∷ d) = (c.queue ≡ []) × Idle d

post-append :
    (net : Net) (pid fd : ℕ) (ms : List Message) (m : Message) (w : Stream)
    → post net pid fd (ms ++ m ∷ []) w ≡ post net pid fd (m ∷ []) (post net pid fd ms w)
unfolding post
post-append net pid fd [] m w = refl
post-append net pid fd (n ∷ ms) m w =
    post-append net pid fd ms m (w ++ net.put fd w (writes net (stamp pid n)))

reverse-cons : (m : Message) (ms : List Message) → reverse (m ∷ ms) ≡ reverse ms ++ m ∷ []
reverse-cons m ms = reverse-append (m ∷ []) ms

flush_from_lem :
    (net : Net) (pid fd : ℕ) (ms : List Message) (c : Conn)
    → flush_from net pid fd ms c
      ≡ record c { queue = []; written = post net pid fd (reverse ms) c.written }
unfolding flush_from flush_one post
flush_from_lem net pid fd [] c = refl
flush_from_lem net pid fd (m ∷ ms) c =
    rw (flush_from_lem net pid fd ms c, reverse-cons m ms, post-append net pid fd (reverse ms) m)
      refl

module _ (f g : ℕ → Conn → Conn) where
  map_values-map_values :
      (d : Table Conn) → map_values g (map_values f d) ≡ map_values (λ k c. g k (f k c)) d
  map_values-map_values [] = refl
  map_values-map_values ((k, c) ∷ d) = rw (map_values-map_values d) refl

  map_values_ext :
      ((k : ℕ) (c : Conn) → f k c ≡ g k c) → (d : Table Conn) → map_values f d ≡ map_values g d
  map_values_ext h [] = refl
  map_values_ext h ((k, c) ∷ d) = rw (h k c, map_values_ext h d) refl

  map_values-Idle :
      ((k : ℕ) (c : Conn) → c.queue ≡ [] → f k c ≡ g k c)
      → (d : Table Conn) → Idle d
      → map_values f d ≡ map_values g d
  unfolding Idle
  map_values-Idle h [] i = refl
  map_values-Idle h ((k, c) ∷ d) i = rw (h k c i.0, map_values-Idle h d i.1) refl

-- A message for the client at `eid`, or for all.
abbrev queue_at : Bool → ℕ → Message → ℕ → Conn → Conn
queue_at all eid m fd c = if all || fd == eid then queue_up m c else c

absent :
    (eid : ℕ) (m : Message) (d : Table Conn)
    → lookup eid d ≡ none
    → map_values (queue_at false eid m) d ≡ d
absent eid m [] n = refl
absent eid m ((k, c) ∷ d) n = ground (arith, absent eid m d)

insert_at :
    (eid : ℕ) (m : Message) (d : Table Conn) (c : Conn)
    → Distinct d
    → lookup eid d ≡ some c
    → insert eid (queue_up m c) d ≡ map_values (queue_at false eid m) d
insert_at eid m [] c p l = cc
insert_at eid m ((k, x) ∷ d) c p l = ground (arith, insert_at eid m d c p.1, absent eid m d)

map_values_id :
    (f : ℕ → Conn → Conn) → ((k : ℕ) (c : Conn) → f k c ≡ c) → (d : Table Conn) → map_values f d ≡ d
map_values_id f h [] = refl
map_values_id f h ((k, c) ∷ d) = rw (h k c, map_values_id f h d) refl

queue_all_none : (eid : Option ℕ) (fd : ℕ) (c : Conn) → queue_all eid [] fd c ≡ c
unfolding queue_all meant_for
queue_all_none eid fd c = ap (λ (q : List Message). record c { queue = q }) (append-nil c.queue)

queue_all_cons :
    (eid : Option ℕ) (m : Message) (ms : List Message) (fd : ℕ) (c : Conn)
    → queue_all eid ms fd (queue_meant eid m fd c) ≡ queue_all eid (m ∷ ms) fd c
unfolding queue_all meant_for queue_meant queue_up
queue_all_cons eid m ms fd c = elim (Bool-cases (meant eid fd m)) [
  | inl e ↦ rw e (
      ap (λ (q : List Message). record c { queue = q })
        (append_assoc c.queue (m ∷ []) (meant_for eid fd ms)))
  | inr e ↦ rw e refl
]

flush_all :
    (net : Net) (pid : ℕ) (eid : Option ℕ) (ms : List Message) (fd : ℕ) (c : Conn)
    → c.queue ≡ []
    → flush_conn net pid fd (queue_all eid ms fd c) ≡ posted net pid eid ms fd c
unfolding queue_all posted
flush_all net pid eid ms fd c h =
    rw h
      (flush_from_lem net pid fd (meant_for eid fd ms) (record c { queue = meant_for eid fd ms }))

posted_none :
    (net : Net) (pid : ℕ) (eid : Option ℕ) (fd : ℕ) (c : Conn) → posted net pid eid [] fd c ≡ c
unfolding posted meant_for post
posted_none net pid eid fd c = refl

module _ {ℓ} {S : Type ℓ} where
  -- The server with other clients
  abbrev pub with_clients : Table Conn → Server S → Server S
  with_clients d s = record s { clients = d }

  queue_for_one_lem :
      (eid : ℕ) (m : Message) (o : Option Conn) (s : Server S)
      → Distinct s.clients
      → lookup eid s.clients ≡ o
      → (queue_for_one eid m o s).1 ≡ with_clients (map_values (queue_at false eid m) s.clients) s
  unfolding queue_for_one
  queue_for_one_lem eid m none s p e =
      ap (λ (d : Table Conn). with_clients d s) (sym (absent eid m s.clients e))
  queue_for_one_lem eid m (some c) s p e =
      ap (λ (d : Table Conn). with_clients d s) (insert_at eid m s.clients c p e)

  queue_if :
      (all : Bool) (eid : ℕ) (m : Message) (s : Server S)
      → Distinct s.clients
      → (if all then queue_for_all m s else queue_for_one eid m (lookup eid s.clients) s).1
        ≡ with_clients (map_values (queue_at all eid m) s.clients) s
  unfolding queue_for_all
  queue_if true eid m s p = refl
  queue_if false eid m s p = queue_for_one_lem eid m (lookup eid s.clients) s p refl

  enqueue_clients :
      (eid : Option ℕ) (m : Message) (s : Server S)
      → Distinct s.clients
      → (enqueue eid m s).1 ≡ with_clients (map_values (queue_meant eid m) s.clients) s
  unfolding enqueue queue_for_all queue_meant meant
  enqueue_clients none m s p = refl
  enqueue_clients (some eid) m s p = queue_if m.is_multicast eid m s p

  send_one_quiet :
      (net : Net) (eid : Option ℕ) (m : Message) (s : Server S)
      → send_one net eid false m s ≡ (enqueue eid m s).1
  unfolding send_one
  send_one_quiet net eid m s = elim (Bool-cases (enqueue eid m s).0) [
    | inl e ↦ rw e refl
    | inr e ↦ rw e refl
  ]

  send_each_clients :
      (net : Net) (eid : Option ℕ) (ms : List Message) (s : Server S)
      → Distinct s.clients
      → send_each net eid ms s ≡ with_clients (map_values (queue_all eid ms) s.clients) s
  unfolding send_each
  send_each_clients net eid [] s p =
      ap (λ (d : Table Conn). with_clients d s)
        (sym (map_values_id (queue_all eid []) (queue_all_none eid) s.clients))
  send_each_clients net eid (m ∷ ms) s p =
      let d : Table Conn = map_values (queue_meant eid m) s.clients in
      ap (send_each net eid ms) (send_one_quiet net eid m s ∙ enqueue_clients eid m s p)
      ∙ send_each_clients net eid ms (with_clients d s)
          (map_values-Distinct (queue_meant eid m) s.clients p)
      ∙ ap (λ (d' : Table Conn). with_clients d' s)
          (map_values-map_values (queue_meant eid m) (queue_all eid ms) s.clients
            ∙ map_values_ext (λ k c. queue_all eid ms k (queue_meant eid m k c))
                (queue_all eid (m ∷ ms)) (queue_all_cons eid m ms) s.clients)

  pub send_clients :
      (net : Net) (eid : Option ℕ) (ms : List Message) (s : Server S)
      → Distinct s.clients
      → Idle s.clients
      → send net eid ms s ≡ with_clients (map_values (posted net s.pid eid ms) s.clients) s
  unfolding send flush
  send_clients net eid [] s p i =
      ap (λ (d : Table Conn). with_clients d s)
        (sym (map_values_id (posted net s.pid eid []) (posted_none net s.pid eid) s.clients))
  send_clients net eid (m ∷ ms) s p i =
      ap (flush net) (send_each_clients net eid (m ∷ ms) s p)
      ∙ ap (λ (d : Table Conn). with_clients d s)
          (map_values-map_values (queue_all eid (m ∷ ms)) (flush_conn net s.pid) s.clients
            ∙ map_values-Idle (λ k c. flush_conn net s.pid k (queue_all eid (m ∷ ms) k c))
                (posted net s.pid eid (m ∷ ms)) (flush_all net s.pid eid (m ∷ ms)) s.clients i)
