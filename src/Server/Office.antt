-- ===== src/Server/Office.antt =====
-- usr/lib/smd/lib/server.py: the server seen as a post office: for each client, what was written to it.
use spaceport.Base.{
  ℕ, ◌≡◌, refl, ap, ◌∙◌, Bool, false, Option, none, some, List, [], ◌∷◌, ◌==◌, ◌||◌, reverse, arith,
}
use spaceport.Base.Table.{
  Table, lookup, contains, map_values, Distinct, lookup-map_values, map_values-Distinct, applied,
}
use spaceport.Message.{Message, Stream}
use spaceport.Dispatcher.{Sent}
use spaceport.Server.Defs.{Net, Conn, Server, send, deliver_all}
use spaceport.Server.Delivery.{meant_for, post, posted, Idle, with_clients, send_clients}

abbrev pub Office : Type 0
Office = ℕ → Option Stream

abbrev pub written_of : Option Conn → Option Stream
written_of none = none
written_of (some c) = some c.written

-- What was written to each client of a table.
unfoldable pub view : Table Conn → Office
view d fd = written_of (lookup fd d)

abbrev after_posts : Net → ℕ → ℕ → List Message → Option Stream → Option Stream
after_posts net pid fd ms none = none
after_posts net pid fd ms (some w) = some (post net pid fd ms w)

-- Each client gets those of the messages that are meant for it, the last one first.
unfoldable pub mail : Net → ℕ → Option ℕ → List Message → Office → Office
mail net pid eid ms o fd = after_posts net pid fd (reverse (meant_for eid fd ms)) (o fd)

unfoldable pub mail_all : Net → ℕ → List Sent → Office → Office
mail_all net pid [] o = o
mail_all net pid (x ∷ xs) o = mail_all net pid xs (mail net pid x.eid x.messages o)

-- Is a descriptor in a list?
abbrev pub has : ℕ → List ℕ → Bool
has k [] = false
has k (j ∷ js) = j == k || has k js

-- No message waits for a client, each descriptor is one client's, and the loop asks about just those of the
-- clients.
abbrev pub IsSettled {ℓ} : {S : Type ℓ} → Server S → Type 0
IsSettled s =
    Idle s.clients × Distinct s.clients × ((fd : ℕ) → has fd s.polled ≡ contains fd s.clients)

posted_view :
    (net : Net) (pid : ℕ) (eid : Option ℕ) (ms : List Message) (fd : ℕ) (o : Option Conn)
    → written_of (applied (posted net pid eid ms fd) o)
      ≡ after_posts net pid fd (reverse (meant_for eid fd ms)) (written_of o)
unfolding posted
posted_view net pid eid ms fd none = refl
posted_view net pid eid ms fd (some c) = refl

view-posted :
    (net : Net) (pid : ℕ) (eid : Option ℕ) (ms : List Message) (d : Table Conn) (fd : ℕ)
    → view (map_values (posted net pid eid ms) d) fd ≡ mail net pid eid ms (view d) fd
unfolding view mail
view-posted net pid eid ms d fd =
    ap written_of (lookup-map_values (posted net pid eid ms) fd d)
    ∙ posted_view net pid eid ms fd (lookup fd d)

posted-Idle :
    (net : Net) (pid : ℕ) (eid : Option ℕ) (ms : List Message) (d : Table Conn)
    → Idle d
    → Idle (map_values (posted net pid eid ms) d)
unfolding Idle posted
posted-Idle net pid eid ms [] i = tt
posted-Idle net pid eid ms ((k, c) ∷ d) i = (i.0, posted-Idle net pid eid ms d i.1)

contains_applied :
    (f : ℕ → Conn → Conn) (fd : ℕ) (d : Table Conn) → contains fd (map_values f d) ≡ contains fd d
contains_applied f fd [] = refl
contains_applied f fd ((k, c) ∷ d) = ground (arith, contains_applied f fd d)

module _ {ℓ} {S : Type ℓ} (net : Net) where
  posted-IsSettled :
      (eid : Option ℕ) (ms : List Message) (s : Server S)
      → IsSettled s
      → IsSettled (with_clients (map_values (posted net s.pid eid ms) s.clients) s)
  posted-IsSettled eid ms s (i, p, h) = (
    posted-Idle net s.pid eid ms s.clients i,
    map_values-Distinct (posted net s.pid eid ms) s.clients p,
    λ fd. rw (contains_applied (posted net s.pid eid ms) fd s.clients) (h fd),
  )

  pub send-IsSettled :
      (eid : Option ℕ) (ms : List Message) (s : Server S)
      → IsSettled s
      → IsSettled (send net eid ms s)
  send-IsSettled eid ms s h = rw (send_clients net eid ms s h.1 h.0) (posted-IsSettled eid ms s h)

  pub view-send :
      (eid : Option ℕ) (ms : List Message) (s : Server S)
      → IsSettled s
      → view (send net eid ms s).clients ≡ mail net s.pid eid ms (view s.clients)
  view-send eid ms s h =
      rw (send_clients net eid ms s h.1 h.0) (λ i fd. view-posted net s.pid eid ms s.clients fd i)

  pub send-pid :
      (eid : Option ℕ) (ms : List Message) (s : Server S)
      → IsSettled s
      → (send net eid ms s).pid ≡ s.pid
  send-pid eid ms s h = ap (λ (t : Server S). t.pid) (send_clients net eid ms s h.1 h.0)

  pub deliver_all-IsSettled :
      (xs : List Sent) (s : Server S) → IsSettled s → IsSettled (deliver_all net xs s)
  unfolding deliver_all
  deliver_all-IsSettled [] s h = h
  deliver_all-IsSettled (x ∷ xs) s h =
      deliver_all-IsSettled xs (send net x.eid x.messages s) (send-IsSettled x.eid x.messages s h)

  pub view-deliver_all :
      (xs : List Sent) (s : Server S)
      → IsSettled s
      → view (deliver_all net xs s).clients ≡ mail_all net s.pid xs (view s.clients)
  unfolding deliver_all mail_all
  view-deliver_all [] s h = refl
  view-deliver_all (x ∷ xs) s h =
      view-deliver_all xs (send net x.eid x.messages s) (send-IsSettled x.eid x.messages s h)
      ∙ ap (λ (n : ℕ). mail_all net n xs (view (send net x.eid x.messages s).clients))
          (send-pid x.eid x.messages s h)
      ∙ ap (mail_all net s.pid xs) (view-send x.eid x.messages s h)
