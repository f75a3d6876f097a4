-- ===== src/Server/Visits.antt =====
-- usr/lib/smd/lib/server.py: a turn of the loop, as a post office sees it: who leaves, who is new, and when it closes.
use spaceport.Base.{
  ℕ, ◌≡◌, refl, ap, sym, ◌∙◌, Bool, true, false, ◌||◌, Option, none, some, List, [], ◌∷◌, ◌==◌,
  if◌then◌else◌, Bool-cases, inl, inr,
}
use spaceport.Base.Table.{Table, lookup, insert, erase, lookup-insert, lookup-erase}
use spaceport.Value.{Result, ok, err, Exn, os_error, end, Fields}
use spaceport.Message
use spaceport.Message.{Stream}
use spaceport.Server.Defs.{
  Net, Conn, Server, Poll, Turn, goes_on, breaks, raises, drop_client, read, accept, poll_self,
  poll_client, read_failed, after_read, poll_of, poll,
}
use spaceport.Server.Office.{Office, written_of, view}
use spaceport.Server.Life.{Halt, halt, unless_broken, batch, finish, serve}

abbrev pub nobody : Office
nobody fd = none

abbrev pub forget : ℕ → Office → Office
forget k o fd = if k == fd then none else o fd

abbrev pub welcome : ℕ → Office → Office
welcome k o fd = if k == fd then some [] else o fd

-- What becomes of a client that the loop is told of: one whose socket is at its end, or has hung up or failed with nothing
-- to read, leaves; an exception of another kind than `OSError` ends the loop.
pub data Fate : Type 0 where
  stays leaves fails : Fate

abbrev pub fate_of : Result (ℕ × Fields) → Fate
fate_of (ok _) = stays
fate_of (err (os_error n)) = if n == 0x3E8 then leaves else stays
fate_of (err _) = fails

abbrev pub fate : Net → Poll → Fate
fate net p =
    if p.readable
    then fate_of (Message.recv net.loads end p.stream).0
    else if p.hup || p.error
    then leaves
    else stays

abbrev pub met : Fate → Poll → Office → Turn × Office
met stays p o = (goes_on, o)
met leaves p o = if p.closes then (goes_on, forget p.file o) else (raises, o)
met fails p o = (raises, o)

abbrev pub visit_of : Net → Poll → Option Stream → Office → Turn × Office
visit_of net p none o = (goes_on, o)
visit_of net p (some _) o = met (fate net p) p o

abbrev pub welcomed : Option (ℕ × (Option ℕ × Option ℕ)) → Office → Turn × Office
welcomed none o = (raises, o)
welcomed (some (fd, _)) o = (goes_on, welcome fd o)

-- One descriptor that the loop is told of: the office's own, or a client's
abbrev pub visit : Net → Option ℕ → Poll → Office → Turn × Office
visit net own p o =
    if Message.same_id own (some p.file)
    then (if p.hup then (breaks, o) else welcomed p.accepted o)
    else visit_of net p (o p.file) o

abbrev pub next_visit : (Office → Office) → Turn × Office → Office
next_visit rest (goes_on, o) = rest o
next_visit rest (breaks, o) = nobody
next_visit rest (raises, o) = nobody

-- One descriptor after the other: once the own socket hangs up, or a call raises, nobody is left.
unfoldable pub visits : Net → Option ℕ → List Poll → Office → Office
visits net own [] o = o
visits net own (p ∷ ps) o = next_visit (visits net own ps) (visit net own p o)

-- A turn of an office: one that has closed does nothing, and one that is to close sends everybody away.
unfoldable pub office_turn {ℓ} : {S : Type ℓ} → Net → List Poll → Server S → Office
office_turn net ps s =
    if s.complete
    then view s.clients
    else if s.running
    then nobody
    else visits net s.socket ps (view s.clients)

abbrev is_break : Turn → Bool
is_break breaks = true
is_break _ = false

view-insert :
    (fd : ℕ) (c : Conn) (d : Table Conn)
    → c.written ≡ []
    → (k : ℕ) → view (insert fd c d) k ≡ welcome fd (view d) k
unfolding view
view-insert fd c d w k = elim (Bool-cases (fd == k)) [
  | inl e ↦ rw (lookup-insert fd k c d, e) (ap some w)
  | inr e ↦ rw (lookup-insert fd k c d, e) refl
]

view-erase : (fd : ℕ) (d : Table Conn) (k : ℕ) → view (erase fd d) k ≡ forget fd (view d) k
unfolding view
view-erase fd d k = elim (Bool-cases (fd == k)) [
  | inl e ↦ rw (lookup-erase fd k d, e) refl
  | inr e ↦ rw (lookup-erase fd k d, e) refl
]

module _ {ℓ} {S : Type ℓ} where
  -- A turn of the server, as the office sees it; and the socket and the order to stop, as they were.
  abbrev Shows : Server S → Turn × Server S → Turn × Office → Type 0
  Shows s (x, t) v =
      (v ≡ (x, view t.clients)) × (t.socket ≡ s.socket) × (t.running ≡ is_break x || s.running)

  if_Shows :
      (b : Bool) (s : Server S) (x y : Turn × Server S) (v w : Turn × Office)
      → Shows s x v
      → Shows s y w
      → Shows s (if b then x else y) (if b then v else w)
  if_Shows true s x y v w h k = h
  if_Shows false s x y v w h k = k

  drop_client-Shows :
      (p : Poll) (s : Server S) → Shows s (drop_client p s) (met leaves p (view s.clients))
  unfolding drop_client
  drop_client-Shows p s = elim (Bool-cases p.closes) [
    | inl e ↦ rw e (λ i. (goes_on, λ k. sym (view-erase p.file s.clients k) i), refl, refl)
    | inr e ↦ rw e (refl, refl, refl)
  ]

  read_failed-Shows :
      (p : Poll) (x : Exn) (s : Server S)
      → Shows s (read_failed p x s) (met (fate_of (err x)) p (view s.clients))
  unfolding read_failed
  read_failed-Shows p (os_error n) s = elim (Bool-cases (n == 0x3E8)) [
    | inl e ↦ rw e (drop_client-Shows p s)
    | inr e ↦ rw e (refl, refl, refl)
  ]
  read_failed-Shows p _ s = (refl, refl, refl)

  after_read-Shows :
      (p : Poll) (c : Conn) (s : Server S) (r : Result (ℕ × Fields))
      → Shows s (after_read p c s r) (met (fate_of r) p (view s.clients))
  unfolding after_read
  after_read-Shows p c s (ok (n, d)) = (refl, refl, refl)
  after_read-Shows p c s (err x) = read_failed-Shows p x s

  met_if-Shows :
      (b : Bool) (p : Poll) (s : Server S) (x y : Turn × Server S) (f g : Fate)
      → Shows s x (met f p (view s.clients))
      → Shows s y (met g p (view s.clients))
      → Shows s (if b then x else y) (met (if b then f else g) p (view s.clients))
  met_if-Shows true p s x y f g h k = h
  met_if-Shows false p s x y f g h k = k

  poll_client-Shows :
      (net : Net) (p : Poll) (c : Conn) (s : Server S)
      → Shows s (poll_client net p c s) (met (fate net p) p (view s.clients))
  unfolding poll_client read
  poll_client-Shows net p c s =
      let r = (Message.recv net.loads end p.stream).0 in
      met_if-Shows p.readable p s (after_read p c s r)
        (if p.hup || p.error then drop_client p s else (goes_on, s)) (fate_of r)
        (if p.hup || p.error then leaves else stays) (after_read-Shows p c s r)
        (met_if-Shows (p.hup || p.error) p s (drop_client p s) (goes_on, s) leaves stays
          (drop_client-Shows p s) (refl, refl, refl))

  poll_of-Shows :
      (net : Net) (p : Poll) (o : Option Conn) (s : Server S)
      → Shows s (poll_of net p o s) (visit_of net p (written_of o) (view s.clients))
  unfolding poll_of
  poll_of-Shows net p none s = (refl, refl, refl)
  poll_of-Shows net p (some c) s = poll_client-Shows net p c s

  accepted : Option (ℕ × (Option ℕ × Option ℕ)) → Server S → Turn × Server S
  accepted none s = (raises, s)
  accepted (some (fd, (pid, uid))) s = (goes_on, accept fd pid uid s)

  accepted-Shows :
      (a : Option (ℕ × (Option ℕ × Option ℕ))) (s : Server S)
      → Shows s (accepted a s) (welcomed a (view s.clients))
  unfolding accepted accept
  accepted-Shows none s = (refl, refl, refl)
  accepted-Shows (some (fd, (pid, uid))) s = (
    λ i. (
      goes_on,
      λ k.
          sym
            (view-insert fd (record { uid = uid; pid = pid; queue = []; written = [] }) s.clients
              refl k)
            i,
    ),
    refl,
    refl,
  )

  poll_self_lem :
      (p : Poll) (a : Option (ℕ × (Option ℕ × Option ℕ))) (s : Server S)
      → p.accepted ≡ a
      → poll_self p s ≡ (if p.hup then (breaks, record s { running = true }) else accepted a s)
  unfolding poll_self accepted
  poll_self_lem p none s e = rw (poll_self, e) refl
  poll_self_lem p (some (fd, (pid, uid))) s e = rw (poll_self, e) refl

  poll_self-Shows :
      (p : Poll) (s : Server S)
      → Shows s
          (poll_self p s)
          (if p.hup then (breaks, view s.clients) else welcomed p.accepted (view s.clients))
  poll_self-Shows p s = rw (poll_self_lem p p.accepted s refl) (
      if_Shows p.hup s (breaks, record s { running = true }) (accepted p.accepted s)
        (breaks, view s.clients) (welcomed p.accepted (view s.clients)) (refl, refl, refl)
        (accepted-Shows p.accepted s))

  poll-Shows :
      (net : Net) (p : Poll) (s : Server S)
      → Shows s (poll net p s) (visit net s.socket p (view s.clients))
  unfolding poll view
  poll-Shows net p s =
      if_Shows (Message.same_id s.socket (some p.file)) s (poll_self p s)
        (poll_of net p (lookup p.file s.clients) s)
        (if p.hup then (breaks, view s.clients) else welcomed p.accepted (view s.clients))
        (visit_of net p (view s.clients p.file) (view s.clients)) (poll_self-Shows p s)
        (poll_of-Shows net p (lookup p.file s.clients) s)

  module _ (net : Net) (h : Halt) where
    view-halt : (s : Server S) → view (halt net h s).clients ≡ nobody
    unfolding halt view
    view-halt s = refl

    -- The rest of the turn, once one descriptor was looked at.
    rest_of_turn :
        (ps : List Poll) (s : Server S) (r : Turn × Server S) (v : Turn × Office)
        → ((t : Server S)
            → t.running ≡ false
            → view (finish net h (batch net ps t)).clients
              ≡ visits net t.socket ps (view t.clients))
        → s.running ≡ false
        → Shows s r v
        → view (finish net h (unless_broken (batch net ps) r)).clients
          ≡ next_visit (visits net s.socket ps) v
    unfolding finish halt
    rest_of_turn ps s (goes_on, t) v ih k (e, o, u) =
        ih t (u ∙ k)
        ∙ ap (λ (x : Option ℕ). visits net x ps (view t.clients)) o
        ∙ sym (ap (next_visit (visits net s.socket ps)) e)
    rest_of_turn ps s (breaks, t) v ih k (e, o, u) =
        rw u (view-halt t ∙ sym (ap (next_visit (visits net s.socket ps)) e))
    rest_of_turn ps s (raises, t) v ih k (e, o, u) =
        view-halt t ∙ sym (ap (next_visit (visits net s.socket ps)) e)

    view-batch :
        (ps : List Poll) (s : Server S)
        → s.running ≡ false
        → view (finish net h (batch net ps s)).clients ≡ visits net s.socket ps (view s.clients)
    unfolding batch finish visits
    view-batch [] s k = rw k refl
    view-batch (p ∷ ps) s k =
        rest_of_turn ps s (poll net p s) (visit net s.socket p (view s.clients)) (view-batch ps) k
          (poll-Shows net p s)

    view_if :
        (b : Bool) (x y : Server S) (v w : Office)
        → view x.clients ≡ v
        → (b ≡ false → view y.clients ≡ w)
        → view (if b then x else y).clients ≡ (if b then v else w)
    view_if true x y v w e f = e
    view_if false x y v w e f = f refl

    pub view-serve :
        (ps : List Poll) (s : Server S) → view (serve net h ps s).clients ≡ office_turn net ps s
    unfolding serve office_turn
    view-serve ps s =
        let turned = finish net h (batch net ps s) in
        let seen = visits net s.socket ps (view s.clients) in
        view_if s.complete s (if s.running then halt net h s else turned) (view s.clients)
          (if s.running then nobody else seen) refl
          (λ _. view_if s.running (halt net h s) turned nobody seen (view-halt s) (view-batch ps s))
