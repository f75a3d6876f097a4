-- ===== src/Server/Turns.antt =====
-- usr/lib/smd/lib/server.py: what a turn of the loop does to the clients.
use spaceport.Base.{
  ℕ, ◌≡◌, refl, ap, ◌∙◌, Bool, true, false, ◌⊎◌, inl, inr, Option, none, some, List, [], ◌∷◌, ◌++◌,
  ◌==◌, ◌||◌, if◌then◌else◌, arith, Bool-cases, Option-cases,
}
use spaceport.Base.Table.{
  Table, lookup, insert, erase, lookup-insert, lookup-erase, insert-Distinct, erase-Distinct,
}
use spaceport.Value.{Result, ok, err, Exn, os_error, end, Fields}
use spaceport.Message
use spaceport.Message.{Message, Stream}
use spaceport.Server.Defs.{
  Net, Conn, Server, Poll, Turn, goes_on, breaks, raises, remove, drop_client, read, accept,
  poll_self, poll_client, read_failed, after_read, poll_of, poll,
}
use spaceport.Server.Delivery.{Idle}
use spaceport.Server.Office.{view, has, IsSettled}
use spaceport.Server.Life.{Halt, halt, unless_broken, batch, finish, serve}

-- A client's stream was kept, or it left, or it is a new one to whom nothing was written.
abbrev pub Kept : Option Stream → Option Stream → Type 0
Kept a b = (b ≡ a) ⊎ ((b ≡ none) ⊎ (b ≡ some []))

Kept-trans : (a b c : Option Stream) → Kept a b → Kept b c → Kept a c
Kept-trans a b c (inl e) (inl f) = inl (f ∙ e)
Kept-trans a b c (inr (inl e)) (inl f) = inr (inl (f ∙ e))
Kept-trans a b c (inr (inr e)) (inl f) = inr (inr (f ∙ e))
Kept-trans a b c _ (inr f) = inr f

insert-Idle : (fd : ℕ) (c : Conn) (d : Table Conn) → c.queue ≡ [] → Idle d → Idle (insert fd c d)
unfolding Idle
insert-Idle fd c [] h i = (h, tt)
insert-Idle fd c ((k, x) ∷ d) h i = ground (arith, insert-Idle fd c d h i.1)

erase-Idle : (fd : ℕ) (d : Table Conn) → Idle d → Idle (erase fd d)
unfolding Idle
erase-Idle fd [] i = tt
erase-Idle fd ((k, x) ∷ d) i = ground (arith, erase-Idle fd d i.1)

has-remove :
    (k fd : ℕ) (js : List ℕ) → has fd (remove k js) ≡ (if k == fd then false else has fd js)
has-remove k fd [] = ground arith
has-remove k fd (j ∷ js) = ground (arith, has-remove k fd js)

has-append : (k fd : ℕ) (js : List ℕ) → has fd (js ++ k ∷ []) ≡ (k == fd || has fd js)
has-append k fd [] = refl
has-append k fd (j ∷ js) = ground (arith, has-append k fd js)

insert-Kept :
    (fd k : ℕ) (c : Conn) (d : Table Conn)
    → c.written ≡ []
    → Kept (view d k) (view (insert fd c d) k)
unfolding view
insert-Kept fd k c d w = elim (Bool-cases (fd == k)) [
  | inl e ↦ rw (lookup-insert fd k c d, e) (inr (inr (ap some w)))
  | inr e ↦ rw (lookup-insert fd k c d, e) (inl refl)
]

erase-Kept : (fd k : ℕ) (d : Table Conn) → Kept (view d k) (view (erase fd d) k)
unfolding view
erase-Kept fd k d = elim (Bool-cases (fd == k)) [
  | inl e ↦ rw (lookup-erase fd k d, e) (inr (inl refl))
  | inr e ↦ rw (lookup-erase fd k d, e) (inl refl)
]

module _ {ℓ} {S : Type ℓ} where
  -- What a turn leaves, unless it raises
  abbrev Leaves : Turn → Server S → Type 0
  Leaves raises t = Unit {0}
  Leaves _ t = IsSettled t

  -- The server is sound again, unless a call raised, and nothing was written to a client.
  abbrev After : Server S → Turn × Server S → Type 0
  After s (o, t) = Leaves o t × ((fd : ℕ) → Kept (view s.clients fd) (view t.clients fd))

  drop_client_After : (p : Poll) (s : Server S) → IsSettled s → After s (drop_client p s)
  unfolding drop_client
  drop_client_After p s (i, d, h) = elim (Bool-cases p.closes) [
    | inl e ↦ rw e (
      (
        erase-Idle p.file s.clients i,
        erase-Distinct p.file s.clients d,
        λ fd. ground (arith, has-remove p.file fd s.polled, lookup-erase p.file fd s.clients, h fd),
      ),
      λ fd. erase-Kept p.file fd s.clients,
    )
    | inr e ↦ rw e (tt, λ fd. inl refl)
  ]

  accept_After :
      (n : ℕ) (pid uid : Option ℕ) (s : Server S)
      → IsSettled s
      → After s (goes_on, accept n pid uid s)
  unfolding accept
  accept_After n pid uid s (i, d, h) =
      let c : Conn = record { uid = uid; pid = pid; queue = []; written = [] } in
      (
        (
          insert-Idle n c s.clients refl i,
          insert-Distinct n c s.clients d,
          λ fd. ground (arith, has-append n fd s.polled, lookup-insert n fd c s.clients, h fd),
        ),
        λ fd. insert-Kept n fd c s.clients refl,
      )

  poll_self_After : (p : Poll) (s : Server S) → IsSettled s → After s (poll_self p s)
  unfolding poll_self
  poll_self_After p s h = elim (Bool-cases p.hup) [
    | inl e ↦ rw e (h, λ fd. inl refl)
    | inr e ↦ elim (Option-cases p.accepted) [
      | inl e' ↦ rw (e, e') (tt, λ fd. inl refl)
      | inr ((n, (pid, uid)), e') ↦ rw (e, e') (accept_After n pid uid s h)
    ]
  ]

  if_After :
      (b : Bool) (s : Server S) (x y : Turn × Server S)
      → After s x
      → After s y
      → After s (if b then x else y)
  if_After true s x y h k = h
  if_After false s x y h k = k

  unchanged : (s : Server S) → IsSettled s → After s (goes_on, s)
  unchanged s h = (h, λ fd. inl refl)

  read_failed_After :
      (p : Poll) (x : Exn) (s : Server S) → IsSettled s → After s (read_failed p x s)
  unfolding read_failed
  read_failed_After p (os_error n) s h =
      if_After (n == 0x3E8) s (drop_client p s) (goes_on, s) (drop_client_After p s h)
        (unchanged s h)
  read_failed_After p _ s h = (tt, λ fd. inl refl)

  after_read_After :
      (p : Poll) (c : Conn) (s : Server S) (r : Result (ℕ × Fields))
      → IsSettled s
      → After s (after_read p c s r)
  unfolding after_read
  after_read_After p c s (ok (n, d)) h = (h, λ fd. inl refl)
  after_read_After p c s (err x) h = read_failed_After p x s h

  read_After :
      (net : Net) (p : Poll) (c : Conn) (s : Server S) → IsSettled s → After s (read net p c s)
  unfolding read
  read_After net p c s h = after_read_After p c s (Message.recv net.loads end p.stream).0 h

  poll_client_After :
      (net : Net) (p : Poll) (c : Conn) (s : Server S)
      → IsSettled s
      → After s (poll_client net p c s)
  unfolding poll_client
  poll_client_After net p c s h =
      if_After p.readable s (read net p c s)
        (if p.hup || p.error then drop_client p s else (goes_on, s)) (read_After net p c s h)
        (if_After (p.hup || p.error) s (drop_client p s) (goes_on, s) (drop_client_After p s h)
          (unchanged s h))

  poll_of_After :
      (net : Net) (p : Poll) (o : Option Conn) (s : Server S)
      → IsSettled s
      → After s (poll_of net p o s)
  unfolding poll_of
  poll_of_After net p none s h = unchanged s h
  poll_of_After net p (some c) s h = poll_client_After net p c s h

  poll_After : (net : Net) (p : Poll) (s : Server S) → IsSettled s → After s (poll net p s)
  unfolding poll
  poll_After net p s h =
      if_After (Message.same_id s.socket (some p.file)) s (poll_self p s)
        (poll_of net p (lookup p.file s.clients) s) (poll_self_After p s h)
        (poll_of_After net p (lookup p.file s.clients) s h)

  unless_broken_After :
      (rest : Server S → Turn × Server S) (s : Server S) (r : Turn × Server S)
      → ((t : Server S) → IsSettled t → After t (rest t))
      → After s r
      → After s (unless_broken rest r)
  unless_broken_After rest s (goes_on, t) f (k, w) =
      let (k', w') = f t k in
      (
        k',
        λ fd.
            Kept-trans (view s.clients fd) (view t.clients fd) (view (rest t).1.clients fd) (w fd)
              (w' fd),
      )
  unless_broken_After rest s (breaks, t) f a = a
  unless_broken_After rest s (raises, t) f a = a

  batch_After : (net : Net) (ps : List Poll) (s : Server S) → IsSettled s → After s (batch net ps s)
  unfolding batch
  batch_After net [] s h = unchanged s h
  batch_After net (p ∷ ps) s h =
      unless_broken_After (batch net ps) s (poll net p s) (batch_After net ps)
        (poll_After net p s h)

  -- A step of the loop leaves the server sound, and writes to nobody who stays.
  abbrev pub Turns : Server S → Server S → Type 0
  Turns s t = IsSettled t × ((fd : ℕ) → Kept (view s.clients fd) (view t.clients fd))

  halt-Turns : (net : Net) (h : Halt) (s t : Server S) → Turns s (halt net h t)
  unfolding halt Idle view
  halt-Turns net h s t = ((tt, tt, λ fd. refl), λ fd. inr (inl refl))

  if_Turns : (b : Bool) (s x y : Server S) → Turns s x → Turns s y → Turns s (if b then x else y)
  if_Turns true s x y h k = h
  if_Turns false s x y h k = k

  finish-Turns :
      (net : Net) (h : Halt) (s : Server S) (r : Turn × Server S)
      → After s r
      → Turns s (finish net h r)
  unfolding finish
  finish-Turns net h s (raises, t) a = halt-Turns net h s t
  finish-Turns net h s (goes_on, t) a =
      if_Turns t.running s (halt net h t) t (halt-Turns net h s t) a
  finish-Turns net h s (breaks, t) a =
      if_Turns t.running s (halt net h t) t (halt-Turns net h s t) a

  pub serve-Turns :
      (net : Net) (h : Halt) (ps : List Poll) (s : Server S)
      → IsSettled s
      → Turns s (serve net h ps s)
  unfolding serve
  serve-Turns net h ps s k =
      if_Turns s.complete s s (if s.running then halt net h s else finish net h (batch net ps s))
        (k, λ fd. inl refl)
        (if_Turns s.running s (halt net h s) (finish net h (batch net ps s)) (halt-Turns net h s s)
          (finish-Turns net h s (batch net ps s) (batch_After net ps s k)))
