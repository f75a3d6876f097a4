-- ===== src/Server/Sources.antt =====
-- usr/lib/smd/lib/server.py, usr/lib/smd/lib/structs/message.py and usr/lib/smd/lib/modules/locker.py: what the server knows of where
-- a message came from, and what the lockers do with it.
use spaceport.Base.{
  ℕ, ◌≡◌, refl, sym, ap, ◌∙◌, Bool, true, false, ◌&&◌, ◌||◌, inl, inr, Option, none, some, List, [],
  ◌∷◌, ◌++◌, ◌==◌, if◌then◌else◌, is_some, All, arith, Bool-cases, Option-cases,
}
use mathlib.Core.List.{Memᴰ}
use mathlib.Core.Path.{subst}
use spaceport.Base.Table.{lookup}
use spaceport.Value.{Fields, text, Result, ok, err, Exn, os_error, end}
use spaceport.Message
use spaceport.Message.{Message, attr, is_forward}
use spaceport.Dispatcher.{DispatchMessage, Dispatcher, pop, process, add, forward}
use spaceport.Dispatcher.Order.{process-messages, pop_lem}
use spaceport.LockerServer.{LockerServer}
use spaceport.LockerServer.{action, refuse_backup}
use spaceport.LockerServer.Lockers.{backup_refused}
use spaceport.Server.Defs.{
  Net, Conn, Server, Poll, Turn, goes_on, breaks, raises, drop_client, read, read_failed,
  after_read, accept, poll_self, poll_client, poll_of, poll, send_one, enqueue, queue_for_all,
  flush, notify, dispatch, dispatch_from, received,
}
use spaceport.Server.Waiting.{
  drop_client-dispatcher, send_one-dispatcher, send-dispatcher, deliver_all-dispatcher,
}
use spaceport.Server.Steps.{notification}
use spaceport.Server.Life.{
  Halt, Step, polled, dispatched, sent, forwarded, notified, halt, unless_broken, batch, finish,
  serve, step, run,
}

-- A message that came over a connection is not marked as the daemon's own.
abbrev pub Honest : DispatchMessage → Type 0
Honest x = (is_some x.eid && x.message.forwarded) ≡ false

All-append {ℓ κ} :
    {A : Type ℓ} (P : A → Type κ) (xs ys : List A) → All P xs → All P ys → All P (xs ++ ys)
All-append P [] ys h k = k
All-append P (x ∷ xs) ys h k = (h.0, All-append P xs ys h.1 k)

All-left {ℓ κ} : {A : Type ℓ} (P : A → Type κ) (xs ys : List A) → All P (xs ++ ys) → All P xs
All-left P [] ys h = tt
All-left P (x ∷ xs) ys h = (h.0, All-left P xs ys h.1)

All-Mem {ℓ} :
    {A : Type ℓ} (f : A → Bool) (x : A) (xs : List A)
    → All (λ a. f a ≡ false) xs
    → Memᴰ x xs
    → f x ≡ false
All-Mem f x [] h m = elim m [ ]
All-Mem f x (y ∷ xs) h (Memᴰ.head e) = ap f e ∙ h.0
All-Mem f x (y ∷ xs) h (Memᴰ.tail m) = All-Mem f x xs h.1 m

module _ {ℓ} {S : Type ℓ} where
  -- No message that waits in the dispatcher pretends to be the daemon's own.
  abbrev pub AllHonest : Server S → Type 0
  AllHonest s = All Honest s.dispatcher.messages

  add-Honest :
      (eid : Option ℕ) (m : Message) (d : Dispatcher S)
      → (is_some eid && m.forwarded) ≡ false
      → All Honest d.messages
      → All Honest (add eid m d).messages
  unfolding add
  add-Honest eid m d h k = elim (Bool-cases d.stopping) [
    | inl e ↦ rw e k
    | inr e ↦ rw e (All-append Honest d.messages (record { eid = eid; message = m } ∷ []) k (h, tt))
  ]

  if_Honest :
      (b : Bool) (x y : Turn × Server S)
      → AllHonest x.1
      → AllHonest y.1
      → AllHonest (if b then x else y).1
  if_Honest true x y h k = h
  if_Honest false x y h k = k

  drop_client_Honest : (p : Poll) (s : Server S) → AllHonest s → AllHonest (drop_client p s).1
  drop_client_Honest p s h = rw (drop_client-dispatcher p s) h

  read_failed_Honest :
      (p : Poll) (x : Exn) (s : Server S) → AllHonest s → AllHonest (read_failed p x s).1
  unfolding read_failed
  read_failed_Honest p (os_error n) s h =
      if_Honest (n == 0x3E8) (drop_client p s) (goes_on, s) (drop_client_Honest p s h) h
  read_failed_Honest p _ s h = h

  after_read_Honest :
      (p : Poll) (c : Conn) (s : Server S) (r : Result (ℕ × Fields))
      → AllHonest s
      → AllHonest (after_read p c s r).1
  unfolding after_read received
  after_read_Honest p c s (ok (n, d)) h =
      add-Honest (some p.file) (received c n d) s.dispatcher refl h
  after_read_Honest p c s (err x) h = read_failed_Honest p x s h

  read_Honest :
      (net : Net) (p : Poll) (c : Conn) (s : Server S) → AllHonest s → AllHonest (read net p c s).1
  unfolding read
  read_Honest net p c s h = after_read_Honest p c s (Message.recv net.loads end p.stream).0 h

  poll_self_Honest : (p : Poll) (s : Server S) → AllHonest s → AllHonest (poll_self p s).1
  unfolding poll_self accept
  poll_self_Honest p s h = elim (Option-cases p.accepted) [
    | inl e ↦ rw e (if_Honest p.hup (breaks, record s { running = true }) (raises, s) h h)
    | inr ((n, (pid, uid)), e) ↦
        rw e
          (if_Honest p.hup (breaks, record s { running = true }) (goes_on, accept n pid uid s) h h)
  ]

  poll_of_Honest :
      (net : Net) (p : Poll) (o : Option Conn) (s : Server S)
      → AllHonest s
      → AllHonest (poll_of net p o s).1
  unfolding poll_of poll_client
  poll_of_Honest net p none s h = h
  poll_of_Honest net p (some c) s h =
      if_Honest p.readable (read net p c s)
        (if p.hup || p.error then drop_client p s else (goes_on, s)) (read_Honest net p c s h)
        (if_Honest (p.hup || p.error) (drop_client p s) (goes_on, s) (drop_client_Honest p s h) h)

  poll_Honest : (net : Net) (p : Poll) (s : Server S) → AllHonest s → AllHonest (poll net p s).1
  unfolding poll
  poll_Honest net p s h =
      if_Honest (Message.same_id s.socket (some p.file)) (poll_self p s)
        (poll_of net p (lookup p.file s.clients) s) (poll_self_Honest p s h)
        (poll_of_Honest net p (lookup p.file s.clients) s h)

  unless_broken_Honest :
      (rest : Server S → Turn × Server S) (r : Turn × Server S)
      → ((t : Server S) → AllHonest t → AllHonest (rest t).1)
      → AllHonest r.1
      → AllHonest (unless_broken rest r).1
  unless_broken_Honest rest (goes_on, t) f h = f t h
  unless_broken_Honest rest (breaks, t) f h = h
  unless_broken_Honest rest (raises, t) f h = h

  batch_Honest :
      (net : Net) (ps : List Poll) (s : Server S) → AllHonest s → AllHonest (batch net ps s).1
  unfolding batch
  batch_Honest net [] s h = h
  batch_Honest net (p ∷ ps) s h =
      unless_broken_Honest (batch net ps) (poll net p s) (batch_Honest net ps)
        (poll_Honest net p s h)

  halt_Honest : (net : Net) (h : Halt) (s : Server S) → AllHonest s → AllHonest (halt net h s)
  unfolding halt send_one enqueue queue_for_all flush
  halt_Honest net h s k = k

  if_serves :
      (b : Bool) (x y : Server S) → AllHonest x → AllHonest y → AllHonest (if b then x else y)
  if_serves true x y h k = h
  if_serves false x y h k = k

  finish_Honest :
      (net : Net) (h : Halt) (r : Turn × Server S) → AllHonest r.1 → AllHonest (finish net h r)
  unfolding finish
  finish_Honest net h (raises, t) k = halt_Honest net h t k
  finish_Honest net h (goes_on, t) k =
      if_serves t.running (halt net h t) t (halt_Honest net h t k) k
  finish_Honest net h (breaks, t) k = if_serves t.running (halt net h t) t (halt_Honest net h t k) k

  serve_Honest :
      (net : Net) (h : Halt) (ps : List Poll) (s : Server S)
      → AllHonest s
      → AllHonest (serve net h ps s)
  unfolding serve
  serve_Honest net h ps s k =
      if_serves s.complete s (if s.running then halt net h s else finish net h (batch net ps s)) k (
        if_serves s.running (halt net h s) (finish net h (batch net ps s)) (halt_Honest net h s k)
          (finish_Honest net h (batch net ps s) (batch_Honest net ps s k)))

  dispatch_from_Honest :
      (net : Net) (ms : List DispatchMessage) (s : Server S)
      → s.dispatcher.messages ≡ ms
      → AllHonest s
      → AllHonest (dispatch_from net ms s)
  unfolding dispatch_from
  dispatch_from_Honest net [] s e h = h
  dispatch_from_Honest net (x ∷ xs) s e h =
      let d0 : Dispatcher S = record s.dispatcher { messages = (pop x xs).1; sent = [] } in
      let d : Dispatcher S = process (pop x xs).0 d0 in
      rw
        (
          deliver_all-dispatcher net d.sent (record s { dispatcher = record d { sent = [] } }),
          process-messages (pop x xs).0 d0,
        )
        (All-left Honest (pop x xs).1 ((pop x xs).0 ∷ [])
          (subst (All Honest) (e ∙ sym (pop_lem x xs)) h))

  step_Honest : (net : Net) (x : Step) (s : Server S) → AllHonest s → AllHonest (step net x s)
  unfolding step dispatch notify forward
  step_Honest net (polled h ps) s k = serve_Honest net h ps s k
  step_Honest net dispatched s k = dispatch_from_Honest net s.dispatcher.messages s refl k
  step_Honest net (sent eid ms) s k = rw (send-dispatcher net eid ms s) k
  step_Honest net (forwarded m) s k =
      add-Honest none (Message.set_forward m (some s.pid) (some s.uid)) s.dispatcher refl k
  step_Honest net (notified title message icon) s k =
      rw (send_one-dispatcher net none true (notification title message icon) s) k

  run_Honest : (net : Net) (xs : List Step) (s : Server S) → AllHonest s → AllHonest (run net xs s)
  unfolding run
  run_Honest net [] s h = h
  run_Honest net (x ∷ xs) s h = run_Honest net xs (step net x s) (step_Honest net x s h)

not_forward :
    (eid fd : Option ℕ) (m : Message)
    → (is_some eid && m.forwarded) ≡ false
    → is_some eid ≡ true
    → is_forward m (some 0) none ≡ false
unfolding is_forward
not_forward eid fd m h e = ground arith

module _ {ℓ} {S : Type ℓ} where
  -- Whatever happens to a server in which no message waits: a message that waits in it then and came over a
  -- connection, whatever its bytes were, is refused by the lockers when it asks by its name for the Backup locker,
  -- and changes nothing there.
  pub backup_kept :
      (net : Net) (xs : List Step) (s : Server S) (x : DispatchMessage) (fd : ℕ) (ls : LockerServer)
      → s.dispatcher.messages ≡ []
      → Memᴰ x (run net xs s).dispatcher.messages
      → x.eid ≡ some fd
      → attr "name" x.message ≡ text "backup"
      → action x.message ls ≡ (ok refuse_backup, ls)
  backup_kept net xs s x fd ls e m c n =
      backup_refused x.message ls
        (not_forward x.eid none x.message
          (All-Mem (λ (a : DispatchMessage). is_some a.eid && a.message.forwarded) x
            (run net xs s).dispatcher.messages (run_Honest net xs s (rw e tt)) m)
          (rw c refl))
        n
