-- ===== src/Server/Life.antt =====
-- usr/lib/smd/lib/server.py: `start`, its loop and `_stop`, as a sequence of steps. The threads take turns: a turn of
-- the loop, of the dispatcher, or a call that a module makes.
use spaceport.Base.{
  ℕ, Bool, true, false, not, ◌&&◌, Option, none, some, List, [], ◌∷◌, if◌then◌else◌,
}
use spaceport.Value.{Value, end}
use spaceport.Message
use spaceport.Message.{Message}
use spaceport.Constants.{hook_shutdown}
use spaceport.Dispatcher.{forward}
use spaceport.Server.Defs.{
  Net, Server, Poll, Turn, goes_on, breaks, raises, send, send_one, notify, poll, dispatch,
}

-- Whether the server's socket can be closed, and its path removed.
pub record Halt : Type 0 where
  pub closes : Bool
  pub removes : Bool

-- What `start` finds: a path that is in the way, and which of its calls work; the descriptor of the socket, where one
-- was made, and whether its path was made.
pub record Setup : Type 0 where
  pub exists : Bool
  pub removes : Bool
  pub has_directory : Bool
  pub has_group : Bool
  pub listens : Bool
  pub descriptor : Option ℕ
  pub bound : Bool

-- `start` has ended with `_stop`, or waits in `stop` for an end that does not come, or serves.
pub data Started : Type 0 where
  ended waits serves : Started

-- A step of the daemon, and how it would halt in a turn of the loop.
pub data Step : Type 0 where
  polled : Halt → List Poll → Step
  dispatched : Step
  sent : Option ℕ → List Message → Step
  forwarded : Message → Step
  notified : Value → Value → Value → Step

module _ {ℓ} {S : Type ℓ} where
  -- `stop()`, whose wait for `_complete` changes nothing
  unfoldable pub stop : Server S → Server S
  stop s = record s { running = true }

  -- `_stop()`: what the dispatcher's own `stop` waits for is not part of this step.
  unfoldable pub halt : Net → Halt → Server S → Server S
  halt net h s =
      let s1 = send_one net none true (Message.new hook_shutdown end) s in
      record s1 {
        dispatcher = record s1.dispatcher { stopping = true };
        running = true;
        clients = [];
        polled = [];
        socket = if h.closes then none else s1.socket;
        bound = s1.bound && not h.removes;
        complete = true;
      }

  -- `start()` up to its loop.
  unfoldable pub start : Net → Halt → Setup → Server S → Started × Server S
  start net h u s =
      if u.exists && not u.removes
      then (ended, halt net h (record s { bound = true }))
      else let s1 = record s { bound = false } in
        if not u.has_directory
        then (ended, halt net h s1)
        else if not u.has_group
        then (ended, halt net h s1)
        else let s2 = record s1 { socket = u.descriptor; bound = u.bound } in
          if u.listens then (serves, s2) else (waits, stop s2)

  -- `if not self._poll(p, f, e): break`, where the rest of the loop follows
  abbrev pub unless_broken : (Server S → Turn × Server S) → Turn × Server S → Turn × Server S
  unless_broken rest (goes_on, s) = rest s
  unless_broken rest (breaks, s) = (goes_on, s)
  unless_broken rest (raises, s) = (raises, s)

  -- `for f, e in p.poll(None)`
  unfoldable pub batch : Net → List Poll → Server S → Turn × Server S
  batch net [] s = (goes_on, s)
  batch net (p ∷ ps) s = unless_broken (batch net ps) (poll net p s)

  -- The end of the loop: after an exception, or once the server is to stop.
  unfoldable pub finish : Net → Halt → Turn × Server S → Server S
  finish net h (raises, s) = halt net h s
  finish net h (_, s) = if s.running then halt net h s else s

  -- A turn of `while not self._running.is_set()`; a server that has stopped makes none.
  unfoldable pub serve : Net → Halt → List Poll → Server S → Server S
  serve net h ps s =
      if s.complete then s else if s.running then halt net h s else finish net h (batch net ps s)

  unfoldable pub step : Net → Step → Server S → Server S
  step net (polled h ps) s = serve net h ps s
  step net dispatched s = dispatch net s
  step net (sent eid ms) s = send net eid ms s
  step net (forwarded m) s = record s {
    dispatcher = forward (some s.pid) (some s.uid) m s.dispatcher;
  }
  step net (notified title message icon) s = notify net title message icon s

  unfoldable pub run : Net → List Step → Server S → Server S
  run net [] s = s
  run net (x ∷ xs) s = run net xs (step net x s)
