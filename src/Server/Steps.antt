-- ===== src/Server/Steps.antt =====
-- usr/lib/smd/lib/server.py: what each step of the daemon does to its clients.
use spaceport.Base.{ℕ, ◌≡◌, refl, none, List, [], ◌∷◌}
use spaceport.Value.{Value, end, field}
use spaceport.Message
use spaceport.Message.{Message, Stream}
use spaceport.Constants.{hook_notification}
use spaceport.Dispatcher.{Sent, DispatchMessage, Dispatcher, pop, process}
use spaceport.Server.Defs.{
  Net, Server, send, send_one, send_each, enqueue, queue_for_all, notify, dispatch, dispatch_from,
}
use spaceport.Server.Office.{
  view, mail, mail_all, IsSettled, send-IsSettled, view-send, deliver_all-IsSettled,
  view-deliver_all,
}
use spaceport.Server.Turns.{Kept, serve-Turns}
use spaceport.Server.Visits.{office_turn, view-serve}
use spaceport.Server.Life.{Step, polled, dispatched, sent, forwarded, notified, step, run}

-- The message of `notify`
abbrev pub notification : Value → Value → Value → Message
notification title message icon =
    Message.new hook_notification
      (field "icon" icon (field "title" title (field "body" message end)))

module _ {ℓ} {S : Type ℓ} where
  -- What the hooks answer to the message that the dispatcher takes next.
  abbrev pub replies_from : List DispatchMessage → Server S → List Sent
  replies_from [] s = []
  replies_from (x ∷ xs) s =
      (process (pop x xs).0 (record s.dispatcher { messages = (pop x xs).1; sent = [] })).sent

  unfoldable pub replies : Server S → List Sent
  replies s = replies_from s.dispatcher.messages s

  -- What a step is to do to what was written to the clients.
  abbrev pub Refines : Net → Step → Server S → Server S → Type 0
  Refines net (polled h ps) s t =
      (view t.clients ≡ office_turn net ps s)
      × ((fd : ℕ) → Kept (view s.clients fd) (view t.clients fd))
  Refines net dispatched s t = view t.clients ≡ mail_all net s.pid (replies s) (view s.clients)
  Refines net (sent eid ms) s t = view t.clients ≡ mail net s.pid eid ms (view s.clients)
  Refines net (forwarded m) s t = view t.clients ≡ view s.clients
  Refines net (notified title message icon) s t =
      view t.clients ≡ mail net s.pid none (notification title message icon ∷ []) (view s.clients)

  dispatch_from_Refines :
      (net : Net) (xs : List DispatchMessage) (s : Server S)
      → IsSettled s
      → IsSettled (dispatch_from net xs s)
        × (view (dispatch_from net xs s).clients
            ≡ mail_all net s.pid (replies_from xs s) (view s.clients))
  unfolding dispatch_from mail_all
  dispatch_from_Refines net [] s h = (h, refl)
  dispatch_from_Refines net (x ∷ xs) s h =
      let d : Dispatcher S =
        process (pop x xs).0 (record s.dispatcher { messages = (pop x xs).1; sent = [] }) in
      let s' : Server S = record s { dispatcher = record d { sent = [] } } in
      (deliver_all-IsSettled net d.sent s' h, view-deliver_all net d.sent s' h)

  notify-send :
      (net : Net) (title message icon : Value) (s : Server S)
      → notify net title message icon s ≡ send net none (notification title message icon ∷ []) s
  unfolding notify send send_one send_each enqueue queue_for_all
  notify-send net title message icon s = refl

  step_both :
      (net : Net) (x : Step) (s : Server S)
      → IsSettled s
      → IsSettled (step net x s) × Refines net x s (step net x s)
  unfolding step dispatch replies
  step_both net (polled h ps) s k =
      let (settled, kept) = serve-Turns net h ps s k in (settled, (view-serve net h ps s, kept))
  step_both net dispatched s k = dispatch_from_Refines net s.dispatcher.messages s k
  step_both net (sent eid ms) s k = (send-IsSettled net eid ms s k, view-send net eid ms s k)
  step_both net (forwarded m) s k = (k, refl)
  step_both net (notified title message icon) s k =
      let ms : List Message = notification title message icon ∷ [] in
      rw (notify-send net title message icon s)
        (send-IsSettled net none ms s k, view-send net none ms s k)

  -- Each step, from a settled server, does to what was written to the clients what the post office does: a message
  -- that is sent reaches each client that it is meant for, after those that stand behind it in its list, and no other
  -- client; and what the hooks answer goes out in the order in which they were called. A turn of the loop goes through
  -- what it is told in order: a client whose socket is at its end when it is read, or has hung up or failed with nothing
  -- to read, leaves, a new one is welcomed with nothing written to it, and once a call raises, the server's own socket
  -- hangs up or the server is to stop, nobody is left; nothing is written to those that stay. A server that has
  -- stopped makes no turn.
  pub step-Refines :
      (net : Net) (x : Step) (s : Server S) → IsSettled s → Refines net x s (step net x s)
  step-Refines net x s k = (step_both net x s k).1

  -- Whatever happens to a settled server, it stays settled: no message waits for a client once a step is over, each
  -- descriptor is one client's, and the loop asks about just the descriptors of the clients.
  pub run-IsSettled :
      (net : Net) (xs : List Step) (s : Server S) → IsSettled s → IsSettled (run net xs s)
  unfolding run
  run-IsSettled net [] s k = k
  run-IsSettled net (x ∷ xs) s k = run-IsSettled net xs (step net x s) (step_both net x s k).0
