-- ===== src/Server/Waiting.antt =====
-- usr/lib/smd/lib/server.py: what is sent leaves the messages that wait in the dispatcher as they were.
use spaceport.Base.{
  ℕ, ◌≡◌, refl, ◌∙◌, Bool, false, inl, inr, Option, none, some, List, [], ◌∷◌, arith, Option-cases,
}
use spaceport.Base.Table.{lookup}
use spaceport.Message.{Message}
use spaceport.Dispatcher.{Sent}
use spaceport.Server.Defs.{
  Net, Server, Poll, drop_client, send, send_one, send_each, enqueue, queue_for_one, queue_for_all,
  flush, deliver_all,
}

module _ {ℓ} {S : Type ℓ} where
  pub drop_client-dispatcher :
      (p : Poll) (s : Server S) → (drop_client p s).1.dispatcher ≡ s.dispatcher
  unfolding drop_client
  drop_client-dispatcher p s = ground arith

  enqueue-dispatcher :
      (eid : Option ℕ) (m : Message) (s : Server S) → (enqueue eid m s).1.dispatcher ≡ s.dispatcher
  unfolding enqueue queue_for_all queue_for_one
  enqueue-dispatcher none m s = refl
  enqueue-dispatcher (some eid) m s = elim (Option-cases (lookup eid s.clients)) [
    | inl e ↦ ground arith
    | inr (c, e) ↦ ground arith
  ]

  pub send_one-dispatcher :
      (net : Net) (eid : Option ℕ) (b : Bool) (m : Message) (s : Server S)
      → (send_one net eid b m s).dispatcher ≡ s.dispatcher
  unfolding send_one flush
  send_one-dispatcher net eid b m s = ground (arith, enqueue-dispatcher eid m s)

  send_each-dispatcher :
      (net : Net) (eid : Option ℕ) (ms : List Message) (s : Server S)
      → (send_each net eid ms s).dispatcher ≡ s.dispatcher
  unfolding send_each
  send_each-dispatcher net eid [] s = refl
  send_each-dispatcher net eid (m ∷ ms) s =
      send_each-dispatcher net eid ms (send_one net eid false m s)
      ∙ send_one-dispatcher net eid false m s

  pub send-dispatcher :
      (net : Net) (eid : Option ℕ) (ms : List Message) (s : Server S)
      → (send net eid ms s).dispatcher ≡ s.dispatcher
  unfolding send flush
  send-dispatcher net eid [] s = refl
  send-dispatcher net eid (m ∷ ms) s = send_each-dispatcher net eid (m ∷ ms) s

  pub deliver_all-dispatcher :
      (net : Net) (xs : List Sent) (s : Server S) → (deliver_all net xs s).dispatcher ≡ s.dispatcher
  unfolding deliver_all
  deliver_all-dispatcher net [] s = refl
  deliver_all-dispatcher net (x ∷ xs) s =
      deliver_all-dispatcher net xs (send net x.eid x.messages s)
      ∙ send-dispatcher net x.eid x.messages s
