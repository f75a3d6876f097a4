-- ===== src/Tests/Hooks.antt =====
-- The theorems on hooks, at concrete inputs.
use spaceport.Base.{
  ℕ, suc, ◌≡◌, refl, true, false, some, none, [], ◌∷◌, reverse, ◌==◌, if◌then◌else◌,
}
use spaceport.Value.{end}
use spaceport.Constants.{hook_lock}
use spaceport.Message.{Message}
use spaceport.Hook.{Hook, Outcome, Returned, Item, as_exception, takes_queue, run_all}
use spaceport.Dispatcher.{Dispatcher, drain}
use spaceport.Dispatcher.Order.{process_each, drain-reverse}
use spaceport.Hook.Replies.{run_all-raised}

-- A hook that counts its calls and answers with the count, and one that counts and raises. Both take
-- the service and the message.
abbrev counts : Hook ℕ
counts = record {
  callable = true;
  args = 3;
  call = λ m q n. (Outcome.returned (Returned.one (Item.code n)), (q, suc n));
}

abbrev fails : Hook ℕ
fails = record {
  callable = true;
  args = 3;
  call = λ m q n. (Outcome.raised "no lid" "", (q, suc n));
}

abbrev request : Message
request = record {
  header = hook_lock;
  payload = end;
  pid = none;
  uid = some 0;
  forwarded = false;
  is_multicast = false;
}

run_all-raised_example : run_all (fails ∷ counts ∷ []) request 200 ≡ (
  as_exception hook_lock "no lid" "" ∷ (run_all (counts ∷ []) request 201).0,
  (run_all (counts ∷ []) request 201).1,
)
unfolding takes_queue
run_all-raised_example =
    run_all-raised fails (counts ∷ []) request 200 201 "no lid" "" [] refl (refl, (refl, tt)) refl

-- A daemon whose only hook counts, and to which the same request came twice.
abbrev daemon : Dispatcher ℕ
daemon = record {
  stopping = false;
  messages =
      record { eid = some 1; message = request } ∷ record { eid = some 2; message = request } ∷ [];
  hooks = λ h. if h == hook_lock then some (counts ∷ []) else none;
  is_server = true;
  log_level = none;
  loads = 0;
  sent = [];
  modules = 200;
}

drain-reverse_example : drain 2 daemon ≡ process_each (reverse daemon.messages) daemon
drain-reverse_example = drain-reverse daemon
