-- ===== src/Dispatcher/Order.antt =====
-- usr/lib/smd/lib/structs/dispatcher.py: the order in which `Dispatcher` takes its messages.
use spaceport.Base.{
  ℕ, zero, suc, ◌+◌, ◌≡◌, refl, sym, ap, ◌∙◌, not, ◌&&◌, Option, List, [], ◌∷◌, ◌++◌, length,
  reverse, ◌==◌, arith, inl, inr, Bool-cases, Option-cases,
}
use mathlib.Core.List.{reverse-append}
use spaceport.Message.{Message}
use spaceport.Constants.{hook_log, hook_reload}
use spaceport.Hook.{run_all}
use spaceport.Dispatcher.{
  DispatchMessage, Dispatcher, send, process_log, run_hooks, process, pop, taken, drain,
}

module _ {ℓ} {S : Type ℓ} (r : List DispatchMessage) where
  -- The dispatcher with other messages that wait
  abbrev pub with_messages : Dispatcher S → Dispatcher S
  with_messages d = record d { messages = r }

  send_with :
      (eid : Option ℕ) (ms : List Message) (d : Dispatcher S)
      → send eid ms (with_messages d) ≡ with_messages (send eid ms d)
  send_with eid [] d = refl
  send_with eid (m ∷ ms) d = refl

  run_hooks_with :
      (x : DispatchMessage) (d : Dispatcher S)
      → run_hooks x (with_messages d) ≡ with_messages (run_hooks x d)
  unfolding run_hooks
  run_hooks_with x d = elim (Option-cases (d.hooks x.message.header)) [
    | inl e ↦ rw (e, run_hooks) refl
    | inr (hs, e) ↦
        rw (e, run_hooks)
          (send_with x.eid (run_all hs x.message d.modules).0
            (record d { modules = (run_all hs x.message d.modules).1 }))
  ]

  process_log_with :
      (m : Message) (d : Dispatcher S)
      → process_log m (with_messages d) ≡ with_messages (process_log m d)
  unfolding process_log
  process_log_with m d = elim (Bool-cases (d.is_server && not m.is_multicast)) [
    | inl e ↦ rw e refl
    | inr e ↦ rw e refl
  ]

  process_with :
      (x : DispatchMessage) (d : Dispatcher S)
      → process x (with_messages d) ≡ with_messages (process x d)
  unfolding process
  process_with x d = elim (Bool-cases (x.message.header == hook_log)) [
    | inl e ↦ rw e (process_log_with x.message d)
    | inr e ↦ elim (Bool-cases (x.message.header == hook_reload)) [
      | inl e' ↦ rw (e, e') (run_hooks_with x (record d { loads = d.loads + 1 }))
      | inr e' ↦ rw (e, e') (run_hooks_with x d)
    ]
  ]

module _ {ℓ} {S : Type ℓ} where
  -- The messages of a list are processed from its first to its last, and none waits afterwards.
  unfoldable pub process_each : List DispatchMessage → Dispatcher S → Dispatcher S
  process_each [] d = with_messages [] d
  process_each (x ∷ xs) d = process_each xs (process x d)

  process_each_with :
      (xs r : List DispatchMessage) (d : Dispatcher S)
      → process_each xs (with_messages r d) ≡ process_each xs d
  unfolding process_each
  process_each_with [] r d = refl
  process_each_with (x ∷ xs) r d =
      ap (process_each xs) (process_with r x d) ∙ process_each_with xs r (process x d)

  pub process-messages :
      (x : DispatchMessage) (d : Dispatcher S) → (process x d).messages ≡ d.messages
  process-messages x d = ap (λ (k : Dispatcher S). k.messages) (process_with d.messages x d)

pub pop_lem :
    (x : DispatchMessage) (xs : List DispatchMessage) → (pop x xs).1 ++ (pop x xs).0 ∷ [] ≡ x ∷ xs
unfolding pop
pop_lem x [] = refl
pop_lem x (y ∷ ys) = ap (λ (l : List DispatchMessage). x ∷ l) (pop_lem y ys)

length-pop : (x : DispatchMessage) (xs : List DispatchMessage) → length (pop x xs).1 ≡ length xs
unfolding pop
length-pop x [] = refl
length-pop x (y ∷ ys) = rw (length-pop y ys) refl

reverse-pop :
    (x : DispatchMessage) (xs : List DispatchMessage)
    → (pop x xs).0 ∷ reverse (pop x xs).1 ≡ reverse (x ∷ xs)
reverse-pop x xs = sym (reverse-append (pop x xs).1 ((pop x xs).0 ∷ [])) ∙ ap reverse (pop_lem x xs)

pred : (n m : ℕ) → suc m ≡ suc n → m ≡ n
pred n m h = omega arith

module _ {ℓ} {S : Type ℓ} where
  drain_each :
      (n : ℕ) (ms : List DispatchMessage) (d : Dispatcher S)
      → d.messages ≡ ms
      → length ms ≡ n
      → drain n d ≡ process_each (reverse ms) d
  unfolding drain process_each
  drain_each zero [] d e h = ap (λ (l : List DispatchMessage). with_messages l d) e
  drain_each zero (x ∷ xs) d e h = absurd (omega arith)
  drain_each (suc n) [] d e h = absurd (omega arith)
  drain_each (suc n) (x ∷ xs) d e h =
      ap (λ (l : List DispatchMessage). taken (drain n) l d) e
      ∙ drain_each n (pop x xs).1 (process (pop x xs).0 (with_messages (pop x xs).1 d))
          (process-messages (pop x xs).0 (with_messages (pop x xs).1 d))
          (length-pop x xs ∙ pred n (length xs) h)
      ∙ ap (process_each (reverse (pop x xs).1)) (process_with (pop x xs).1 (pop x xs).0 d)
      ∙ process_each_with (reverse (pop x xs).1) (pop x xs).1 (process (pop x xs).0 d)
      ∙ ap (λ (l : List DispatchMessage). process_each l d) (reverse-pop x xs)

  -- The thread takes the messages that wait from the end: as many turns as there are messages, with none that
  -- arrives meanwhile, process all of them, the one that came last first, and none waits afterwards.
  pub drain-reverse :
      (d : Dispatcher S) → drain (length d.messages) d ≡ process_each (reverse d.messages) d
  drain-reverse d = drain_each (length d.messages) d.messages d refl refl
