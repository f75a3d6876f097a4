-- ===== src/Hook/Replies.antt =====
-- usr/lib/smd/lib/structs/hook.py: the answers of the hooks of a list, and hooks that raise.
use spaceport.Base.{
  ℕ, ◌≡◌, refl, String, true, false, none, some, List, [], ◌∷◌, ◌++◌, All, inl, inr, Bool-cases,
  append-nil, append_assoc, if◌then◌else◌,
}
use spaceport.Message.{Message}
use spaceport.Hook.{
  Hook, Outcome, returned, raised, as_exception, answers, collect, takes_message, takes_queue, exec,
  run, run_from, run_all,
}

-- The messages that a call adds.
abbrev added : ℕ → Outcome → List Message
added header (returned r) = answers header r
added header (raised error trace) = as_exception header error trace ∷ []

collect-append :
    (header : ℕ) (o : Outcome) (q : List Message) → collect header o q ≡ q ++ added header o
unfolding collect
collect-append header (returned r) q = refl
collect-append header (raised error trace) q = refl

module _ {ℓ} {S : Type ℓ} where
  -- The call of a hook that does not take the queue.
  abbrev called : Hook S → Message → S → Outcome × (List Message × S)
  called h m s = h.call (if takes_message h.args then some m else none) [] s

  run-plain :
      (h : Hook S) (m : Message) (q : List Message) (s : S)
      → takes_queue h.args ≡ false
      → h.callable ≡ true
      → run h m q s ≡ (q ++ added m.header (called h m s).0, (called h m s).1.1)
  unfolding run exec
  run-plain h m q s p c = simp (c, p, collect-append)

  run-uncallable :
      (h : Hook S) (m : Message) (q : List Message) (s : S)
      → h.callable ≡ false
      → run h m q s ≡ (q, s)
  unfolding run
  run-uncallable h m q s c = simp c

  -- A hook adds to the queue what it would put into an empty one.
  run-append :
      (h : Hook S) (m : Message) (q : List Message) (s : S)
      → takes_queue h.args ≡ false
      → run h m q s ≡ (q ++ (run h m [] s).0, (run h m [] s).1)
  run-append h m q s p = elim (Bool-cases h.callable) [
    | inl c ↦ rw (run-plain h m q s p c, run-plain h m [] s p c) refl
    | inr c ↦ rw (run-uncallable h m q s c, run-uncallable h m [] s c, append-nil q) refl
  ]

  -- The hooks of a list that do not take the queue add to it what they would answer by themselves, in the
  -- order of the list, whatever is in the queue; and the state of the modules does not depend on it.
  run_from-append :
      (hs : List (Hook S)) (m : Message) (q : List Message) (s : S)
      → All (λ h. takes_queue h.args ≡ false) hs
      → run_from hs m q s ≡ (q ++ (run_all hs m s).0, (run_all hs m s).1)
  unfolding run_from run_all
  run_from-append [] m q s p = rw (append-nil q) refl
  run_from-append (h ∷ hs) m q s (p, ps) = rw (run-append h m q s p) (
      rw
        (
          run_from-append hs m (q ++ (run h m [] s).0) (run h m [] s).1 ps,
          run_from-append hs m (run h m [] s).0 (run h m [] s).1 ps,
        )
        (rw (append_assoc q (run h m [] s).0 (run_from hs m [] (run h m [] s).1).0) refl))

  -- In a list of which no hook takes the queue, a first hook that can be called and raises answers with one error
  -- message, which bears the header of the request, and the hooks after it answer as if it had not been there, from the
  -- state that it leaves.
  pub run_all-raised :
      (h : Hook S) (hs : List (Hook S)) (m : Message) (s s' : S) (error trace : String)
      (q : List Message)
      → h.callable ≡ true
      → All (λ k. takes_queue k.args ≡ false) (h ∷ hs)
      → h.call (if takes_message h.args then some m else none) [] s ≡ (raised error trace, (q, s'))
      → run_all (h ∷ hs) m s
        ≡ (as_exception m.header error trace ∷ (run_all hs m s').0, (run_all hs m s').1)
  unfolding run_all run_from
  run_all-raised h hs m s s' error trace q c (p, ps) e =
      rw (run-plain h m [] s p c, e)
        (run_from-append hs m (as_exception m.header error trace ∷ []) s' ps)
