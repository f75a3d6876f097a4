-- ===== src/LockerServer/Sync.antt =====
-- usr/lib/smd/lib/modules/locker.py: what the table of lockers, the backoff and the scheduler's queue
-- have to do with one another.
use spaceport.Base.{
  ℕ, ◌+◌, ◌≤◌, ◌≡◌, ◌≢◌, String, Option, none, some, List, [], ◌∷◌, ◌++◌, arith, inl, inr,
  Option-cases, eq_iff,
}
use spaceport.Base.Dict.{
  Dict, lookup, insert, erase, lookup-insert, lookup-erase, Distinct, insert-Distinct,
  erase-Distinct,
}
use spaceport.Host.{Task, locker_close, backoff_clear, remove_task}
use spaceport.Host.Queue.{
  job_of, Unique, job_of-remove_task, job_of-append, job_of-append_old, remove_task-Unique,
  append-Unique,
}
use spaceport.Ability.{Locker}

-- The event of a locker in the table.
abbrev pub event_of : String → Dict Locker → Option ℕ
event_of k ls = elim (lookup k ls) [ none ↦ none | some l ↦ l.event ]

-- Each locker is under its name. A timed locker has its own task in the queue and each such task has
-- its locker; the backoff and its task likewise; events are not used twice.
pub record Sync (ls : Dict Locker) (b : Option ℕ) (n : ℕ) (q : List Task) : Type 0 where
  pub distinct : Distinct ls
  pub named : (k : String) (l : Locker) → lookup k ls ≡ some l → l.name ≡ k
  pub owned : (i : ℕ) (k : String) → job_of i q ≡ some (locker_close k) → event_of k ls ≡ some i
  pub armed : (i : ℕ) (k : String) → event_of k ls ≡ some i → job_of i q ≡ some (locker_close k)
  pub waiting : (i : ℕ) → job_of i q ≡ some backoff_clear → b ≡ some i
  pub ending : (i : ℕ) → b ≡ some i → job_of i q ≡ some backoff_clear
  pub fresh : (i : ℕ) → n ≤ i → job_of i q ≡ none
  pub unique : Unique q

-- `cancel_task` on the queue alone.
abbrev pub cancel : Option ℕ → List Task → List Task
cancel none q = q
cancel (some i) q = remove_task i q

module _ (ls : Dict Locker) (b : Option ℕ) (n : ℕ) (q : List Task) (s : Sync ls b n q) where
  -- A locker that leaves the table with its event cancelled, or with its event as the one that fired.
  pub Sync-erase :
      (k : String) (e : Option ℕ) → event_of k ls ≡ e → Sync (erase k ls) b n (cancel e q)
  Sync-erase k none h = record {
    distinct = erase-Distinct k ls s.distinct;
    named = λ j l p. ground (arith, lookup-erase k j ls, s.named j l);
    owned = λ i j p. ground (arith, lookup-erase k j ls, s.owned i j, eq_iff k j);
    armed = λ i j p. ground (arith, lookup-erase k j ls, s.armed i j);
    waiting = s.waiting;
    ending = s.ending;
    fresh = s.fresh;
    unique = s.unique;
  }
  Sync-erase k (some e) h = record {
    distinct = erase-Distinct k ls s.distinct;
    named = λ j l p. ground (arith, lookup-erase k j ls, s.named j l);
    owned = λ i j p.
        ground (arith, lookup-erase k j ls, s.owned i j, eq_iff k j, job_of-remove_task e i q);
    armed = λ i j p. ground (
      arith,
      lookup-erase k j ls,
      s.armed i j,
      s.armed e k,
      eq_iff k j,
      job_of-remove_task e i q,
    );
    waiting = λ i p. ground (arith, s.waiting i, job_of-remove_task e i q);
    ending = λ i p. ground (arith, s.ending i, s.armed e k, job_of-remove_task e i q);
    fresh = λ i p. ground (arith, s.fresh i, job_of-remove_task e i q);
    unique = remove_task-Unique e q s.unique;
  }

  -- A locker with no event of its own takes a free place.
  pub Sync-insert :
      (k : String) (expire : Option ℕ)
      → event_of k ls ≡ none
      → Sync (insert k (record { name = k; event = none; expire = expire }) ls) b n q
  Sync-insert k expire h =
      let l : Locker = record { name = k; event = none; expire = expire } in
      record {
        distinct = insert-Distinct k l ls s.distinct;
        named = λ j m p. ground (arith, lookup-insert k j l ls, s.named j m, eq_iff k j);
        owned = λ i j p. ground (arith, lookup-insert k j l ls, s.owned i j, eq_iff k j);
        armed = λ i j p. ground (arith, lookup-insert k j l ls, s.armed i j);
        waiting = s.waiting;
        ending = s.ending;
        fresh = s.fresh;
        unique = s.unique;
      }

  -- A timed locker comes with its task.
  pub Sync-insert_timed :
      (k : String) (expire : Option ℕ) (time priority : ℕ)
      → event_of k ls ≡ none
      → Sync
          (insert k (record { name = k; event = some n; expire = expire }) ls)
          b
          (n + 1)
          (q ++ record { id = n; time = time; priority = priority; job = locker_close k } ∷ [])
  Sync-insert_timed k expire time priority h =
      let l : Locker = record { name = k; event = some n; expire = expire } in
      let t : Task = record { id = n; time = time; priority = priority; job = locker_close k } in
      record {
        distinct = insert-Distinct k l ls s.distinct;
        named = λ j m p. ground (arith, lookup-insert k j l ls, s.named j m, eq_iff k j);
        owned = λ i j p. elim (Option-cases (job_of i q)) [
          | inl e ↦ ground (arith, lookup-insert k j l ls, eq_iff k j, job_of-append i q t)
          | inr (a, e) ↦
              ground
                (arith, lookup-insert k j l ls, s.owned i j, eq_iff k j, job_of-append_old i q t a)
        ];
        armed = λ i j p. ground (
          arith,
          lookup-insert k j l ls,
          eq_iff k j,
          s.armed i j,
          s.fresh n,
          job_of-append n q t,
          job_of-append_old i q t (locker_close j),
        );
        waiting = λ i p. elim (Option-cases (job_of i q)) [
          | inl e ↦ ground (arith, job_of-append i q t)
          | inr (a, e) ↦ ground (arith, s.waiting i, job_of-append_old i q t a)
        ];
        ending = λ i p. job_of-append_old i q t backoff_clear (s.ending i p);
        fresh = λ i p. ground (arith, s.fresh i, job_of-append i q t);
        unique = append-Unique q t (s.fresh n (omega arith)) s.unique;
      }

  -- The backoff starts where there is none.
  pub Sync-backoff :
      (time priority : ℕ)
      → b ≡ none
      → Sync ls
          (some n)
          (n + 1)
          (q ++ record { id = n; time = time; priority = priority; job = backoff_clear } ∷ [])
  Sync-backoff time priority h =
      let t : Task = record { id = n; time = time; priority = priority; job = backoff_clear } in
      record {
        distinct = s.distinct;
        named = s.named;
        owned = λ i j p. elim (Option-cases (job_of i q)) [
          | inl e ↦ ground (arith, job_of-append i q t)
          | inr (a, e) ↦ ground (arith, s.owned i j, job_of-append_old i q t a)
        ];
        armed = λ i j p. job_of-append_old i q t (locker_close j) (s.armed i j p);
        waiting = λ i p. elim (Option-cases (job_of i q)) [
          | inl e ↦ ground (arith, job_of-append i q t)
          | inr (a, e) ↦ ground (arith, s.waiting i, job_of-append_old i q t a)
        ];
        ending = λ i p. ground (arith, s.fresh n, job_of-append n q t);
        fresh = λ i p. ground (arith, s.fresh i, job_of-append i q t);
        unique = append-Unique q t (s.fresh n (omega arith)) s.unique;
      }

  -- The backoff ends, with its event cancelled, or with its event as the one that fired.
  pub Sync-no_backoff : (e : Option ℕ) → b ≡ e → Sync ls none n (cancel e q)
  Sync-no_backoff none h = record {
    distinct = s.distinct;
    named = s.named;
    owned = s.owned;
    armed = s.armed;
    waiting = λ i p. ground (arith, s.waiting i);
    ending = λ i p. cc;
    fresh = s.fresh;
    unique = s.unique;
  }
  Sync-no_backoff (some e) h = record {
    distinct = s.distinct;
    named = s.named;
    owned = λ i j p. ground (arith, s.owned i j, job_of-remove_task e i q);
    armed = λ i j p. ground (arith, s.armed i j, s.ending e, job_of-remove_task e i q);
    waiting = λ i p. ground (arith, s.waiting i, job_of-remove_task e i q);
    ending = λ i p. cc;
    fresh = λ i p. ground (arith, s.fresh i, job_of-remove_task e i q);
    unique = remove_task-Unique e q s.unique;
  }

  -- A task of another kind leaves the queue.
  pub Sync-other :
      (e : ℕ)
      → ((k : String) → job_of e q ≢ some (locker_close k))
      → job_of e q ≢ some backoff_clear
      → Sync ls b n (remove_task e q)
  Sync-other e nk nb = record {
    distinct = s.distinct;
    named = s.named;
    owned = λ i j p. ground (arith, s.owned i j, job_of-remove_task e i q);
    armed = λ i j p. ground (arith, s.armed i j, nk j, job_of-remove_task e i q);
    waiting = λ i p. ground (arith, s.waiting i, job_of-remove_task e i q);
    ending = λ i p. ground (arith, s.ending i, job_of-remove_task e i q);
    fresh = λ i p. ground (arith, s.fresh i, job_of-remove_task e i q);
    unique = remove_task-Unique e q s.unique;
  }
