-- ===== src/Hydra/Start/Failures.antt =====
-- usr/lib/smd/lib/modules/hydra.py: what `VM._start` leaves where a part of it fails.
use spaceport.Base.{
  ℕ, ◌+◌, ◌≡◌, refl, ap, ◌∙◌, Bool, true, false, Option, none, some, List, [], ◌∷◌, ◌==◌,
  if◌then◌else◌, if_false, arith,
}
use spaceport.Base.Int.{pos, round_div}
use spaceport.Base.Table.{Table, lookup, lookup-insert}
use spaceport.Hydra.State.{
  stopped, Interface, Vm, Shared, Env, Ended, returned, error, is_running, and_then,
}
use spaceport.Hydra.Machine.{init_adapters, init_with, close_adapters}
use spaceport.Hydra.Pages.{total, pages, add_pages, more_pages}
use spaceport.Hydra.Stop.{kill}
use spaceport.Hydra.Start.{
  Setup, hydra_reserve_size, build, build_with, reserve_for, build_adapters, retry, make_adapters,
  launch, start_built, start_running, start,
}

retry_lem :
    (env : Env) (b : Bool) (xs : List Interface) (v : Vm)
    → v.adapters ≡ xs
    → retry env (init_with b xs v)
      ≡ (returned, record v { adapters = if b then v.adapters else [] })
unfolding retry init_with init_adapters close_adapters
retry_lem env true [] v h = refl
retry_lem env false [] v h = ap (λ (xs : List Interface). (returned, record v { adapters = xs })) h
retry_lem env true (x ∷ xs) v h = refl
retry_lem env false (x ∷ xs) v h = refl

-- The interfaces are made at the first try, or else the machine has none: nothing is raised either way, whatever the
-- second try would give.
pub make_adapters_lem :
    (env : Env) (v : Vm)
    → make_adapters env v
      ≡ (returned, record v { adapters = if env.links 0 then v.adapters else [] })
unfolding make_adapters init_adapters
make_adapters_lem env v = retry_lem env (env.links 0) v.adapters v refl

-- The pages that a machine gets when it is started, and those that it has
abbrev pub wanted : ℕ → ℕ
wanted n = round_div n hydra_reserve_size

abbrev pub pages_of : Option ℕ → ℕ
pages_of none = 0
pages_of (some n) = n

more_pages_lem :
    (k n : ℕ) (o : Option ℕ) (d : Table ℕ) → lookup k (more_pages k n o d) ≡ some (pages_of o + n)
more_pages_lem k n none d = ground (arith, lookup-insert k k n d)
more_pages_lem k n (some m) d = ground (arith, lookup-insert k k (m + n) d)

-- What is shared, once a machine has got pages
abbrev reserved_for : ℕ → ℕ → Shared → Shared
reserved_for k n s = record s {
  reserved = pos (total s.pages + n);
  pages = more_pages k n (lookup k s.pages) s.pages;
}

add_pages_lem :
    (k n : ℕ) (s : Shared)
    → (n == 0) ≡ false
    → add_pages true k (some n) s ≡ (returned, reserved_for k n s)
unfolding add_pages
add_pages_lem k n s z = if_false (n == 0) (returned, s) (returned, reserved_for k n s) z

module _ (env : Env) (u : Setup) (v : Vm) (s : Shared) (n : ℕ) where
  fresh : Vm
  fresh = record v { state = stopped; has_proc = false }

  build_lem :
      u.checks ≡ returned
      → u.drives ≡ returned
      → u.bios ≡ returned
      → v.memory_size ≡ some n
      → v.memory_reserve ≡ true
      → env.writes ≡ true
      → (wanted n == 0) ≡ false
      → build env u fresh s
        ≡ (returned, (build_adapters u.network fresh, reserved_for v.vmid (wanted n) s))
  unfolding build build_with reserve_for pages fresh
  build_lem c d b m r w z = rw (c, d, b, m, r, w, add_pages_lem v.vmid (wanted n) s z) refl

  -- The machine once it was not launched
  unlaunched : Vm → Vm
  unlaunched w = record w {
    adapters = if env.links 0 then w.adapters else [];
    state = stopped;
    wait = 0;
  }

  launch_lem :
      (w : Vm) (t : Shared)
      → u.spawns ≡ false
      → start_built env u w t ≡ (error "cannot start", (unlaunched w, t))
  unfolding start_built launch unlaunched
  launch_lem w t sp =
      ap (λ (r : Ended × Vm). and_then (launch env u) (r.0, (r.1, t))) (make_adapters_lem env w)
      ∙ rw sp refl

  start_lem :
      is_running env v ≡ false
      → u.checks ≡ returned
      → u.drives ≡ returned
      → u.bios ≡ returned
      → v.memory_size ≡ some n
      → v.memory_reserve ≡ true
      → env.writes ≡ true
      → (wanted n == 0) ≡ false
      → u.spawns ≡ false
      → start env u v s ≡ (
        error "cannot start",
        (unlaunched (build_adapters u.network fresh), reserved_for v.vmid (wanted n) s),
      )
  unfolding start fresh
  start_lem i c d b m r w z sp =
      if_false (is_running env v) (start_running v s)
        (and_then (start_built env u) (build env u fresh s)) i
      ∙ ap (and_then (start_built env u)) (build_lem c d b m r w z)
      ∙ launch_lem (build_adapters u.network fresh) (reserved_for v.vmid (wanted n) s) sp

  -- A start whose checks pass, which reserves memory, and whose process then cannot be started, raises an error. It has
  -- reserved the memory, which stays reserved with the machine's number, and a forced stop of the machine that it leaves
  -- gives nothing back, whatever the system answers.
  pub start_keeps_memory :
      is_running env v ≡ false
      → u.checks ≡ returned
      → u.drives ≡ returned
      → u.bios ≡ returned
      → v.memory_size ≡ some n
      → v.memory_reserve ≡ true
      → env.writes ≡ true
      → (wanted n == 0) ≡ false
      → u.spawns ≡ false
      → ((start env u v s).0 ≡ error "cannot start")
        × (lookup v.vmid (start env u v s).1.1.pages
            ≡ some (pages_of (lookup v.vmid s.pages) + wanted n))
        × ((later : Env)
            → kill later (start env u v s).1.0 (start env u v s).1.1
              ≡ (returned, (start env u v s).1))
  unfolding unlaunched
  start_keeps_memory i c d b m r w z sp =
      rw (start_lem i c d b m r w z sp)
        (refl, more_pages_lem v.vmid (wanted n) (lookup v.vmid s.pages) s.pages, λ later. refl)
