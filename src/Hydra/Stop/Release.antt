-- ===== src/Hydra/Stop/Release.antt =====
-- usr/lib/smd/lib/modules/hydra.py: what `VM._stop` gives back.
use spaceport.Base.{
  ℕ, suc, ◌≡◌, refl, ap, ◌∙◌, String, Bool, true, false, ◌&&◌, [], ◌∷◌, Option, none, some,
  if◌then◌else◌, arith, if_true, if_false,
}
use spaceport.Base.Dict.{Dict, lookup, contains, erase, lookup-erase}
use spaceport.Base.Table as Table
use spaceport.Value.{key_error}
use spaceport.Hydra.State.{stopped, Vm, Shared, Env, Answer, returned, crash, and_then}
use spaceport.Hydra.Machine.{cmd, ended, heard, is_stopped}
use spaceport.Hydra.Devices.{detach, detached, clean_from, usb_clean}
use spaceport.Hydra.Devices.Single.{Owned, Owned-erase}
use spaceport.Hydra.Pages.{pages, remove_pages, remove_from, take_pages}
use spaceport.Hydra.Stop.{released, without_process, force_stop, kill}

-- The table without the devices of a machine
unfoldable pub erase_all : Dict ℕ → Dict ℕ → Dict ℕ
erase_all [] all = all
erase_all ((k, _) ∷ d) all = erase_all d (erase k all)

lookup-erase_all :
    (j : String) (d all : Dict ℕ)
    → lookup j (erase_all d all) ≡ (if contains j d then none else lookup j all)
unfolding erase_all
lookup-erase_all j [] all = refl
lookup-erase_all j ((k, n) ∷ d) all =
    ground (arith, lookup-erase_all j d (erase k all), lookup-erase k j all)

-- Without a process no command is sent, so nothing can go wrong.
cmd_dead :
    (env : Env) (i : ℕ) (ga : Bool) (v : Vm) → v.has_proc ≡ false → cmd env i ga v ≡ (none, v)
unfolding cmd
cmd_dead env i ga v h =
    if_false (v.has_proc && env.alive) (some (env.answers i), heard ga (env.answers i) v) (none, v)
      (rw h refl)

detach_owned :
    (k : String) (v : Vm) (s : Shared)
    → contains k s.usb ≡ true
    → detach k v s
      ≡ (returned, (record v { usb = erase k v.usb }, record s { usb = erase k s.usb }))
unfolding detach
detach_owned k v s c =
    let v' : Vm = record v { usb = erase k v.usb } in
    if_true (contains k s.usb) (returned, (v', record s { usb = erase k s.usb }))
      (crash key_error, (v', s)) c

clean_from_dead :
    (env : Env) (i : ℕ) (d : Dict ℕ) (v : Vm) (s : Shared)
    → v.has_proc ≡ false
    → Owned d s.usb
    → clean_from env i d v s
      ≡ (returned, (record v { usb = [] }, record s { usb = erase_all d s.usb }))
unfolding clean_from erase_all
clean_from_dead env i [] v s h o = refl
clean_from_dead env i ((k, n) ∷ d) v s h (c, l, o) =
    ap
      (λ (a : Option Answer × Vm).
        and_then (clean_from env (suc i) d) (detached k (ended a.0) a.1 s))
      (cmd_dead env i false v h)
    ∙ ap (and_then (clean_from env (suc i) d)) (detach_owned k v s c)
    ∙ clean_from_dead env (suc i) d (record v { usb = erase k v.usb })
        (record s { usb = erase k s.usb }) h (Owned-erase k d s.usb l o)

-- What is shared, after the memory of a machine was given back
abbrev pub given_back : Env → Vm → Shared → Shared
given_back env v s = if v.memory_reserve then (pages env.writes v.vmid none true s).1 else s

pub force_stop_lem :
    (env : Env) (v : Vm) (s : Shared)
    → Owned v.usb s.usb
    → force_stop env v s ≡ (
      returned,
      (
        record (without_process v) { usb = []; state = stopped },
        given_back env v (record s { usb = erase_all v.usb s.usb }),
      ),
    )
unfolding force_stop usb_clean
force_stop_lem env v s o =
    ap (released env) (clean_from_dead env 0 v.usb (without_process v) s refl o)

take_pages_all :
    (writes : Bool) (k n : ℕ) (s : Shared)
    → Table.lookup k s.pages ≡ some n
    → Table.lookup k (take_pages writes k n n s).1.pages ≡ (if writes then none else some n)
unfolding take_pages
take_pages_all false k n s h = h
take_pages_all true k n s h = ground (arith, Table.lookup-erase k k s.pages)

remove_from_all :
    (writes : Bool) (k : ℕ) (o : Option ℕ) (s : Shared)
    → Table.lookup k s.pages ≡ o
    → Table.lookup k (remove_from writes k none o s).1.pages ≡ (if writes then none else o)
unfolding remove_from
remove_from_all false k none s h = h
remove_from_all true k none s h = h
remove_from_all writes k (some n) s h = take_pages_all writes k n s h

pages-usb :
    (writes : Bool) (k : ℕ) (o : Option ℕ) (s : Shared)
    → (remove_from writes k none o s).1.usb ≡ s.usb
unfolding remove_from take_pages
pages-usb writes k none s = refl
pages-usb true k (some n) s = refl
pages-usb false k (some n) s = refl

given_back-pages :
    (env : Env) (v : Vm) (s : Shared)
    → Table.lookup v.vmid (given_back env v s).pages
      ≡ (if v.memory_reserve && env.writes then none else Table.lookup v.vmid s.pages)
unfolding pages remove_pages
given_back-pages env v s =
    ground (arith, remove_from_all env.writes v.vmid (Table.lookup v.vmid s.pages) s refl)

given_back-usb : (env : Env) (v : Vm) (s : Shared) → (given_back env v s).usb ≡ s.usb
unfolding pages remove_pages
given_back-usb env v s = ground (arith, pages-usb env.writes v.vmid (Table.lookup v.vmid s.pages) s)

-- What a machine holds: its process, its event, its interfaces, its devices
abbrev pub HoldsNothing : Vm → Type 0
HoldsNothing v =
    (v.has_proc ≡ false) × (v.event ≡ none) × (v.adapters ≡ []) × (v.usb ≡ []) × (v.state ≡ stopped)

-- What is left to the others once a machine was stopped: none of its devices, every other one as before, and no
-- memory of it, where it had reserved some and the number can be written.
abbrev pub Released : Env → Vm → Shared → Shared → Type 0
Released env v s t =
    ((j : String) → lookup j t.usb ≡ (if contains j v.usb then none else lookup j s.usb))
    × (Table.lookup v.vmid t.pages
        ≡ (if v.memory_reserve && env.writes then none else Table.lookup v.vmid s.pages))

-- A machine that is stopped by force, and whose devices stand in the table of all, is stopped without an error,
-- whatever the system answers: it then holds nothing, none of its devices is left in the table and every other one is
-- as before, and its memory is free for others where it had reserved some and the new number can be written; where it
-- cannot, the memory stays reserved.
pub kill-Released :
    (env : Env) (v : Vm) (s : Shared)
    → is_stopped v.state ≡ false
    → Owned v.usb s.usb
    → ((kill env v s).0 ≡ returned)
      × HoldsNothing (kill env v s).1.0
      × Released env v s (kill env v s).1.1
kill-Released env v s h o =
    let t : Shared = record s { usb = erase_all v.usb s.usb } in
    rw
      (if_false (is_stopped v.state) (returned, (v, s)) (force_stop env v s) h
        ∙ force_stop_lem env v s o)
      (
        refl,
        (refl, refl, refl, refl, refl),
        (
          λ j. ap (lookup j) (given_back-usb env v t) ∙ lookup-erase_all j v.usb s.usb,
          given_back-pages env v t,
        ),
      )
