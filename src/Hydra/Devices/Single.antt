-- ===== src/Hydra/Devices/Single.antt =====
-- usr/lib/smd/lib/modules/hydra.py: how many USB devices a machine can have.
use spaceport.Base.{
  ℕ, suc, ◌≡◌, ◌≤◌, refl, sym, ◌∙◌, String, Bool, true, false, not, List, [], ◌∷◌, Option, none,
  some, if◌then◌else◌, arith, length, inl, inr, Bool-cases, eq_iff,
}
use mathlib.Core.Path.{subst}
use spaceport.Base.Dict.{
  Dict, lookup, contains, insert, erase, lookup-erase, lookup-erase_self, lookup-insert_self,
}
use spaceport.Value.{Value, Result, ok, err, is_null, key_error}
use spaceport.Util.{num}
use spaceport.Hydra.State.{
  Vm, Shared, Env, Answer, replied, timed_out, refused, Ended, returned, error, crash, is_running,
  After, and_then,
}
use spaceport.Hydra.Machine.{cmd, ended, heard}
use spaceport.Hydra.Devices.{
  attached, attach, attach_next, usb_add_named, device_name, usb_add, detach, device_numbered,
  detached, add_device, remove_number, remove_device, usb_remove_named, usb_remove, clean_from,
  usb_clean,
}

-- A request for the devices of a machine, with what the system answers
pub data Call : Type 0 where
  add : Env → List String → Value → Value → Call
  remove : Env → Value → Value → Value → Call
  clean : Env → Call

unfoldable pub step : Call → Vm → Shared → After
step (add env devices vendor product) v s = usb_add env devices vendor product v s
step (remove env vendor product usb) v s = usb_remove env vendor product usb v s
step (clean env) v s = usb_clean env v s

-- The machine and what it shares, after some requests
unfoldable pub run : List Call → Vm → Shared → Vm × Shared
run [] v s = (v, s)
run (c ∷ cs) v s = let (v', s') = (step c v s).1 in run cs v' s'

-- Each device of a machine stands in the table of all.
abbrev pub Owned : Dict ℕ → Dict ℕ → Type 0
Owned [] all = Unit {0}
Owned ((k, _) ∷ d) all = (contains k all ≡ true) × (lookup k d ≡ none) × Owned d all

pub Owned-erase :
    (k : String) (d all : Dict ℕ) → lookup k d ≡ none → Owned d all → Owned d (erase k all)
Owned-erase k [] all h o = tt
Owned-erase k ((j, n) ∷ d) all h o =
    ground (arith, Owned-erase k d all, lookup-erase k j all, eq_iff j k, eq_iff k j)

-- A machine has no more than one device, and the table of all has it.
abbrev pub Single : Vm → Shared → Type 0
Single v s = (length v.usb ≤ 1) × Owned v.usb s.usb

erase-Owned : (k : String) (d all : Dict ℕ) → Owned d all → Owned (erase k d) all
erase-Owned k [] all o = tt
erase-Owned k ((j, n) ∷ d) all o =
    ground (arith, erase-Owned k d all, lookup-erase k j d, eq_iff j k, eq_iff k j)

erase_both-Owned : (k : String) (d all : Dict ℕ) → Owned d all → Owned (erase k d) (erase k all)
erase_both-Owned k d all o =
    Owned-erase k (erase k d) all (lookup-erase_self k d) (erase-Owned k d all o)

length-erase : (k : String) (d : Dict ℕ) → length (erase k d) ≤ length d
length-erase k [] = omega arith
length-erase k ((j, n) ∷ d) = ground (arith, length-erase k d)

heard-usb : (ga : Bool) (a : Answer) (v : Vm) → (heard ga a v).usb ≡ v.usb
heard-usb ga (replied _) v = refl
heard-usb ga timed_out v = refl
heard-usb ga refused v = refl

cmd-usb : (env : Env) (i : ℕ) (ga : Bool) (v : Vm) → (cmd env i ga v).1.usb ≡ v.usb
unfolding cmd
cmd-usb env i ga v = elim (Bool-cases (is_running env v)) [
  | inl e ↦ rw e (heard-usb ga (env.answers i) v)
  | inr e ↦ rw e refl
]

cmd_Single :
    (env : Env) (i : ℕ) (ga : Bool) (v : Vm) (s : Shared) → Single v s → Single (cmd env i ga v).1 s
cmd_Single env i ga v s h =
    subst (λ (d : Dict ℕ). (length d ≤ 1) × Owned d s.usb) (sym (cmd-usb env i ga v)) h

-- What holds of what a call leaves
abbrev Leaves : After → Type 0
Leaves a = Single a.1.0 a.1.1

if_Single : (b : Bool) (x y : After) → Leaves x → Leaves y → Leaves (if b then x else y)
if_Single true x y h k = h
if_Single false x y h k = k

detach-Single : (k : String) (v : Vm) (s : Shared) → Single v s → Leaves (detach k v s)
unfolding detach
detach-Single k v s (one, o) =
    let v' : Vm = record v { usb = erase k v.usb } in
    let less : length (erase k v.usb) ≤ 1 = omega (arith, length-erase k v.usb) in
    if_Single (contains k s.usb) (returned, (v', record s { usb = erase k s.usb }))
      (crash key_error, (v', s)) (less, erase_both-Owned k v.usb s.usb o)
      (less, erase-Owned k v.usb s.usb o)

detached-Single :
    (k : String) (e : Ended) (v : Vm) (s : Shared) → Single v s → Leaves (detached k e v s)
detached-Single k returned v s h = detach-Single k v s h
detached-Single k (error _) v s h = h
detached-Single k (crash _) v s h = h

-- A device that a machine with none gets, and that the table of all gets with it
first_device :
    (i : String) (n : ℕ) (all : Dict ℕ)
    → (length {A = String × ℕ} ((i, 1) ∷ []) ≤ 1) × Owned ((i, 1) ∷ []) (insert i n all)
first_device i n all = (omega arith, (rw (lookup-insert_self i n all) refl, refl, tt))

attached-Single :
    (i : String) (e : Ended) (v : Vm) (s : Shared) → v.usb ≡ [] → Leaves (attached i 1 e v s)
attached-Single i returned v s h =
    subst
      (λ (d : Dict ℕ). (length (insert i 1 d) ≤ 1) × Owned (insert i 1 d) (insert i v.vmid s.usb))
      (sym h) (first_device i v.vmid s.usb)
attached-Single i (error _) v s h =
    subst (λ (d : Dict ℕ). (length d ≤ 1) × Owned d s.usb) (sym h) (omega arith, tt)
attached-Single i (crash _) v s h =
    subst (λ (d : Dict ℕ). (length d ≤ 1) × Owned d s.usb) (sym h) (omega arith, tt)

attach_next-Single :
    (env : Env) (i : String) (d : Dict ℕ) (v : Vm) (s : Shared)
    → v.usb ≡ d
    → Single v s
    → Leaves (attach_next env i d v s)
unfolding attach_next attach
attach_next-Single env i [] v s e h =
    attached-Single i (ended (cmd env 0 false v).0) (cmd env 0 false v).1 s
      (cmd-usb env 0 false v ∙ e)
attach_next-Single env i (_ ∷ _) v s e h = h

usb_add_named-Single :
    (env : Env) (devices : List String) (i : String) (v : Vm) (s : Shared)
    → Single v s
    → Leaves (usb_add_named env devices i v s)
unfolding usb_add_named
usb_add_named-Single env devices i v s h = ground (arith, attach_next-Single env i v.usb v s refl h)

add_Single :
    (env : Env) (devices : List String) (o : Option String) (v : Vm) (s : Shared)
    → Single v s
    → Leaves (add_device env devices o v s)
unfolding add_device
add_Single env devices none v s h = h
add_Single env devices (some i) v s h = usb_add_named-Single env devices i v s h

remove_named_Single :
    (env : Env) (k : String) (v : Vm) (s : Shared)
    → Single v s
    → Leaves (usb_remove_named env k v s)
unfolding usb_remove_named
remove_named_Single env k v s h =
    detached-Single k (ended (cmd env 0 false v).0) (cmd env 0 false v).1 s
      (cmd_Single env 0 false v s h)

remove_number-Single :
    (env : Env) (r : Result (Option String)) (v : Vm) (s : Shared)
    → Single v s
    → Leaves (remove_number env r v s)
unfolding remove_number
remove_number-Single env (err _) v s h = h
remove_number-Single env (ok none) v s h = h
remove_number-Single env (ok (some k)) v s h = remove_named_Single env k v s h

remove_device-Single :
    (env : Env) (o : Option String) (v : Vm) (s : Shared)
    → Single v s
    → Leaves (remove_device env o v s)
unfolding remove_device
remove_device-Single env none v s h = h
remove_device-Single env (some k) v s h =
    if_Single (contains k v.usb) (usb_remove_named env k v s)
      (error "device is not connected", (v, s)) (remove_named_Single env k v s h) h

and_then-Single :
    (rest : Vm → Shared → After) (a : After)
    → ((v : Vm) (s : Shared) → Single v s → Leaves (rest v s))
    → Leaves a
    → Leaves (and_then rest a)
and_then-Single rest (returned, (v, s)) f h = f v s h
and_then-Single rest (error _, (v, s)) f h = h
and_then-Single rest (crash _, (v, s)) f h = h

clean_from-Single :
    (env : Env) (i : ℕ) (d : Dict ℕ) (v : Vm) (s : Shared)
    → Single v s
    → Leaves (clean_from env i d v s)
unfolding clean_from
clean_from-Single env i [] v s h = (omega arith, tt)
clean_from-Single env i ((k, n) ∷ d) v s h =
    and_then-Single (clean_from env (suc i) d)
      (detached k (ended (cmd env i false v).0) (cmd env i false v).1 s)
      (clean_from-Single env (suc i) d)
      (detached-Single k (ended (cmd env i false v).0) (cmd env i false v).1 s
        (cmd_Single env i false v s h))

step-Single : (c : Call) (v : Vm) (s : Shared) → Single v s → Leaves (step c v s)
unfolding step usb_add usb_remove usb_clean
step-Single (add env devices vendor product) v s h =
    add_Single env devices (device_name env vendor product) v s h
step-Single (remove env vendor product usb) v s h =
    if_Single (not (is_null usb)) (remove_number env (device_numbered (num usb false true) v) v s)
      (remove_device env (device_name env vendor product) v s)
      (remove_number-Single env (device_numbered (num usb false true) v) v s h)
      (remove_device-Single env (device_name env vendor product) v s h)
step-Single (clean env) v s h = clean_from-Single env 0 v.usb v s h

-- A machine with no more than one USB device, which the table of all has, never gets a second one, whatever is asked for
-- and whatever the machine and the system answer; and the table still has each device of the machine.
pub run-Single :
    (cs : List Call) (v : Vm) (s : Shared) → Single v s → Single (run cs v s).0 (run cs v s).1
unfolding run
run-Single [] v s h = h
run-Single (c ∷ cs) v s h = run-Single cs (step c v s).1.0 (step c v s).1.1 (step-Single c v s h)
