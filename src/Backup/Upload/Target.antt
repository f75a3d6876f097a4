-- ===== src/Backup/Upload/Target.antt =====
-- usr/lib/smd/lib/modules/backup.py: which targets `Upload` takes, and how it reads "name@name".
use spaceport.Base.{ℕ, ◌≡◌, String, true, false, ◌&&◌, Option, none, some, ltb, str_eq, arith}
use spaceport.Base.Int.{pos}
use mathlib.Core.Path.{subst}
use spaceport.Value.{Value, Exn, number, Fields, ok, get_field, get_or_null}
use spaceport.Value.Do.{bind_ok, raise_if_ok}
use spaceport.Backup.Text.{nes_text, full_path}
use spaceport.Backup.Schedule.{get_or}
use spaceport.Backup.Constants.{backup_default_port}
use spaceport.Backup.Upload.{
  Upload, split_user, split_port, port_of, required, make_upload, with_port, with_host, with_user,
  with_name, new_upload, valid,
}

required_ok {ℓ} : {A : Type ℓ} (o : Option A) (a : A) → required o ≡ ok a → o ≡ some a
required_ok none a h = cc
required_ok (some b) a h = cc

port_of_range : (v : Value) (p : ℕ) → port_of v ≡ some p → (ltb 0 p && ltb p 0xFFFF) ≡ true
unfolding port_of
port_of_range v p h = ground arith

ok_injective {ℓ} : {A : Type ℓ} (a b : A) → ok a ≡ ok b → a ≡ b
ok_injective a b h = cc

make_upload-valid :
    (d : Fields) (user host : String) (v : Value) (port : ℕ) (key : Option String)
    → str_eq host "" ≡ false
    → port_of v ≡ some port
    → valid (make_upload d user host v port key).0 ≡ true
unfolding valid
make_upload-valid d user host v port key h p = rw h (port_of_range v port p)

module _ (d : Fields) (r : Upload × Fields) where
  with_port-valid :
      (user host : String) (v : Value) (port : ℕ)
      → port_of v ≡ some port
      → with_port d user host v port ≡ ok r
      → valid r.0 ≡ true
  with_port-valid user host v port p h =
      let (e, h') = raise_if_ok (str_eq host "") Exn.value_error _ r h in
      let (key, (k, e')) =
        bind_ok (full_path (get_or_null "key" d)) (λ key. ok (make_upload d user host v port key)) r
          h' in
      subst (λ (x : Upload × Fields). valid x.0 ≡ true)
        (ok_injective (make_upload d user host v port key) r e')
        (make_upload-valid d user host v port key e p)

  with_host-valid :
      (user : String) (at_port : String × Value)
      → with_host d user at_port ≡ ok r
      → valid r.0 ≡ true
  with_host-valid user (host, v) h =
      let (port, (e, h')) = bind_ok (required (port_of v)) (with_port d user host v) r h in
      with_port-valid user host v port (required_ok (port_of v) port e) h'

  with_user-valid : (named user : String) → with_user d named user ≡ ok r → valid r.0 ≡ true
  with_user-valid named user h =
      let (at_port, (e, h')) =
        bind_ok (split_port named (get_or (get_field "port" d) (number (pos backup_default_port))))
          (with_host d user) r h in
      with_host-valid user at_port h'

  with_name-valid : (n : String × Value) → with_name d n ≡ ok r → valid r.0 ≡ true
  with_name-valid (named, v) h =
      let (user, (e, h')) = bind_ok (required (nes_text v)) (with_user d named) r h in
      with_user-valid named user h'

  -- An upload that `Upload(data)` makes of a dict is valid: it has a host that is not empty, and a port from 1
  -- to 65534.
  pub new_upload-valid : new_upload d ≡ ok r → valid r.0 ≡ true
  unfolding new_upload
  new_upload-valid h =
      let (given, (e, h')) =
        bind_ok (required (nes_text (get_or_null "host" d)))
          (λ given. with_name d (split_user given (get_or_null "user" d))) r h in
      with_name-valid (split_user given (get_or_null "user" d)) h'
