-- ===== src/Backup/Plan/Config.antt =====
-- usr/lib/smd/lib/modules/backup.py: `Plans`, as it is read from the configuration.
use spaceport.Base.{ℕ, suc, String, Bool, false, not, ◌||◌, Option, none, some, List, [], ◌∷◌}
use spaceport.Value.{
  Value, null, arr, dict, Items, nil, cons, Fields, Result, ok, err, value_error, get_or_null,
  set_field, has_field,
}
use spaceport.Value.Do.{◌>>=◌}
use spaceport.Backup.Constants.{backup_default_dir}
use spaceport.Backup.Text.{nes_text, full_path}
use spaceport.Backup.Upload.{Upload, new_upload}
use spaceport.Backup.Plan.Parse.{Plan, Files, new_plan}

-- `Plans`: the directory, key and upload for plans without their own, and the plans. `storage` is none
-- where there is nothing to save.
pub record Plans : Type 0 where
  pub dir : String
  pub key : Option String
  pub upload : Option Upload
  pub entries : List Plan
  pub storage : Option Fields
  pub updated : Bool

abbrev no_plans : Plans
no_plans = record {
  dir = backup_default_dir;
  key = none;
  upload = none;
  entries = [];
  storage = none;
  updated = false;
}

-- The loop over the plans: the plans, the dicts with what was put in, and whether one had no identifier.
-- `fresh n` is the identifier that `uuid4()` gives the n-th plan.
unfoldable pub new_plans : Files → (ℕ → String) → ℕ → Items → Result (List Plan × (Items × Bool))
new_plans files fresh n nil = ok ([], (nil, false))
new_plans files fresh n (cons (dict d) vs) =
    let rest = new_plans files fresh (suc n) vs in
    do
      (p, d') ← new_plan files (fresh n) d
      (ps, (vs', updated)) ← rest
      ok (p ∷ ps, (cons (dict d') vs', not (has_field "uuid" d) || updated))
new_plans files fresh n (cons _ vs) = err value_error

abbrev plans_list : Value → Result Items
plans_list null = ok nil
plans_list (arr vs) = ok vs
plans_list _ = err value_error

-- The upload for all plans; other values than a dict with something in it are passed over.
unfoldable pub common_upload : Value → Fields → Result (Option Upload × Fields)
common_upload (dict (Fields.field k v u)) c = do
  (up, u') ← new_upload (Fields.field k v u)
  ok (some up, set_field "upload" (dict u') c)
common_upload _ c = ok (none, c)

-- The key for all plans, whose file is looked at.
unfoldable pub common_key : Files → Value → Result (Option String)
common_key files v = do
  key ← full_path v
  elim key [
    | none ↦ ok none
    | some k ↦ elim (files.file_check k) [ none ↦ ok (some k) | some e ↦ err e ]
  ]

abbrev dir_of : Value → String
dir_of v = elim (nes_text v) [ none ↦ backup_default_dir | some t ↦ t ]

-- `Plans(file)` from the dict that was loaded.
unfoldable pub read_plans : Files → (ℕ → String) → Fields → Result Plans
read_plans files fresh c = do
  vs ← plans_list (get_or_null "plans" c)
  elim vs [
    | nil ↦ ok no_plans
    | cons w ws ↦ do
      (entries, (vs', updated)) ← new_plans files fresh 0 (cons w ws)
      (upload, c') ← common_upload (get_or_null "upload" c) (set_field "plans" (arr vs') c)
      key ← common_key files (get_or_null "public_key" c)
      ok (record {
        dir = dir_of (get_or_null "dir" c);
        key = key;
        upload = upload;
        entries = entries;
        storage = some c';
        updated = updated;
      })
  ]
