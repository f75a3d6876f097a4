-- ===== src/Backup/Job/Locker.antt =====
-- usr/lib/smd/lib/modules/backup.py and locker.py: what the messages of a `Backup` do to the Backup locker.
use spaceport.Base.{
  ℕ, ◌≡◌, ◌≢◌, refl, String, true, false, Option, none, some, arith, ◌⊎◌, inl, inr, Option-cases,
  Bool-cases,
}
use spaceport.Base.Int.{pos}
use spaceport.Base.Dict.{lookup, contains, lookup-insert_self}
use spaceport.Value.{Value, null, boolean, text}
use spaceport.Message.{Message, set_forward, new, is_forward}
use spaceport.Storage.{update as update_fields}
use spaceport.Ability.{Locker}
use spaceport.Util.{nes, num}
use spaceport.LockerServer.{
  LockerServer, update, action, locker_add, locker_time, add_named, set_locker, replace_locker,
  new_locker, locker_remove, AddError, add_done,
}
use spaceport.LockerServer.Lockers.{locker_add_removes}
use spaceport.Backup.Job.Stop.{locker_message}

-- The message as `forward` hands it to the hooks of the daemon, which runs as root.
abbrev pub delivered : Option ℕ → Value → Message
delivered pid time = set_forward (locker_message time) pid (some 0)

-- What `update` makes of the message: a forced request for the Backup locker.
update_adds :
    (pid : Option ℕ) (time : Value) (s : LockerServer)
    → (update (delivered pid time) s).1 ≡ (locker_add (text "backup") time true s).1
unfolding update action new set_forward is_forward nes spaceport.Storage.is_reserved locker_add
update_adds pid time s = done (locker_add (text "backup") time true s)
  where
    done : (r : Option AddError × LockerServer) → (add_done (text "backup") r).1 ≡ r.1
    done (none, s) = refl
    done (some e, s) = refl

-- The message that a backup sends at its end takes the Backup locker out of the table, whatever it held, and
-- leaves every other locker as it was.
pub backup_releases :
    (pid : Option ℕ) (k : String) (s : LockerServer)
    → "backup" ≢ k
    → let s' = (update (delivered pid (boolean false)) s).1 in
      (lookup "backup" s'.lockers ≡ none) × (lookup k s'.lockers ≡ lookup k s.lockers)
unfolding locker_time num
backup_releases pid k s ne = rw (update_adds pid (boolean false) s) (
    let r =
      locker_add_removes "backup" k (boolean false) true (pos 0) s refl refl refl (ground arith)
        ne in
    (r.1, r.2))

module _ (s : LockerServer) where
  contains-new_locker : contains "backup" (new_locker "backup" none s).lockers ≡ true
  unfolding new_locker
  contains-new_locker =
      rw
        (lookup-insert_self "backup" (record { name = "backup"; event = none; expire = none })
          s.lockers)
        refl

  contains-kept :
      (x : Locker) → lookup "backup" s.lockers ≡ some x → contains "backup" s.lockers ≡ true
  contains-kept x h = rw h refl

contains-replace_locker :
    (s : LockerServer) → contains "backup" (replace_locker "backup" none s).lockers ≡ true
unfolding replace_locker
contains-replace_locker s = elim (Option-cases (lookup "backup" s.lockers)) [
  | inl e ↦ rw (e, replace_locker) (contains-new_locker s)
  | inr (x, e) ↦
      rw (e, replace_locker)
        (ground
          (arith, e, contains-new_locker (locker_remove "backup" false s), contains-kept s x e))
]

-- The message that a backup sends at its start puts the Backup locker into the table, or leaves one there.
pub backup_takes :
    (pid : Option ℕ) (s : LockerServer)
    → contains "backup" (update (delivered pid null) s).1.lockers ≡ true
unfolding locker_add locker_time add_named set_locker
backup_takes pid s = rw (update_adds pid null s) (named (Bool-cases (contains "backup" s.lockers)))
  where
    named :
        (contains "backup" s.lockers ≡ true) ⊎ (contains "backup" s.lockers ≡ false)
        → contains "backup" (add_named "backup" null true s).1.lockers ≡ true
    named (inl e) = rw (e, add_named) (contains-replace_locker s)
    named (inr e) = rw (e, add_named) (contains-replace_locker s)
