-- ===== src/LockerServer/Exchange.antt =====
-- usr/lib/smd/lib/modules/locker.py: what a client allows, on its way from `LockerClient` to
-- `LockerServer`.
use spaceport.Base.{ℕ, ◌≡◌, refl}
use spaceport.Base.Int.{pos}
use spaceport.Value.{number, dict, end, field, ok}
use spaceport.Storage
use spaceport.Message
use spaceport.Message.{Message}
use spaceport.Constants.{hook_locker, msg_config, msg_update, msg_status}
use spaceport.Ability.{Ability, to_dict, from_dict, status}
use spaceport.LockerServer.State.{LockerServer, nothing, fields}
use spaceport.LockerServer.Update.{update, report}

-- The abilities that `to_dict` gives are what `from_dict` reads, whatever was there before.
from_dict-to_dict : (a b : Ability) → from_dict (to_dict a) b ≡ (ok tt, a)
unfolding from_dict to_dict
from_dict-to_dict a b = refl

-- The message by which a client tells of its abilities, of one of two types
abbrev pub told : ℕ → Ability → Message
told kind a =
    Message.new hook_locker
      (field "type" (number (pos kind)) (field "abilities" (dict (to_dict a)) end))

-- The message by which a client tells of its abilities sets those of the server to them and changes nothing else. One of
-- the type `MSG_CONFIG`, which comes once the power or the settings have changed, is not answered; one of the type
-- `MSG_UPDATE`, which comes at startup, is answered with the status of all lockers under the new abilities.
pub abilities_arrive :
    (a : Ability) (s : LockerServer)
    → (update (told msg_config a) s ≡ (ok nothing, record s { ability = a }))
      × (update (told msg_update a) s ≡ (
        ok (
            fields (
              field "type"
                (number (pos msg_status))
                (field "lockers" (dict (status a s.lockers)) end))),
        record s { ability = a },
      ))
unfolding update report Message.new Storage.is_reserved
abilities_arrive a s =
    (rw (from_dict-to_dict a s.ability) refl, rw (from_dict-to_dict a s.ability) refl)
