-- ===== src/LockerServer/Update.antt =====
-- usr/lib/smd/lib/modules/locker.py: what `LockerServer` does with a client's requests, and what it
-- tells the clients once a second.
use Prim.Native.String.{◌++◌}
use spaceport.Base.{
  ℕ, String, Bool, true, false, not, ◌&&◌, ◌||◌, Option, none, some, List, [], ◌∷◌, if◌then◌else◌,
  str_eq,
}
use spaceport.Base.Int.{pos}
use spaceport.Base.Dict.{Dict, lookup, contains, keys}
use spaceport.Value.{
  Value, number, text, arr, dict, Items, nil, cons, end, field, Result, ok, err, key_error,
  type_error, attribute_error, is_null, truthy, any_text, contains_text, get_or_null, has_field,
}
use spaceport.Util.{nes, time_to_str, Expiry, until_reboot, at}
use spaceport.Message
use spaceport.Message.{Message, attr, attr_is, uid_is, multicast, is_forward}
use spaceport.Constants.{
  msg_status, msg_action, msg_config, msg_update, trigger_lock, trigger_blank, trigger_timeout,
  trigger_key, hook_locker, locker_type_names,
}
use spaceport.Host.{sent, status_written, notified}
use spaceport.Ability.{Locker, from_dict, expire_value, status, can_lock, can_blank}
use spaceport.LockerServer.State.{
  LockerServer, Reply, nothing, fields, failed, bad_syntax, pass, Env,
}
use spaceport.LockerServer.Table.{AddError, invalid_name, invalid_time, unhashable, locker_add}
use spaceport.LockerServer.Power.{Handled, act, try_suspend, lid_check}

abbrev error_words : AddError → String
error_words invalid_name = "invalid locker name"
error_words invalid_time = "invalid expire time"
error_words unhashable = "unhashable type"

-- What `update` makes of an error of `_locker_add`: a `ValueError` becomes a reply.
abbrev pub add_reply : Value → AddError → Result Reply
add_reply name unhashable = err type_error
add_reply name e = ok (bad_syntax name (error_words e))

-- The reply that ends the loop over `message.list`, after one request with a name, and for an item
-- that is no dict: one that has no "name" in it is passed over.
abbrev pub item_done : Value → Option AddError × LockerServer → Option (Result Reply) × LockerServer
item_done name (none, s) = (none, s)
item_done name (some e, s) = (some (add_reply name e), s)

abbrev no_item : Result Bool → Option (Result Reply)
no_item (ok false) = none
no_item (ok true) = some (err type_error)
no_item (err e) = some (err e)

-- One request of `message.list` that has a name: the reply that ends the loop, if it does.
unfoldable pub add_item : Value → LockerServer → Option (Result Reply) × LockerServer
add_item (dict d) s =
    if has_field "name" d
    then item_done (get_or_null "name" d) (
        locker_add (get_or_null "name" d) (get_or_null "time" d) (truthy (get_or_null "force" d)) s)
    else (none, s)
add_item v s = (no_item (contains_text "name" v), s)

abbrev pub go_on : Option (Result Reply) × LockerServer → Handled → Handled
go_on (none, s) rest = rest
go_on (some reply, s) rest = (reply, s)

-- The loop over `message.list`.
unfoldable pub add_items : Items → LockerServer → Handled
add_items nil s = (ok nothing, s)
add_items (cons v vs) s = let rest = add_items vs (add_item v s).1 in go_on (add_item v s) rest

abbrev pub refuse_backup : Reply
refuse_backup = failed "Cannot add the Backup locker"

-- The list of requests, and the test that is to keep the Backup locker out of it.
unfoldable pub add_list : Value → LockerServer → Handled
add_list (arr items) s =
    if any_text "backup" items then (ok refuse_backup, s) else add_items items s
add_list _ s = (ok (failed "Invaid Locker structure"), s)

abbrev pub is_backup : Value → Bool
is_backup (text s) = str_eq s "backup"
is_backup _ = false

-- The reply to a request for one locker.
abbrev pub add_done : Value → Option AddError × LockerServer → Handled
add_done name (none, s) = (ok nothing, s)
add_done name (some e, s) = (add_reply name e, s)

-- `update` of type `MSG_ACTION`
unfoldable pub action : Message → LockerServer → Handled
action m s =
    if nes (attr "name" m)
    then if is_backup (attr "name" m) && not (is_forward m (some 0) none)
      then (ok refuse_backup, s)
      else add_done (attr "name" m)
          (locker_add (attr "name" m) (attr "time" m) (truthy (attr "force" m)) s)
    else add_list (attr "list" m) s

-- `self._lockers[v].expire`
abbrev pub expire_at : Value → LockerServer → Result (Option ℕ)
expire_at (text k) s = elim (lookup k s.lockers) [ none ↦ err key_error | some l ↦ ok l.expire ]
expire_at (arr _) s = err type_error
expire_at (dict _) s = err type_error
expire_at _ s = err key_error

abbrev pub is_locker : Value → LockerServer → Bool
is_locker (text k) s = contains k s.lockers
is_locker _ s = false

-- The reply of `update` to a question for one locker or for all. The locker is looked up under
-- `message.lower`, a name that is no attribute and so is read from the payload.
unfoldable pub report : Message → LockerServer → Result Reply
report m s =
    if is_locker (attr "locker" m) s
    then elim (expire_at (attr "lower" m) s) [
      | err e ↦ err e
      | ok t ↦
          ok (fields (field "type" (number (pos msg_status)) (field "time" (expire_value t) end)))
    ]
    else ok (
        fields (
          field "type" (number (pos msg_status))
            (field "lockers" (dict (status s.ability s.lockers)) end)))

-- `self._ability.from_dict(message.abilities)`
abbrev pub take_abilities : Value → LockerServer → Result (Unit {0}) × LockerServer
take_abilities (dict d) s = let (r, a) = from_dict d s.ability in (r, record s { ability = a })
take_abilities _ s = (err attribute_error, s)

-- The rest of `update` once the abilities are set: a message with the type `MSG_UPDATE` is answered.
abbrev pub abilities_taken : Message → Result (Unit {0}) × LockerServer → Handled
abilities_taken m (err e, s) = (err e, s)
abilities_taken m (ok _, s) =
    if attr_is "type" m msg_config
    then (ok nothing, s)
    else if attr_is "type" m msg_update
    then (report m s, s)
    else (ok nothing, s)

-- `update(message)`
unfoldable pub update : Message → LockerServer → Handled
update m s =
    if attr_is "type" m msg_update || attr_is "type" m msg_config
    then if is_null (attr "abilities" m)
      then (ok nothing, s)
      else abilities_taken m (take_abilities (attr "abilities" m) s)
    else if attr_is "type" m msg_status
    then (report m s, s)
    else if not (attr_is "type" m msg_action)
    then (ok nothing, s)
    else action m s

-- `trigger(message)`
unfoldable pub trigger : Env → Message → LockerServer → Handled
trigger env m s =
    if is_null (attr "trigger" m) && not (is_null (attr "type" m))
    then (ok (if m.is_multicast then nothing else pass (multicast m)), s)
    else if not (is_null (attr "type" m))
    then (ok nothing, s)
    else if attr_is "trigger" m trigger_blank
    then (
      ok (
          if not (can_blank s.ability)
          then nothing
          else if contains "blank" s.lockers
          then nothing
          else pass (multicast m)),
      s,
    )
    else if attr_is "trigger" m trigger_timeout
    then (ok nothing, try_suspend env false s)
    else if attr_is "trigger" m trigger_key
    then (
      ok (
          if not (uid_is m 0)
          then nothing
          else if not s.ability.key
          then nothing
          else if contains "key" s.lockers
          then nothing
          else pass (multicast m)),
      s,
    )
    else if attr_is "trigger" m trigger_lock
    then (
      ok (
          if not (can_lock s.ability)
          then nothing
          else if contains "lock" s.lockers && not (truthy (attr "force" m))
          then nothing
          else pass (multicast m)),
      s,
    )
    else (ok (failed "invalid trigger type"), s)

text_items : List String → Items
text_items [] = nil
text_items (k ∷ ks) = cons (text k) (text_items ks)

abbrev expiry : Option ℕ → Expiry
expiry none = until_reboot
expiry (some t) = at t

-- `LOCKER_TYPE_NAMES.get(n, …)`; the table holds only names that are there.
abbrev shown_name : String → String
shown_name n = elim (lookup n locker_type_names) [ none ↦ n | some shown ↦ shown ]

list_lockers : Dict Locker → ℕ → String
unfolding time_to_str
list_lockers [] now = ""
list_lockers ((n, l) ∷ []) now = shown_name n ++ " (" ++ time_to_str (expiry l.expire) now ++ ")"
list_lockers ((n, l) ∷ (n', l') ∷ rest) now =
    shown_name n
    ++ " ("
    ++ time_to_str (expiry l.expire) now
    ++ ")\n"
    ++ list_lockers ((n', l') ∷ rest) now

abbrev is_empty : Dict Locker → Bool
is_empty [] = true
is_empty (_ ∷ _) = false

-- `_notify`
unfoldable pub notify : LockerServer → LockerServer
unfolding text_items list_lockers
notify s =
    if not s.update
    then s
    else let names = keys s.lockers in
      let told = sent (
        Message.new hook_locker (
          field "type" (number (pos msg_status)) (field "lockers" (arr (text_items names)) end))) in
      let body =
        if is_empty s.lockers
        then "No lockers are enabled."
        else list_lockers s.lockers s.host.now in
      record (act (notified "Lockers Updated" body "caffeine")
        (act (status_written names) (act told s))) { update = false }

-- `thread`, the function that the daemon calls once a second
unfoldable pub thread : Env → LockerServer → Handled
thread env s = lid_check env (notify s)
