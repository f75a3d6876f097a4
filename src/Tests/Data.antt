-- ===== src/Tests/Data.antt =====
-- The theorems on dictionaries with dotted names and on messages, at concrete inputs.
use spaceport.Base.{◌≡◌, ◌≢◌, refl, true, some, List, [], ◌∷◌, ◌++◌, arith}
use spaceport.Base.Int.{pos}
use spaceport.Value.{null, number, text, dict, Fields, end, field, ok, err, os_error}
use spaceport.Storage.{get, set, access, is_reserved, first_name, split_dots}
use spaceport.Storage.Paths.{get-set}
use spaceport.Storage.Clean.{Call, IsClean, apply_all, apply_all-IsClean}
use spaceport.Message.{Dumps, Loads, Stream, send, recv}
use spaceport.Message.Transfer.{IsPayload, recv-send, recv_split_payload, header_bytes}

-- A configuration with one section, and one name beside it.
abbrev config : Fields
config = field "locker" (dict (field "lid" (number (pos 1)) end)) (field "log" (text "info") end)

locker-ne-log : first_name (split_dots "locker.lid") ≢ "log"
unfolding split_dots
locker-ne-log = λ p. cc

config-IsClean : IsClean config
unfolding is_reserved
config-IsClean = (refl, (refl, tt))

get-set_example :
    get "locker.ac.lock" null true (set "locker.ac.lock" (number (pos 30)) config).1
    ≡ (ok (number (pos 30)), (set "locker.ac.lock" (number (pos 30)) config).1)
unfolding set access
get-set_example = get-set "locker.ac.lock" (number (pos 30)) null true config refl

abbrev calls : List Call
calls =
    Call.set_call "locker.lid" null
    ∷ Call.set_item_call "update" null
    ∷ Call.get_call "locker.ac" null true
    ∷ Call.update_call (field "keys" null end)
    ∷ []

apply_all-IsClean_example : IsClean (apply_all calls config)
apply_all-IsClean_example = apply_all-IsClean calls config config-IsClean

-- `json`, as it is for the one payload `{"type": 1}`.
abbrev json : Dumps
json _ = 0x7B ∷ 0x22 ∷ 0x74 ∷ 0x79 ∷ 0x70 ∷ 0x65 ∷ 0x22 ∷ 0x3A ∷ 0x20 ∷ 0x31 ∷ 0x7D ∷ []

abbrev payload : Fields
payload = field "type" (number (pos 1)) end

abbrev read_json : Loads
read_json _ = some (dict payload)

payload-IsPayload : IsPayload payload
unfolding is_reserved
payload-IsPayload = (refl, refl, refl, tt)

recv-send_example :
    (w : Stream) × (send json 0xA6 payload ≡ ok w)
    × (recv read_json end (w ++ (1 ∷ []) ∷ []) ≡ (ok (0xA6, payload), (1 ∷ []) ∷ []))
recv-send_example =
    recv-send json read_json 0xA6 payload ((1 ∷ []) ∷ []) (omega arith) (omega arith)
      payload-IsPayload (omega arith) (omega arith) refl

recv_split_payload_example :
    recv read_json end (header_bytes 0xA6 11 ∷ (0x7B ∷ 0x22 ∷ []) ∷ (0x74 ∷ []) ∷ [])
    ≡ (err (os_error 0), (0x74 ∷ []) ∷ [])
recv_split_payload_example =
    recv_split_payload read_json end 0xA6 11 (0x7B ∷ 0x22 ∷ []) ((0x74 ∷ []) ∷ []) (omega arith)
      (omega arith)
