-- ===== src/Message/Wire.antt =====
-- usr/lib/smd/lib/structs/message.py: `Message.send` and `Message.recv`. A socket is the list of the
-- pieces that it delivers, none of them empty: one `recv(n)` returns bytes of the first piece only,
-- and no bytes at the end.
use spaceport.Base.{
  ℕ, ◌+◌, ◌*◌, ◌/◌, ◌%◌, ◌^◌, Option, none, some, List, [], ◌∷◌, ◌==◌, ltb, if◌then◌else◌, length,
  take, drop,
}
use spaceport.Value.{Value, dict, Fields, end, field, Result, ok, err, os_error, struct_error}
use spaceport.Storage.{update}

abbrev pub Stream : Type 0
Stream = List (List ℕ)

-- `json.dumps` to a text of ASCII characters, and `json.loads` of decoded bytes; `none` is a
-- `JSONDecodeError` or a `UnicodeDecodeError`; the other exceptions of `loads`, for too many digits and for too deep a
-- nesting, are left out.
abbrev pub Dumps : Type 0
Dumps = Fields → List ℕ

abbrev pub Loads : Type 0
Loads = List ℕ → Option Value

-- `struct.pack(">BI", header, n)`
unfoldable pub pack : ℕ → ℕ → Result (List ℕ)
pack header n =
    if ltb header 256
    then if ltb n (2 ^ 32)
      then ok (header ∷ n / 2 ^ 24 ∷ n / 2 ^ 16 % 256 ∷ n / 2 ^ 8 % 256 ∷ n % 256 ∷ [])
      else err struct_error
    else err struct_error

-- `struct.unpack(">BI", b)`: `none` unless there are five bytes.
unfoldable pub unpack : List ℕ → Option (ℕ × ℕ)
unpack (h ∷ a ∷ b ∷ c ∷ d ∷ []) = some (h, a * 2 ^ 24 + b * 2 ^ 16 + c * 2 ^ 8 + d)
unpack _ = none

-- The piece that is left, where some of it is.
abbrev pub push : List ℕ → Stream → Stream
push [] s = s
push (b ∷ p) s = (b ∷ p) ∷ s

-- `stream.recv(n)`
unfoldable pub recv_bytes : ℕ → Stream → List ℕ × Stream
recv_bytes n [] = ([], [])
recv_bytes n (p ∷ s) = (take n p, push (drop n p) s)

-- `Message.send`: the writes to the socket, one for each `sendall`.
unfoldable pub send : Dumps → ℕ → Fields → Result Stream
unfolding pack
send dumps header end = elim (pack header 0) [ ok b ↦ ok (b ∷ []) | err e ↦ err e ]
send dumps header (field k v rest) =
    let p = dumps (field k v rest) in
    if ltb 0xFFFFFFFF (length p)
    then err (os_error 0)
    else elim (pack header (length p)) [ ok b ↦ ok (b ∷ p ∷ []) | err e ↦ err e ]

-- The dictionary of a payload that was to have n bytes, taken into the message's own.
unfoldable pub decode : Loads → ℕ → Fields → List ℕ → Result Fields
decode loads n self p =
    if length p == n
    then elim (loads p) [ some (dict d) ↦ ok (update self d) | _ ↦ err (os_error 0) ]
    else err (os_error 0)

abbrev pub with_header : ℕ → Result Fields → Result (ℕ × Fields)
with_header h (ok d) = ok (h, d)
with_header h (err e) = err e

-- What follows a header and a length.
unfoldable pub recv_body : Loads → Fields → ℕ → ℕ → Stream → Result (ℕ × Fields) × Stream
recv_body loads self h n s =
    if h == 0
    then (err (os_error 0), s)
    else if n == 0
    then (ok (h, self), s)
    else let (p, rest) = recv_bytes n s in (with_header h (decode loads n self p), rest)

-- `Message.recv` into a message with the dictionary `self`: the header and the dictionary, or an
-- `OSError`, whose number 0x3E8 says that the other side has closed.
unfoldable pub recv : Loads → Fields → Stream → Result (ℕ × Fields) × Stream
recv loads self s =
    let (b, rest) = recv_bytes 5 s in
    if length b == 0 then (err (os_error 0x3E8), rest) else elim (unpack b) [
      | none ↦ (err (os_error 0), rest)
      | some (h, n) ↦ recv_body loads self h n rest
    ]
