-- ===== src/Message/Transfer.antt =====
-- usr/lib/smd/lib/structs/message.py: a message that is sent at one end of a socket and received at the
-- other, in one piece or in smaller ones.
use spaceport.Base.{
  ℕ, zero, suc, ◌+◌, ◌*◌, ◌/◌, ◌%◌, ◌^◌, ◌≤◌, ◌<◌, ◌≡◌, refl, ap, String, true, false, none, some,
  List, [], ◌∷◌, ◌++◌, ◌==◌, ◌∙◌, arith, length, take, drop, eq_iff, str_eq,
}
use spaceport.Value.{Value, dict, Fields, end, field, ok, err, os_error, get_field, set_field}
use spaceport.Storage.{update, is_reserved}
use spaceport.Message.Wire.{
  Stream, Loads, Dumps, pack, unpack, recv_bytes, send, decode, recv_body, recv,
}

-- What `json.dumps` of a `Flex` shows: names that are not reserved, each once.
abbrev pub IsPayload : Fields → Type 0
IsPayload end = Unit {0}
IsPayload (field k v d) =
    (is_reserved k ≡ false) × (str_eq k "_" ≡ false) × (get_field k d ≡ none) × IsPayload d

abbrev join : Fields → Fields → Fields
join end e = e
join (field k v d) e = field k v (join d e)

set_field_new :
    (k : String) (v : Value) (d : Fields)
    → get_field k d ≡ none
    → set_field k v d ≡ join d (field k v end)
set_field_new k v end h = refl
set_field_new k v (field j w d) h = ground (arith, set_field_new k v d)

join_assoc : (a b c : Fields) → join (join a b) c ≡ join a (join b c)
join_assoc end b c = refl
join_assoc (field k v a) b c = ap (field k v) (join_assoc a b c)

join-end : (a : Fields) → join a end ≡ a
join-end end = refl
join-end (field k v a) = ap (field k v) (join-end a)

-- No name of the second is in the first.
abbrev Fresh : Fields → Fields → Type 0
Fresh d end = Unit {0}
Fresh d (field k v e) = (get_field k d ≡ none) × Fresh d e

get_field-join :
    (j k : String) (v : Value) (d : Fields)
    → get_field j d ≡ none
    → str_eq k j ≡ false
    → get_field j (join d (field k v end)) ≡ none
get_field-join j k v end h n = rw n
get_field-join j k v (field i w d) h n = ground (arith, get_field-join j k v d)

Fresh-join :
    (k : String) (v : Value) (d e : Fields)
    → Fresh d e
    → get_field k e ≡ none
    → Fresh (join d (field k v end)) e
Fresh-join k v d end f h = tt
Fresh-join k v d (field j w e) f h =
    ground (arith, eq_iff k j, eq_iff j k, get_field-join j k v d f.0, Fresh-join k v d e f.1)

update-Fresh : (d e : Fields) → IsPayload e → Fresh d e → update d e ≡ join d e
unfolding update
update-Fresh d end p f = rw join-end
update-Fresh d (field k v e) p f =
    rw
      (
        p.1,
        p.0,
        set_field_new k v d f.0,
        update-Fresh (join d (field k v end)) e p.3 (Fresh-join k v d e f.1 p.2),
      )
      (join_assoc d (field k v end) e)

Fresh-end : (e : Fields) → Fresh end e
Fresh-end end = tt
Fresh-end (field k v e) = (refl, Fresh-end e)

update-end : (d : Fields) → IsPayload d → update end d ≡ d
update-end d p = update-Fresh end d p (Fresh-end d)

take_all {ℓ} : {A : Type ℓ} (xs : List A) → take (length xs) xs ≡ xs
take_all [] = refl
take_all (x ∷ xs) = ap (◌∷◌ x) (take_all xs)

drop_all {ℓ} : {A : Type ℓ} (xs : List A) → drop (length xs) xs ≡ []
drop_all [] = refl
drop_all (x ∷ xs) = drop_all xs

length_of_take : (n : ℕ) (xs : List ℕ) → length xs < n → length (take n xs) ≡ length xs
length_of_take zero xs h = absurd (omega arith)
length_of_take (suc n) [] h = refl
length_of_take (suc n) (x ∷ xs) h = ap suc (length_of_take n xs (omega arith))

-- The five bytes of a header.
abbrev pub header_bytes : ℕ → ℕ → List ℕ
header_bytes h n = h ∷ n / 2 ^ 24 ∷ n / 2 ^ 16 % 256 ∷ n / 2 ^ 8 % 256 ∷ n % 256 ∷ []

joined :
    (n : ℕ)
    → n / 2 ^ 24 * 2 ^ 24 + n / 2 ^ 16 % 256 * 2 ^ 16 + n / 2 ^ 8 % 256 * 2 ^ 8 + n % 256 ≡ n
joined n = omega arith

eq_self : (n : ℕ) → (n == n) ≡ true
eq_self n = ground arith

recv_header :
    (loads : Loads) (self : Fields) (h n : ℕ) (s : Stream)
    → recv loads self (header_bytes h n ∷ s) ≡ recv_body loads self h n s
unfolding recv recv_bytes unpack
recv_header loads self h n s = rw (joined n) refl

decode_whole :
    (loads : Loads) (p : List ℕ) (d : Fields)
    → IsPayload d
    → loads p ≡ some (dict d)
    → decode loads (length p) end p ≡ ok d
unfolding decode
decode_whole loads p d clean l = rw (eq_self (length p), l) (ap ok (update-end d clean))

recv_body_whole :
    (loads : Loads) (h : ℕ) (p : List ℕ) (d : Fields) (s : Stream)
    → 0 < h
    → 0 < length p
    → IsPayload d
    → loads p ≡ some (dict d)
    → recv_body loads end h (length p) (p ∷ s) ≡ (ok (h, d), s)
unfolding recv_body recv_bytes
recv_body_whole loads h p d s hp lp clean l =
    ground (arith, take_all p, drop_all p, decode_whole loads p d clean l)

drop_more {ℓ} : {A : Type ℓ} (n : ℕ) (xs : List A) → length xs ≤ n → drop n xs ≡ []
drop_more zero [] h = refl
drop_more zero (x ∷ xs) h = absurd (omega arith)
drop_more (suc n) [] h = refl
drop_more (suc n) (x ∷ xs) h = drop_more n xs (omega arith)

-- A payload of n bytes of which a first piece holds fewer is refused, although the rest is still to
-- come: what is left in the socket is then read as if it were the next message.
pub recv_split_payload :
    (loads : Loads) (self : Fields) (h n : ℕ) (p : List ℕ) (s : Stream)
    → 0 < h
    → length p < n
    → recv loads self (header_bytes h n ∷ p ∷ s) ≡ (err (os_error 0), s)
unfolding recv_body recv_bytes decode
recv_split_payload loads self h n p s hp short =
    rw recv_header (ground (arith, drop_more n p (omega arith), length_of_take n p short))

send_empty : (dumps : Dumps) (h : ℕ) → h < 256 → send dumps h end ≡ ok (header_bytes h 0 ∷ [])
unfolding send pack
send_empty dumps h hb = ground arith

recv_body_empty :
    (loads : Loads) (self : Fields) (h : ℕ) (s : Stream)
    → 0 < h
    → recv_body loads self h 0 s ≡ (ok (h, self), s)
unfolding recv_body
recv_body_empty loads self h s hp = ground arith

send_field :
    (dumps : Dumps) (h : ℕ) (k : String) (v : Value) (d : Fields)
    → h < 256
    → length (dumps (field k v d)) < 2 ^ 32
    → send dumps h (field k v d)
      ≡ ok (header_bytes h (length (dumps (field k v d))) ∷ dumps (field k v d) ∷ [])
unfolding send pack
send_field dumps h k v d hb lb = ground arith

-- A message with a header from 1 to 255 and a payload of names that are not reserved, whose JSON has
-- less than 2^32 bytes and is read back by `json` as it was, is sent without an error; and the reader
-- at the other end, where each write comes in one piece, gets that header and payload and leaves
-- what follows in the socket.
pub recv-send :
    (dumps : Dumps) (loads : Loads) (h : ℕ) (d : Fields) (s : Stream)
    → 0 < h
    → h < 256
    → IsPayload d
    → 0 < length (dumps d)
    → length (dumps d) < 2 ^ 32
    → loads (dumps d) ≡ some (dict d)
    → (w : Stream) × (send dumps h d ≡ ok w) × (recv loads end (w ++ s) ≡ (ok (h, d), s))
recv-send dumps loads h end s hp hb clean lp lb l = (
  header_bytes h 0 ∷ [],
  send_empty dumps h hb,
  recv_header loads end h 0 s ∙ recv_body_empty loads end h s hp,
)
recv-send dumps loads h (field k v d) s hp hb clean lp lb l =
    let p : List ℕ = dumps (field k v d) in
    (
      header_bytes h (length p) ∷ p ∷ [],
      send_field dumps h k v d hb lb,
      recv_header loads end h (length p) (p ∷ s)
          ∙ recv_body_whole loads h p (field k v d) s hp lp clean l,
    )
