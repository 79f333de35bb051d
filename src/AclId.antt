-- ===== src/AclId.antt =====
-- The component encoding of src/core/accesscontrol/types.ts, by which names stand in document ids:
-- `encodeAclIdComponent` and `decodeAclIdComponent`. `TextEncoder` and `TextDecoder` are parameters.
pub mod RoundTrip
use mindoo_db.Base.{
  ℕ, ◌+◌, ◌-◌, ◌*◌, ◌/◌, ◌%◌, Bool, true, false, ◌&&◌, ◌||◌, Option, some, none, List, [], ◌∷◌,
  ◌++◌, JsString, or_else, if◌then◌else◌, ltb, leb, ◌==◌,
}
use mindoo_db.Directory.{is_space}

abbrev pub is_plain : ℕ → Bool
is_plain byte = (leb 0x61 byte && leb byte 0x7a) || (leb 0x30 byte && leb byte 0x39)

-- A digit of `toString(16)`.
abbrev pub hex_digit : ℕ → ℕ
hex_digit d = if ltb d 10 then b'0' + d else b'a' + (d - 10)

-- `"_" + byte.toString(16).padStart(2, "0")` for the bytes that are not passed through.
unfoldable pub encode_byte : ℕ → JsString
encode_byte byte =
    if is_plain byte then byte ∷ [] else b'_' ∷ hex_digit (byte / 16) ∷ hex_digit (byte % 16) ∷ []

unfoldable pub encode_bytes : List ℕ → JsString
unfolding encode_byte
encode_bytes [] = []
encode_bytes (byte ∷ bytes) = encode_byte byte ++ encode_bytes bytes

-- A hexadecimal digit of either case.
abbrev pub hex_value : ℕ → Option ℕ
hex_value c =
    if leb b'0' c && leb c b'9'
    then some (c - b'0')
    else if leb b'a' c && leb c b'f'
    then some (c - b'a' + 10)
    else if leb b'A' c && leb c b'F'
    then some (c - b'A' + 10)
    else none

-- The value of the digits up to the first other character, none if there is no digit.
abbrev pub two_digits : Option ℕ → Option ℕ → Option ℕ
two_digits none b = none
two_digits (some a) none = some a
two_digits (some a) (some b) = some (a * 16 + b)

-- What `new Uint8Array` stores of `parseInt(hex, 16)` for at most two characters, 0 where it is NaN: a
-- space or a plus sign before the digit is skipped, and a minus sign negates it.
unfoldable pub parsed_byte : JsString → ℕ
unfolding is_space
parsed_byte [] = 0
parsed_byte (a ∷ []) = or_else (hex_value a) 0
parsed_byte (a ∷ b ∷ _) =
    if is_space a || (a == b'+')
    then or_else (hex_value b) 0
    else if a == b'-'
    then (256 - or_else (hex_value b) 0) % 256
    else or_else (two_digits (hex_value a) (hex_value b)) 0

unfoldable pub decode_bytes : JsString → List ℕ
unfolding parsed_byte
decode_bytes [] = []
decode_bytes (c ∷ []) = (if c == b'_' then parsed_byte [] else c % 256) ∷ []
decode_bytes (c ∷ a ∷ []) =
    let rest = decode_bytes (a ∷ []) in
    if c == b'_' then parsed_byte (a ∷ []) ∷ [] else (c % 256) ∷ rest
decode_bytes (c ∷ a ∷ b ∷ cs) =
    let escaped = parsed_byte (a ∷ b ∷ []) ∷ decode_bytes cs in
    let plain = (c % 256) ∷ decode_bytes (a ∷ b ∷ cs) in if c == b'_' then escaped else plain

unfoldable pub encode_acl_id_component : (JsString → List ℕ) → JsString → JsString
unfolding encode_bytes
encode_acl_id_component text_encode raw = encode_bytes (text_encode raw)

unfoldable pub decode_acl_id_component : (List ℕ → JsString) → JsString → JsString
unfolding decode_bytes
decode_acl_id_component text_decode encoded = text_decode (decode_bytes encoded)
