-- ===== src/AclId/RoundTrip.antt =====
-- Decoding what was encoded, and the characters of the result.
use mindoo_db.Base.Tables.{passes_up_to, passes_up_to_at}
use mindoo_db.Base.{
  ℕ, ◌≡◌, ◌<◌, ◌/◌, ◌%◌, refl, ap, ◌∙◌, Bool, true, false, ◌||◌, List, [], ◌∷◌, ◌++◌, JsString,
  ◌==◌, ==_iff, Bool-cases, inl, inr, all, All, arith,
}
use mindoo_db.AclId.{
  is_plain, hex_digit, encode_byte, encode_bytes, parsed_byte, decode_bytes,
  encode_acl_id_component, decode_acl_id_component,
}

abbrev unescapes : ℕ → Bool
unescapes b = parsed_byte (hex_digit (b / 16) ∷ hex_digit (b % 16) ∷ []) == b

every_byte_unescapes : passes_up_to unescapes 256 ≡ true
unfolding passes_up_to parsed_byte
every_byte_unescapes = refl

escaped_back : (b : ℕ) → b < 256 → parsed_byte (hex_digit (b / 16) ∷ hex_digit (b % 16) ∷ []) ≡ b
escaped_back b h = (==_iff _ b).0 (passes_up_to_at unescapes 256 b h every_byte_unescapes)

-- `[a-z0-9_]`
abbrev pub is_id_character : ℕ → Bool
is_id_character c = is_plain c || (c == b'_')

-- A character that is no underscore stands for itself.
decode_bytes-plain :
    (c : ℕ) (cs : JsString)
    → (c == b'_') ≡ false
    → decode_bytes (c ∷ cs) ≡ (c % 256) ∷ decode_bytes cs
unfolding decode_bytes
decode_bytes-plain c [] h = ground arith
decode_bytes-plain c (a ∷ []) h = ground arith
decode_bytes-plain c (a ∷ b ∷ cs) h = ground arith

decode_bytes-encode_byte :
    (byte : ℕ) (rest : JsString)
    → byte < 256
    → decode_bytes (encode_byte byte ++ rest) ≡ byte ∷ decode_bytes rest
unfolding encode_byte
decode_bytes-encode_byte byte rest h = elim (Bool-cases (is_plain byte)) [
  | inl plain ↦
      rw plain (
        decode_bytes-plain byte rest (ground arith) ∙ ap (λ b. b ∷ decode_bytes rest) (omega arith))
  | inr other ↦
      rw other (unfold decode_bytes in ap (λ b. b ∷ decode_bytes rest) (escaped_back byte h))
]

decode_bytes-encode_bytes :
    (bytes : List ℕ) → All (λ b. b < 256) bytes → decode_bytes (encode_bytes bytes) ≡ bytes
unfolding encode_bytes
decode_bytes-encode_bytes [] h = unfold decode_bytes in refl
decode_bytes-encode_bytes (byte ∷ bytes) h =
    decode_bytes-encode_byte byte (encode_bytes bytes) h.0
    ∙ ap (◌∷◌ byte) (decode_bytes-encode_bytes bytes h.1)

abbrev has_id_characters : ℕ → Bool
has_id_characters b = all is_id_character (encode_byte b)

every_byte_has_id_characters : passes_up_to has_id_characters 256 ≡ true
unfolding passes_up_to encode_byte
every_byte_has_id_characters = refl

all-append :
    (p : ℕ → Bool) (xs ys : List ℕ) → all p xs ≡ true → all p ys ≡ true → all p (xs ++ ys) ≡ true
all-append p [] ys h k = k
all-append p (x ∷ xs) ys h k = ground (arith, all-append p xs ys)

all-encode_bytes :
    (bytes : List ℕ) → All (λ b. b < 256) bytes → all is_id_character (encode_bytes bytes) ≡ true
unfolding encode_bytes
all-encode_bytes [] h = refl
all-encode_bytes (byte ∷ bytes) h =
    all-append is_id_character (encode_byte byte) (encode_bytes bytes)
      (passes_up_to_at has_id_characters 256 byte h.0 every_byte_has_id_characters)
      (all-encode_bytes bytes h.1)

-- If `TextEncoder` gives bytes and `TextDecoder` gives the text back, decoding an encoded component
-- gives the component back, and an encoded component has only lower-case letters, digits and underscores.
pub decode_acl_id_component-encode_acl_id_component :
    (text_encode : JsString → List ℕ) (text_decode : List ℕ → JsString) (raw : JsString)
    → All (λ b. b < 256) (text_encode raw)
    → text_decode (text_encode raw) ≡ raw
    → (decode_acl_id_component text_decode (encode_acl_id_component text_encode raw) ≡ raw)
      × (all is_id_character (encode_acl_id_component text_encode raw) ≡ true)
unfolding decode_acl_id_component encode_acl_id_component
decode_acl_id_component-encode_acl_id_component text_encode text_decode raw bytes back = (
  ap text_decode (decode_bytes-encode_bytes (text_encode raw) bytes) ∙ back,
  all-encode_bytes (text_encode raw) bytes,
)
