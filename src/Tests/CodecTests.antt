-- ===== src/Tests/CodecTests.antt =====
-- The two wire formats at sample data. Bytes stand for JSON and base64 text.
use mindoo_db.Base.{◌≡◌, ◌≢◌, refl, Option, some, [], ◌∷◌, arith}
use mindoo_db.Entry.{Bytes}
use mindoo_db.Framing.{
  BinaryEntryMessage, ok, throw, out_of_fuel, encode_binary_entry_message,
  decode_binary_entry_message,
}
use mindoo_db.Framing.Reading.{decode_terminates}
use mindoo_db.Framing.RoundTrip.{decode-encode}
use mindoo_db.WireCodec.{serialize_store_entry, deserialize_store_entry}
use mindoo_db.WireCodec.RoundTrip.{transferred, deserialize-serialize}
use mindoo_db.Tests.{entry_a}

abbrev as_bytes : Bytes → Bytes
as_bytes b = b

abbrev as_json : Bytes → Option Bytes
as_json b = some b

abbrev message : BinaryEntryMessage Bytes
message = record {
  header = 1 ∷ 2 ∷ [];
  entries =
      record { meta = 3 ∷ []; payload = 4 ∷ 5 ∷ 6 ∷ [] } ∷ record { meta = []; payload = [] } ∷ [];
}

decode-encode_example :
    decode_binary_entry_message as_json (encode_binary_entry_message as_bytes message) ≡ ok message
decode-encode_example =
    decode-encode as_bytes as_json (λ j. refl) message
      (omega arith, (omega arith, omega arith, (omega arith, omega arith, tt)))

decode_terminates_example :
    decode_binary_entry_message as_json (0 ∷ 0 ∷ 0 ∷ 1 ∷ 9 ∷ 0 ∷ []) ≢ throw out_of_fuel
decode_terminates_example = decode_terminates as_json (0 ∷ 0 ∷ 0 ∷ 1 ∷ 9 ∷ 0 ∷ [])

deserialize-serialize_example :
    deserialize_store_entry as_bytes (serialize_store_entry as_bytes entry_a)
    ≡ record entry_a { metadata = transferred entry_a.metadata }
deserialize-serialize_example = deserialize-serialize as_bytes as_bytes (λ b. refl) refl entry_a
