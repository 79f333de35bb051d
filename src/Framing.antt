-- ===== src/Framing.antt =====
-- src/core/appendonlystores/network/binaryEntryFraming.ts: the length-prefixed binary format of
-- entry batches. JSON and UTF-8 come with the platform: `json_bytes` stands for
-- `textEncoder.encode(JSON.stringify(…))` and `parse_json` for `JSON.parse(textDecoder.decode(…))`,
-- which throws on malformed text.
pub mod Size
pub mod Reading
pub mod RoundTrip
use mindoo_db.Base.{
  ℕ, zero, suc, ◌+◌, ◌*◌, ◌/◌, ◌%◌, ◌^◌, Bool, true, false, Option, some, none, List, [], ◌∷◌, ◌++◌,
  ltb, length, take, drop, if◌then◌else◌,
}
use mindoo_db.Entry.{Bytes}

pub data ChunkName : Type 0 where
  header entry_metadata entry_payload : ChunkName

pub data DecodeError : Type 0 where
  truncated_length : ChunkName → DecodeError
  truncated_chunk : ChunkName → ℕ → DecodeError
  bad_json : DecodeError
  out_of_fuel : DecodeError

pub data Result {ℓ} (A : Type ℓ) : Type ℓ where
  ok : A → Result A
  throw : DecodeError → Result A

infixl 5 ◌>>=◌
abbrev pub ◌>>=◌ {ℓ κ} : {A : Type ℓ} {B : Type κ} → Result A → (A → Result B) → Result B
ok a >>= f = f a
throw e >>= f = throw e

-- `setUint32(offset, n, false)`: big-endian, the value modulo 2^32.
unfoldable pub uint32_bytes : ℕ → Bytes
uint32_bytes n = (n / 2 ^ 24 % 256) ∷ (n / 2 ^ 16 % 256) ∷ (n / 2 ^ 8 % 256) ∷ (n % 256) ∷ []

-- `getUint32(offset, false)` at the head of the bytes.
unfoldable pub get_uint32 : Bytes → ℕ
get_uint32 (a ∷ b ∷ c ∷ d ∷ _) = a * 2 ^ 24 + b * 2 ^ 16 + c * 2 ^ 8 + d
get_uint32 _ = 0

-- A chunk behind its length.
unfoldable pub chunk_bytes : Bytes → Bytes
chunk_bytes chunk = uint32_bytes (length chunk) ++ chunk

-- `readChunk`: the chunk, and the offset behind it.
unfoldable pub read_chunk : Bytes → ℕ → ChunkName → Result (Bytes × ℕ)
read_chunk bytes offset what =
    if ltb (length bytes) (offset + 4)
    then throw (truncated_length what)
    else let n = get_uint32 (drop offset bytes) in
      if ltb (length bytes) (offset + 4 + n)
      then throw (truncated_chunk what n)
      else ok (take n (drop (offset + 4) bytes), offset + 4 + n)

pub record BinaryEntryFrame (Json : Type 0) : Type 0 where
  pub meta : Json
  pub payload : Bytes

pub record BinaryEntryMessage (Json : Type 0) : Type 0 where
  pub header : Json
  pub entries : List (BinaryEntryFrame Json)

module _ {Json : Type 0} (json_bytes : Json → Bytes) where
  -- The frames, one behind the other; `offset` always stands at the end of what was written.
  unfoldable pub encode_frames : List (BinaryEntryFrame Json) → Bytes
  encode_frames [] = []
  encode_frames (e ∷ es) =
      chunk_bytes (json_bytes e.meta) ++ (chunk_bytes e.payload ++ encode_frames es)

  unfoldable pub encode_binary_entry_message : BinaryEntryMessage Json → Bytes
  unfolding encode_frames
  encode_binary_entry_message m = chunk_bytes (json_bytes m.header) ++ encode_frames m.entries

  -- The loop of `measureBinaryEntryMessage`, with its `total`.
  unfoldable pub measure_frames : ℕ → List (BinaryEntryFrame Json) → ℕ
  measure_frames total [] = total
  measure_frames total (e ∷ es) =
      measure_frames (total + (4 + length (json_bytes e.meta) + 4 + length e.payload)) es

  unfoldable pub measure_binary_entry_message : Json → List (BinaryEntryFrame Json) → ℕ
  unfolding measure_frames
  measure_binary_entry_message h es = measure_frames (4 + length (json_bytes h)) es

module _ {Json : Type 0} (parse_json : Bytes → Option Json) where
  unfoldable pub parsed : Bytes → Result Json
  parsed bytes = elim (parse_json bytes) [ none ↦ throw bad_json | some j ↦ ok j ]

  -- One round of the loop of `decodeBinaryEntryMessage`.
  unfoldable pub decode_frame : Bytes → ℕ → Result (BinaryEntryFrame Json × ℕ)
  unfolding parsed
  decode_frame bytes offset = do
    (meta_chunk, offset') ← read_chunk bytes offset entry_metadata
    (payload, offset'') ← read_chunk bytes offset' entry_payload
    j ← parsed meta_chunk
    ok (record { meta = j; payload = payload }, offset'')

  -- `while (offset < data.byteLength)`, on fuel.
  unfoldable pub decode_frames : ℕ → Bytes → ℕ → Result (List (BinaryEntryFrame Json))
  decode_frames zero bytes offset = elim (ltb offset (length bytes)) [
    | true ↦ throw out_of_fuel
    | false ↦ ok []
  ]
  decode_frames (suc fuel) bytes offset = elim (ltb offset (length bytes)) [
    | false ↦ ok []
    | true ↦ do
      (e, offset') ← decode_frame bytes offset
      es ← decode_frames fuel bytes offset'
      ok (e ∷ es)
  ]

  -- Every round reads eight bytes at least, so the number of bytes is enough fuel.
  unfoldable pub decode_binary_entry_message : Bytes → Result (BinaryEntryMessage Json)
  unfolding decode_frames decode_frame parsed
  decode_binary_entry_message bytes = do
    (header_chunk, offset) ← read_chunk bytes 0 header
    h ← parsed header_chunk
    es ← decode_frames (length bytes) bytes offset
    ok (record { header = h; entries = es })
