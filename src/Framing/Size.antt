-- ===== src/Framing/Size.antt =====
-- The size that `measureBinaryEntryMessage` predicts.
use mindoo_db.Base.{ℕ, ◌+◌, ◌≡◌, List, [], ◌∷◌, ◌++◌, length, length-append, arith}
use mindoo_db.Entry.{Bytes}
use mindoo_db.Framing.{
  uint32_bytes, chunk_bytes, BinaryEntryFrame, BinaryEntryMessage, encode_frames,
  encode_binary_entry_message, measure_frames, measure_binary_entry_message,
}

length-chunk_bytes : (chunk : Bytes) → length (chunk_bytes chunk) ≡ 4 + length chunk
unfolding chunk_bytes uint32_bytes
length-chunk_bytes chunk = omega arith

module _ {Json : Type 0} (json_bytes : Json → Bytes) where
  measure_frames-length :
      (total : ℕ) (es : List (BinaryEntryFrame Json))
      → measure_frames json_bytes total es ≡ total + length (encode_frames json_bytes es)
  unfolding measure_frames encode_frames
  measure_frames-length total [] = omega arith
  measure_frames-length total (e ∷ es) = omega (
    arith,
    measure_frames-length (total + (4 + length (json_bytes e.meta) + 4 + length e.payload)) es,
    length-append (chunk_bytes (json_bytes e.meta))
        (chunk_bytes e.payload ++ encode_frames json_bytes es),
    length-append (chunk_bytes e.payload) (encode_frames json_bytes es),
    length-chunk_bytes (json_bytes e.meta),
    length-chunk_bytes e.payload,
  )

  -- `measureBinaryEntryMessage` returns exactly the number of bytes that
  -- `encodeBinaryEntryMessage` writes.
  pub measure-encode :
      (m : BinaryEntryMessage Json)
      → measure_binary_entry_message json_bytes m.header m.entries
        ≡ length (encode_binary_entry_message json_bytes m)
  unfolding measure_binary_entry_message encode_binary_entry_message
  measure-encode m = omega (
    arith,
    measure_frames-length (4 + length (json_bytes m.header)) m.entries,
    length-append (chunk_bytes (json_bytes m.header)) (encode_frames json_bytes m.entries),
    length-chunk_bytes (json_bytes m.header),
  )
