-- ===== src/Framing/RoundTrip.antt =====
-- Decoding what was encoded gives the message back.
use mindoo_db.Base.{
  ℕ, zero, suc, ◌+◌, ◌^◌, ◌≤◌, ◌<◌, ◌≡◌, refl, ap, ◌∙◌, true, Option, some, List, [], ◌∷◌, ◌++◌,
  ltb, length, take, drop, length-append, append_assoc, append_nil, arith, lt→ltb,
}
use mindoo_db.Entry.{Bytes}
use mindoo_db.Framing.{
  ChunkName, header, entry_metadata, entry_payload, ok, uint32_bytes, chunk_bytes, get_uint32,
  read_chunk, BinaryEntryFrame, BinaryEntryMessage, encode_frames, encode_binary_entry_message,
  parsed, decode_frame, decode_frames, decode_binary_entry_message,
}

-- A length prefix is read back.
get_uint32-uint32_bytes :
    (n : ℕ) (rest : Bytes) → n < 2 ^ 32 → get_uint32 (uint32_bytes n ++ rest) ≡ n
unfolding get_uint32 uint32_bytes
get_uint32-uint32_bytes n rest h = omega arith

drop-append {ℓ} : {A : Type ℓ} (xs ys : List A) → drop (length xs) (xs ++ ys) ≡ ys
drop-append [] ys = refl
drop-append (x ∷ xs) ys = drop-append xs ys

take-append {ℓ} : {A : Type ℓ} (xs ys : List A) → take (length xs) (xs ++ ys) ≡ xs
take-append [] ys = refl
take-append (x ∷ xs) ys = ap (◌∷◌ x) (take-append xs ys)

read_chunk-eq-ok :
    (bs chunk : Bytes) (offset : ℕ) (what : ChunkName)
    → get_uint32 (drop offset bs) ≡ length chunk
    → take (length chunk) (drop (offset + 4) bs) ≡ chunk
    → offset + 4 + length chunk ≤ length bs
    → read_chunk bs offset what ≡ ok (chunk, offset + 4 + length chunk)
unfolding read_chunk
read_chunk-eq-ok bs chunk offset what n c fits = ground arith

length-uint32_bytes : (n : ℕ) → length (uint32_bytes n) ≡ 4
unfolding uint32_bytes
length-uint32_bytes n = refl

-- The chunk that stands behind `front` is read, and the offset behind it returned.
read_chunk-chunk_bytes :
    (front chunk rest : Bytes) (what : ChunkName)
    → length chunk < 2 ^ 32
    → read_chunk (front ++ (chunk_bytes chunk ++ rest)) (length front) what
      ≡ ok (chunk, length front + 4 + length chunk)
unfolding chunk_bytes
read_chunk-chunk_bytes front chunk rest what h =
    let prefix = uint32_bytes (length chunk) in
    let tail = prefix ++ (chunk ++ rest) in
    let regroup : (prefix ++ chunk) ++ rest ≡ tail = append_assoc prefix chunk rest in
    rw regroup (
      read_chunk-eq-ok (front ++ tail) chunk (length front) what
        (rw (drop-append front tail) (get_uint32-uint32_bytes (length chunk) (chunk ++ rest) h))
        (at_chunk prefix (length-uint32_bytes (length chunk)))
        (omega (
          arith,
          length-append front tail,
          length-append prefix (chunk ++ rest),
          length-append chunk rest,
          length-uint32_bytes (length chunk),
        )))
  where
    at_chunk :
        (prefix : Bytes)
        → length prefix ≡ 4
        → take (length chunk) (drop (length front + 4) (front ++ (prefix ++ (chunk ++ rest))))
          ≡ chunk
    at_chunk prefix four =
        rw
          (
            ← append_assoc front prefix (chunk ++ rest),
            ← four,
            ← length-append front prefix,
            drop-append (front ++ prefix) (chunk ++ rest),
          )
          (take-append chunk rest)

module _ {Json : Type 0} (json_bytes : Json → Bytes) (parse_json : Bytes → Option Json)
    (inverse : (j : Json) → parse_json (json_bytes j) ≡ some j) where
  -- Every length fits its prefix of 32 bits.
  abbrev pub FramesFit : List (BinaryEntryFrame Json) → Type 0
  FramesFit [] = Unit {0}
  FramesFit (e ∷ es) =
      (length (json_bytes e.meta) < 2 ^ 32) × (length e.payload < 2 ^ 32) × FramesFit es

  abbrev pub MessageFits : BinaryEntryMessage Json → Type 0
  MessageFits m = (length (json_bytes m.header) < 2 ^ 32) × FramesFit m.entries

  parsed-json_bytes : (j : Json) → parsed parse_json (json_bytes j) ≡ ok j
  unfolding parsed
  parsed-json_bytes j = rw (inverse j, parsed)

  length-chunk_bytes : (chunk : Bytes) → length (chunk_bytes chunk) ≡ 4 + length chunk
  unfolding chunk_bytes uint32_bytes
  length-chunk_bytes chunk = omega arith

  -- The offset behind a frame that starts at `offset`.
  abbrev behind : ℕ → BinaryEntryFrame Json → ℕ
  behind offset e = offset + 4 + length (json_bytes e.meta) + 4 + length e.payload

  decode_frame-encode :
      (front : Bytes) (e : BinaryEntryFrame Json) (rest : Bytes)
      → length (json_bytes e.meta) < 2 ^ 32
      → length e.payload < 2 ^ 32
      → decode_frame parse_json
          (front ++ (chunk_bytes (json_bytes e.meta) ++ (chunk_bytes e.payload ++ rest)))
          (length front)
        ≡ ok (e, behind (length front) e)
  unfolding decode_frame
  decode_frame-encode front e rest h k =
      let first = chunk_bytes (json_bytes e.meta) in
      let second = chunk_bytes e.payload in
      let at : length front + 4 + length (json_bytes e.meta) ≡ length (front ++ first) =
        omega (arith, length-append front first, length-chunk_bytes (json_bytes e.meta)) in
      let read : read_chunk (front ++ (first ++ (second ++ rest)))
            (length front + 4 + length (json_bytes e.meta)) entry_payload
          ≡ ok (e.payload, behind (length front) e) =
        rw (← append_assoc front first (second ++ rest), at)
          (read_chunk-chunk_bytes (front ++ first) e.payload rest entry_payload k) in
      rw (
        read_chunk-chunk_bytes front (json_bytes e.meta) (second ++ rest) entry_metadata h,
        read,
        parsed-json_bytes e.meta,
      )

  decode_frames-encode :
      (fuel : ℕ) (front : Bytes) (es : List (BinaryEntryFrame Json))
      → FramesFit es
      → length (encode_frames json_bytes es) ≤ fuel
      → decode_frames parse_json fuel (front ++ encode_frames json_bytes es) (length front) ≡ ok es
  unfolding decode_frames encode_frames
  decode_frames-encode zero front [] fit enough = ground (arith, append_nil front)
  decode_frames-encode (suc fuel) front [] fit enough = ground (arith, append_nil front)
  decode_frames-encode zero front (e ∷ es) fit enough = absurd (
      omega (
        arith,
        length-append (chunk_bytes (json_bytes e.meta))
            (chunk_bytes e.payload ++ encode_frames json_bytes es),
        length-chunk_bytes (json_bytes e.meta),
      ))
  decode_frames-encode (suc fuel) front (e ∷ es) fit enough =
      let first = chunk_bytes (json_bytes e.meta) in
      let second = chunk_bytes e.payload in
      let tail = encode_frames json_bytes es in
      let whole : length (front ++ (first ++ (second ++ tail)))
          ≡ length front + (4 + length (json_bytes e.meta)) + (4 + length e.payload) + length tail =
        omega (
          arith,
          length-append front (first ++ (second ++ tail)),
          length-append first (second ++ tail),
          length-append second tail,
          length-chunk_bytes (json_bytes e.meta),
          length-chunk_bytes e.payload,
        ) in
      let more : ltb (length front) (length (front ++ (first ++ (second ++ tail)))) ≡ true =
        lt→ltb _ _ (omega (arith, whole)) in
      let regroup : front ++ (first ++ (second ++ tail)) ≡ (front ++ (first ++ second)) ++ tail =
        simp append_assoc in
      let at : behind (length front) e ≡ length (front ++ (first ++ second)) = omega (
        arith,
        length-append front (first ++ second),
        length-append first second,
        length-chunk_bytes (json_bytes e.meta),
        length-chunk_bytes e.payload,
      ) in
      let rest : decode_frames parse_json fuel (front ++ (first ++ (second ++ tail)))
            (behind (length front) e)
          ≡ ok es =
        rw (regroup, at)
          (decode_frames-encode fuel (front ++ (first ++ second)) es fit.2 (
            omega (
              arith,
              length-append first (second ++ tail),
              length-append second tail,
              length-chunk_bytes (json_bytes e.meta),
            ))) in
      rw (more, decode_frame-encode front e tail fit.0 fit.1, rest, decode_frames)

  -- A message whose lengths fit 32 bits is decoded as it was encoded.
  pub decode-encode :
      (m : BinaryEntryMessage Json)
      → MessageFits m
      → decode_binary_entry_message parse_json (encode_binary_entry_message json_bytes m) ≡ ok m
  unfolding decode_binary_entry_message encode_binary_entry_message
  decode-encode m fit =
      let head = chunk_bytes (json_bytes m.header) in
      let tail = encode_frames json_bytes m.entries in
      let read : read_chunk (head ++ tail) 0 header ≡ ok (json_bytes m.header, length head) =
        read_chunk-chunk_bytes [] (json_bytes m.header) tail header fit.0
        ∙ ap (λ n. ok (json_bytes m.header, n))
            (omega (arith, length-chunk_bytes (json_bytes m.header))) in
      rw (
        read,
        parsed-json_bytes m.header,
        decode_frames-encode (length (head ++ tail)) head m.entries fit.1
            (omega (arith, length-append head tail)),
      )
