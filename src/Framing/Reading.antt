-- ===== src/Framing/Reading.antt =====
-- Decoding reads no byte out of range and always ends.
use mindoo_db.Base.{
  ℕ, zero, suc, ◌+◌, ◌≤◌, ◌≡◌, ◌≢◌, refl, Option, [], ◌∷◌, ltb, length, take, drop, arith,
  Bool-cases, inl, inr, ◌⊎◌, ap, ◌∙◌,
}
use mindoo_db.Entry.{Bytes}
use mindoo_db.Framing.{
  ChunkName, header, entry_metadata, entry_payload, DecodeError, out_of_fuel, Result, ok, throw,
  ◌>>=◌, get_uint32, read_chunk, BinaryEntryFrame, parsed, decode_frame, decode_frames,
  decode_binary_entry_message,
}

length-take : (n : ℕ) (bs : Bytes) → n ≤ length bs → length (take n bs) ≡ n
length-take zero bs h = refl
length-take (suc n) [] h = absurd (omega arith)
length-take (suc n) (b ∷ bs) h = ap suc (length-take n bs (omega arith))

length-drop : (n : ℕ) (bs : Bytes) → n ≤ length bs → length (drop n bs) + n ≡ length bs
length-drop zero bs h = omega arith
length-drop (suc n) [] h = absurd (omega arith)
length-drop (suc n) (b ∷ bs) h = omega (arith, length-drop n bs)

-- A chunk that is read lies within the bytes, right behind its length prefix: the offset advances
-- by four and the length of the chunk, and stays in range.
pub read_chunk_bounds :
    (bs : Bytes) (offset : ℕ) (what : ChunkName) (chunk : Bytes) (offset' : ℕ)
    → read_chunk bs offset what ≡ ok (chunk, offset')
    → (offset' ≡ offset + 4 + length chunk) × (offset' ≤ length bs)
unfolding read_chunk
read_chunk_bounds bs offset what chunk offset' h = ground (
  arith,
  length-take (get_uint32 (drop offset bs)) (drop (offset + 4) bs),
  length-drop (offset + 4) bs,
)

-- A prefix or a chunk that does not fit is reported, and nothing else is.
read_chunk-ne-out_of_fuel :
    (bs : Bytes) (offset : ℕ) (what : ChunkName) → read_chunk bs offset what ≢ throw out_of_fuel
unfolding read_chunk
read_chunk-ne-out_of_fuel bs offset what = ground arith

Result-cases {ℓ} :
    {A : Type ℓ} (r : Result A) → ((a : A) × (r ≡ ok a)) ⊎ ((e : DecodeError) × (r ≡ throw e))
Result-cases (ok a) = inl (a, refl)
Result-cases (throw e) = inr (e, refl)

-- A chain of steps fails in one of its steps, and succeeds in all of them.
bind-ne-throw {ℓ} :
    {A B : Type ℓ} {d : DecodeError} (r : Result A) (f : A → Result B)
    → r ≢ throw d
    → ((a : A) → f a ≢ throw d)
    → (r >>= f) ≢ throw d
bind-ne-throw (ok a) f h k = k a
bind-ne-throw (throw e) f h k = λ p. h (cc)

bind-eq-ok {ℓ} :
    {A B : Type ℓ} {b : B} (r : Result A) (f : A → Result B)
    → (r >>= f) ≡ ok b
    → (a : A) × (r ≡ ok a) × (f a ≡ ok b)
bind-eq-ok (ok a) f h = (a, refl, h)
bind-eq-ok (throw e) f h = absurd (cc)

module _ {Json : Type 0} (parse_json : Bytes → Option Json) where
  parsed-ne-out_of_fuel : (bs : Bytes) → parsed parse_json bs ≢ throw out_of_fuel
  unfolding parsed
  parsed-ne-out_of_fuel bs = ground arith

  decode_frame-ne-out_of_fuel :
      (bs : Bytes) (offset : ℕ) → decode_frame parse_json bs offset ≢ throw out_of_fuel
  unfolding decode_frame
  decode_frame-ne-out_of_fuel bs offset =
      bind-ne-throw (read_chunk bs offset entry_metadata) _
        (read_chunk-ne-out_of_fuel bs offset entry_metadata)
        (λ (m, i).
          bind-ne-throw (read_chunk bs i entry_payload) _
            (read_chunk-ne-out_of_fuel bs i entry_payload)
            (λ (p, k). bind-ne-throw (parsed parse_json m) _ (parsed-ne-out_of_fuel m) (λ j q. cc)))

  -- A round of the loop moves the offset on by the two prefixes at least.
  decode_frame-advances :
      (bs : Bytes) (offset : ℕ) (e : BinaryEntryFrame Json) (offset' : ℕ)
      → decode_frame parse_json bs offset ≡ ok (e, offset')
      → (offset + 8 ≤ offset') × (offset' ≤ length bs)
  unfolding decode_frame
  decode_frame-advances bs offset e offset' h =
      let ((m, i), first, h') = bind-eq-ok (read_chunk bs offset entry_metadata) _ h in
      let ((p, k), second, h'') = bind-eq-ok (read_chunk bs i entry_payload) _ h' in
      let (j, _, last) = bind-eq-ok (parsed parse_json m) _ h'' in
      ground (
        arith,
        last,
        read_chunk_bounds bs offset entry_metadata m i first,
        read_chunk_bounds bs i entry_payload p k second,
      )

  decode_frames-ne-out_of_fuel :
      (fuel : ℕ) (bs : Bytes) (offset : ℕ)
      → length bs ≤ fuel + offset
      → decode_frames parse_json fuel bs offset ≢ throw out_of_fuel
  unfolding decode_frames
  decode_frames-ne-out_of_fuel zero bs offset h = ground arith
  decode_frames-ne-out_of_fuel (suc fuel) bs offset h = elim (Bool-cases (ltb offset (length bs))) [
    | inr done ↦ rw (done, decode_frames) (λ p. cc)
    | inl more ↦
        rw (more, decode_frames)
          (elim (Result-cases (decode_frame parse_json bs offset)) [
            | inr (e, failed) ↦
                rw failed (λ p. decode_frame-ne-out_of_fuel bs offset (failed ∙ (cc)))
            | inl ((e, offset'), read) ↦ rw read (
                bind-ne-throw (decode_frames parse_json fuel bs offset') _
                  (decode_frames-ne-out_of_fuel fuel bs offset'
                    (omega (arith, decode_frame-advances bs offset e offset' read)))
                  (λ es q. cc))
          ])
  ]

  -- Decoding ends on every input, well-formed or not: the fuel, one for each byte, is never used up.
  pub decode_terminates :
      (bs : Bytes) → decode_binary_entry_message parse_json bs ≢ throw out_of_fuel
  unfolding decode_binary_entry_message
  decode_terminates bs =
      bind-ne-throw (read_chunk bs 0 header) _ (read_chunk-ne-out_of_fuel bs 0 header)
        (λ (chunk, offset).
          bind-ne-throw (parsed parse_json chunk) _ (parsed-ne-out_of_fuel chunk) (λ h.
            bind-ne-throw (decode_frames parse_json (length bs) bs offset) _
              (decode_frames-ne-out_of_fuel (length bs) bs offset (omega arith)) (λ es q. cc)))
