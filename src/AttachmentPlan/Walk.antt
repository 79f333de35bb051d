-- ===== src/AttachmentPlan/Walk.antt =====
-- The walk over the chunk chain: it ends, and what it collects tiles the file from the tail.
use mindoo_db.Base.{
  ℕ, zero, suc, ◌+◌, ◌-◌, ◌≤◌, ◌<◌, ◌≡◌, ◌≢◌, ◌⊎◌, refl, ◌∙◌, Option, some, none, List, [], ◌∷◌,
  reverse, JsString, ltb, lt→ltb, arith, Bool-cases, Option-cases, inl, inr,
}
use mathlib.Core.List.{reverse-append}
use mindoo_db.Entry.{attachment_chunk, StoreEntryMetadata}
use mindoo_db.AttachmentPlan.{
  NormalizedAttachmentReadRange, AttachmentReadPlanChunk, PlanError, out_of_fuel, Result, ok, throw,
  ◌>>=◌, validate_attachment_chunk_metadata, truthy, previous_chunk, push_overlapping, walk,
}

-- Chunks that lie side by side from `lo` on, none of them empty.
abbrev pub Tiles : ℕ → List AttachmentReadPlanChunk → Type 0
Tiles lo [] = Unit {0}
Tiles lo (c ∷ cs) =
    (c.start_byte ≡ lo)
    × (c.end_byte_exclusive ≡ c.start_byte + c.original_size)
    × (0 < c.original_size)
    × Tiles c.end_byte_exclusive cs

abbrev pub last_of :
    AttachmentReadPlanChunk → List AttachmentReadPlanChunk → AttachmentReadPlanChunk
last_of c [] = c
last_of c (d ∷ ds) = last_of d ds

-- A valid chunk's metadata are those that the store has, of the right type, of a positive size.
validated :
    (o : Option StoreEntryMetadata) (id : JsString) (m : StoreEntryMetadata)
    → validate_attachment_chunk_metadata o id ≡ ok m
    → (o ≡ some m) × (m.entry_type ≡ attachment_chunk) × (0 < m.original_size)
unfolding validate_attachment_chunk_metadata
validated none id m h = cc
validated (some n) id m h = ground arith

validate-ne-out_of_fuel :
    (o : Option StoreEntryMetadata) (id : JsString)
    → validate_attachment_chunk_metadata o id ≢ throw out_of_fuel
unfolding validate_attachment_chunk_metadata
validate-ne-out_of_fuel none id = λ h. cc
validate-ne-out_of_fuel (some n) id = ground arith

pub Result-cases {ℓ} :
    {A : Type ℓ} (r : Result A) → ((a : A) × (r ≡ ok a)) ⊎ ((e : PlanError) × (r ≡ throw e))
Result-cases (ok a) = inl (a, refl)
Result-cases (throw e) = inr (e, refl)

-- The store has the chunks, under their ids and with their sizes.
abbrev pub Stored : (JsString → Option StoreEntryMetadata) → List AttachmentReadPlanChunk → Type 0
Stored metadata_of [] = Unit {0}
Stored metadata_of (c ∷ cs) =
    ((m : StoreEntryMetadata) × (metadata_of c.id ≡ some m)
      × (m.entry_type ≡ attachment_chunk)
      × (m.original_size ≡ c.original_size))
    × Stored metadata_of cs

-- What is collected while the bytes from `chunk_end` on are accounted for.
abbrev pub Covered : NormalizedAttachmentReadRange → ℕ → List AttachmentReadPlanChunk → Type 0
Covered range chunk_end [] = range.end_byte_exclusive ≤ chunk_end
Covered range chunk_end (c ∷ cs) =
    Tiles chunk_end (c ∷ cs)
    × (range.start_byte < c.end_byte_exclusive)
    × (chunk_end < range.end_byte_exclusive)
    × (range.end_byte_exclusive ≤ (last_of c cs).end_byte_exclusive)
    × ((last_of c cs).start_byte < range.end_byte_exclusive)

module _ (metadata_of : JsString → Option StoreEntryMetadata) (size : ℕ)
    (range : NormalizedAttachmentReadRange) where
  open range use {start_byte, end_byte_exclusive}

  cons-Covered :
      (c : AttachmentReadPlanChunk) (cs : List AttachmentReadPlanChunk)
      → c.end_byte_exclusive ≡ c.start_byte + c.original_size
      → 0 < c.original_size
      → start_byte < c.end_byte_exclusive
      → c.start_byte < end_byte_exclusive
      → Covered range c.end_byte_exclusive cs
      → Covered range c.start_byte (c ∷ cs)
  cons-Covered c [] e p s t cov = ground arith
  cons-Covered c (d ∷ ds) e p s t cov = ground arith

  skip-Covered :
      (lo chunk_end : ℕ) (cs : List AttachmentReadPlanChunk)
      → end_byte_exclusive ≤ lo
      → lo ≤ chunk_end
      → Covered range chunk_end cs
      → Covered range lo cs
  skip-Covered lo chunk_end [] e le cov = e
  skip-Covered lo chunk_end (d ∷ ds) e le cov = absurd (omega (arith, cov.2))

  -- One round, on the chunks in file order.
  push-Covered :
      (id : JsString) (m : StoreEntryMetadata) (chunk_end : ℕ)
      (chunks : List AttachmentReadPlanChunk)
      → metadata_of id ≡ some m
      → m.entry_type ≡ attachment_chunk
      → 0 < m.original_size
      → m.original_size ≤ chunk_end
      → start_byte < chunk_end
      → Covered range chunk_end (reverse chunks)
      → Stored metadata_of (reverse chunks)
      → Covered range
          (chunk_end - m.original_size)
          (reverse (push_overlapping metadata_of size range id m chunk_end chunks))
        × Stored metadata_of
            (reverse (push_overlapping metadata_of size range id m chunk_end chunks))
  unfolding push_overlapping
  push-Covered id m chunk_end chunks found type positive fits more cov stored =
      let c : AttachmentReadPlanChunk = record {
        id = id;
        start_byte = chunk_end - m.original_size;
        end_byte_exclusive = chunk_end;
        original_size = m.original_size;
      } in
      elim (Bool-cases (ltb (chunk_end - m.original_size) end_byte_exclusive)) [
        | inl overlaps ↦
            rw
              (
                lt→ltb start_byte chunk_end more,
                overlaps,
                push_overlapping,
                reverse-append chunks (c ∷ []),
              )
              (
                cons-Covered c (reverse chunks) (omega arith) positive more (ground arith) cov,
                ((m, found, type, refl), stored),
              )
        | inr apart ↦
            rw (lt→ltb start_byte chunk_end more, apart, push_overlapping)
              (
                skip-Covered (chunk_end - m.original_size) chunk_end (reverse chunks) (ground arith)
                    (omega arith) cov,
                stored,
              )
      ]

  pub walk-Covered :
      (fuel : ℕ) (current : Option JsString) (chunk_end : ℕ)
      (chunks out : List AttachmentReadPlanChunk)
      → walk metadata_of size range fuel current chunk_end chunks ≡ ok out
      → Covered range chunk_end (reverse chunks)
      → Stored metadata_of (reverse chunks)
      → (lo : ℕ) × (lo ≤ start_byte)
        × Covered range lo (reverse out)
        × Stored metadata_of (reverse out)
  unfolding walk
  walk-Covered zero current chunk_end chunks out h cov stored = cc
  walk-Covered (suc fuel) current chunk_end chunks out h cov stored =
      elim (Bool-cases (ltb start_byte chunk_end)) [
        | inr done ↦
            let same : chunks ≡ out = ground arith in
            (chunk_end, ground arith, rw (← same) cov, rw (← same) stored)
        | inl more ↦ elim (Option-cases (truthy current)) [
          | inl end ↦ absurd (cc (rw (more, end, walk) at h))
          | inr (id, at) ↦
              elim (Result-cases (validate_attachment_chunk_metadata (metadata_of id) id)) [
                | inr (e, bad) ↦ absurd (cc (rw (more, at, bad, walk) at h))
                | inl (m, good) ↦ elim (Bool-cases (ltb chunk_end m.original_size)) [
                  | inl big ↦ absurd (cc (rw (more, at, good, ◌>>=◌, big, walk) at h))
                  | inr fits ↦
                      let (found, type, positive) = validated (metadata_of id) id m good in
                      let (cov', stored') =
                        push-Covered id m chunk_end chunks found type positive (ground arith)
                          (ground arith) cov stored in
                      walk-Covered fuel (previous_chunk m) (chunk_end - m.original_size)
                        (push_overlapping metadata_of size range id m chunk_end chunks) out
                        (rw (more, at, good, ◌>>=◌, fits, walk) at h) cov' stored'
                ]
              ]
        ]
      ]

  -- Each round takes a byte at least from what is left of the file.
  pub walk_terminates :
      (fuel : ℕ) (current : Option JsString) (chunk_end : ℕ) (chunks : List AttachmentReadPlanChunk)
      → chunk_end < fuel
      → walk metadata_of size range fuel current chunk_end chunks ≢ throw out_of_fuel
  unfolding walk
  walk_terminates zero current chunk_end chunks h = absurd (omega arith)
  walk_terminates (suc fuel) current chunk_end chunks h =
      elim (Bool-cases (ltb start_byte chunk_end)) [
        | inr done ↦ rw (done, walk) (λ p. cc)
        | inl more ↦ elim (Option-cases (truthy current)) [
          | inl end ↦ rw (more, end, walk) (λ p. cc)
          | inr (id, at) ↦
              elim (Result-cases (validate_attachment_chunk_metadata (metadata_of id) id)) [
                | inr (e, bad) ↦
                    rw (more, at, bad, walk)
                      (λ p. validate-ne-out_of_fuel (metadata_of id) id (bad ∙ (cc)))
                | inl (m, good) ↦ elim (Bool-cases (ltb chunk_end m.original_size)) [
                  | inl big ↦ rw (more, at, good, ◌>>=◌, big, walk) (λ p. cc)
                  | inr fits ↦
                      rw (more, at, good, ◌>>=◌, fits, walk)
                        (walk_terminates fuel (previous_chunk m) (chunk_end - m.original_size) _
                          (ground (arith, validated (metadata_of id) id m good)))
                ]
              ]
        ]
      ]
