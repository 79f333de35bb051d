-- ===== src/AttachmentPlan/Covers.antt =====
-- A plan covers the byte range that was asked for, with no chunk too many; planning always ends.
use mindoo_db.Base.{
  ℕ, suc, ◌+◌, ◌≤◌, ◌<◌, ◌≡◌, ◌≢◌, ◌⊎◌, ◌||◌, Option, some, List, [], ◌∷◌, reverse, JsString, ◌==◌,
  arith, Bool-cases, inl, inr, or_else,
}
use mindoo_db.Entry.{StoreEntryMetadata}
use mindoo_db.AttachmentPlan.{
  pos, AttachmentReadPlanOptions, NormalizedAttachmentReadRange, AttachmentReadPlanChunk,
  AttachmentReadPlan, PlanError, out_of_fuel, Result, ok, throw, ◌>>=◌,
  normalize_attachment_read_range, finalize_attachment_read_plan, walk, plan_range,
  plan_attachment_read_by_walking_metadata,
}
use mindoo_db.AttachmentPlan.Walk.{Tiles, last_of, Stored, walk_terminates}

bind-ne-throw {ℓ} :
    {A B : Type ℓ} {d : PlanError} (r : Result A) (f : A → Result B)
    → r ≢ throw d
    → ((a : A) → f a ≢ throw d)
    → (r >>= f) ≢ throw d
bind-ne-throw (ok a) f h k = k a
bind-ne-throw (throw e) f h k = λ p. h (cc)

-- The range that the options ask for in a file of a size: without an end, the rest of the file.
abbrev pub Asks : ℕ → AttachmentReadPlanOptions → ℕ → ℕ → Type 0
Asks size options start end =
    (options.start_byte ≡ pos start) × (or_else options.end_byte_exclusive (pos size) ≡ pos end)

-- A range that passes the tests is the one that was asked for, and lies in the file.
abbrev Normalized : ℕ → AttachmentReadPlanOptions → NormalizedAttachmentReadRange → Type 0
Normalized size options range =
    Asks size options range.start_byte range.end_byte_exclusive
    × ((range.start_byte ≤ range.end_byte_exclusive) × (range.end_byte_exclusive ≤ size))

normalize-ne-out_of_fuel :
    (size : ℕ) (options : AttachmentReadPlanOptions)
    → normalize_attachment_read_range size options ≢ throw out_of_fuel
unfolding normalize_attachment_read_range
normalize-ne-out_of_fuel size options = ground arith

finalize-ne-out_of_fuel :
    (size : ℕ) (range : NormalizedAttachmentReadRange) (cs : List AttachmentReadPlanChunk)
    → finalize_attachment_read_plan size range cs ≢ throw out_of_fuel
unfolding finalize_attachment_read_plan
finalize-ne-out_of_fuel size range cs = ground arith

module _ (metadata_of : JsString → Option StoreEntryMetadata) where
  -- The chunks of a plan for a range that is not empty: they lie side by side, the first holds the
  -- first byte, the last holds the last byte, and the offset leads to the first byte.
  pub record CoversRange (plan : AttachmentReadPlan) (c : AttachmentReadPlanChunk)
      (cs : List AttachmentReadPlanChunk) : Type 0 where
    pub chunks : plan.chunk_plans ≡ c ∷ cs
    pub tiles : Tiles c.start_byte (c ∷ cs)
    pub first_from : c.start_byte ≤ plan.start_byte
    pub first_to : plan.start_byte < c.end_byte_exclusive
    pub last_from : (last_of c cs).start_byte < plan.end_byte_exclusive
    pub last_to : plan.end_byte_exclusive ≤ (last_of c cs).end_byte_exclusive
    pub offset : plan.offset_in_first_chunk + c.start_byte ≡ plan.start_byte

  -- What a plan promises: it is for the file's size and the range that was asked for, which lies in
  -- the file; an empty range needs no chunk; any other is covered, by chunks that the store has, in
  -- their sizes.
  pub record IsPlan (size : ℕ) (options : AttachmentReadPlanOptions) (plan : AttachmentReadPlan)
      : Type 0 where
    pub of_size : plan.attachment_size ≡ size
    pub asked : Asks size options plan.start_byte plan.end_byte_exclusive
    pub in_file : (plan.start_byte ≤ plan.end_byte_exclusive) × (plan.end_byte_exclusive ≤ size)
    pub covers :
        ((plan.start_byte ≡ plan.end_byte_exclusive) × (plan.chunk_plans ≡ []))
        ⊎ ((c : AttachmentReadPlanChunk) × (cs : List AttachmentReadPlanChunk) × CoversRange plan c
              cs)
    pub stored : Stored metadata_of plan.chunk_plans

  plan_range-ne-out_of_fuel :
      (last_chunk_id : JsString) (size : ℕ) (range : NormalizedAttachmentReadRange)
      → plan_range metadata_of last_chunk_id size range ≢ throw out_of_fuel
  unfolding plan_range
  plan_range-ne-out_of_fuel last_chunk_id size range =
      elim (Bool-cases (range.start_byte == range.end_byte_exclusive || size == 0)) [
        | inl none_asked ↦ rw (none_asked, plan_range) (finalize-ne-out_of_fuel size range [])
        | inr asked ↦
            rw (asked, plan_range)
              (bind-ne-throw (walk metadata_of size range (suc size) (some last_chunk_id) size []) _
                (walk_terminates metadata_of size range (suc size) (some last_chunk_id) size []
                  (omega arith))
                (λ chunks. finalize-ne-out_of_fuel size range (reverse chunks)))
      ]

  -- Planning ends with a plan or one of the errors of the source, whatever the chunk metadata are,
  -- cyclic chains included.
  pub plan_terminates :
      (last_chunk_id : JsString) (size : ℕ) (options : AttachmentReadPlanOptions)
      → plan_attachment_read_by_walking_metadata metadata_of last_chunk_id size options
        ≢ throw out_of_fuel
  unfolding plan_attachment_read_by_walking_metadata
  plan_terminates last_chunk_id size options =
      bind-ne-throw (normalize_attachment_read_range size options)
        (plan_range metadata_of last_chunk_id size) (normalize-ne-out_of_fuel size options)
        (plan_range-ne-out_of_fuel last_chunk_id size)
