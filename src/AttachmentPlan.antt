-- ===== src/AttachmentPlan.antt =====
-- src/core/appendonlystores/AttachmentReadPlanner.ts: which attachment chunks a read of a byte range
-- needs. `metadata_of` stands for the store's `getEntryMetadata`. Byte offsets that a caller gives
-- may be negative; all others are natural numbers, and a difference is formed only where the code
-- has made sure, or tests, that it is not negative.
pub mod Walk
pub mod Covers
use mindoo_db.Base.{
  ℕ, zero, suc, ◌+◌, ◌-◌, Bool, true, false, ◌&&◌, ◌||◌, not, Option, some, none, List, [], ◌∷◌,
  ◌++◌, reverse, JsString, ite, ltb, leb, ◌==◌, if◌then◌else◌, length,
}
use mindoo_db.Entry.{StoreEntryType-discrete, attachment_chunk, StoreEntryMetadata}

-- `negsuc n` is -(n + 1).
pub data ℤ : Type 0 where
  pos : ℕ → ℤ
  negsuc : ℕ → ℤ

pub record AttachmentReadPlanOptions : Type 0 where
  pub start_byte : ℤ
  pub end_byte_exclusive : Option ℤ

pub record NormalizedAttachmentReadRange : Type 0 where
  pub start_byte : ℕ
  pub end_byte_exclusive : ℕ

pub record AttachmentReadPlanChunk : Type 0 where
  pub id : JsString
  pub start_byte : ℕ
  pub end_byte_exclusive : ℕ
  pub original_size : ℕ

pub record AttachmentReadPlan : Type 0 where
  pub attachment_size : ℕ
  pub start_byte : ℕ
  pub end_byte_exclusive : ℕ
  pub chunk_plans : List AttachmentReadPlanChunk
  pub offset_in_first_chunk : ℕ

-- The errors that are thrown, in the order of the source, and the model's own.
pub data PlanError : Type 0 where
  invalid_byte_range end_exceeds_size : PlanError
  chunk_not_found not_a_chunk dependency_fanout invalid_original_size : JsString → PlanError
  no_chunks : PlanError
  chunk_exceeds_size : JsString → PlanError
  chain_ended : PlanError
  out_of_fuel : PlanError

pub data Result {ℓ} (A : Type ℓ) : Type ℓ where
  ok : A → Result A
  throw : PlanError → Result A

infixl 5 ◌>>=◌
abbrev pub ◌>>=◌ {ℓ κ} : {A : Type ℓ} {B : Type κ} → Result A → (A → Result B) → Result B
ok a >>= f = f a
throw e >>= f = throw e

-- The tests of `normalizeAttachmentReadRange` on a range whose end is known.
unfoldable pub check_range : ℕ → ℤ → ℤ → Result NormalizedAttachmentReadRange
check_range size (negsuc _) end = throw invalid_byte_range
check_range size (pos start) (negsuc _) = throw invalid_byte_range
check_range size (pos start) (pos end) =
    if ltb end start
    then throw invalid_byte_range
    else if ltb size end
    then throw end_exceeds_size
    else ok (record { start_byte = start; end_byte_exclusive = end })

unfoldable pub normalize_attachment_read_range :
    ℕ → AttachmentReadPlanOptions → Result NormalizedAttachmentReadRange
unfolding check_range
normalize_attachment_read_range size options = elim options.end_byte_exclusive [
  | none ↦ check_range size options.start_byte (pos size)
  | some end ↦ check_range size options.start_byte end
]

unfoldable pub validate_attachment_chunk_metadata :
    Option StoreEntryMetadata → JsString → Result StoreEntryMetadata
validate_attachment_chunk_metadata none id = throw (chunk_not_found id)
validate_attachment_chunk_metadata (some m) id =
    if not (ite (StoreEntryType-discrete m.entry_type attachment_chunk) true false)
    then throw (not_a_chunk id)
    else if ltb 1 (length m.dependency_ids)
    then throw (dependency_fanout id)
    else if leb m.original_size 0
    then throw (invalid_original_size id)
    else ok m

unfoldable pub finalize_attachment_read_plan :
    ℕ → NormalizedAttachmentReadRange → List AttachmentReadPlanChunk → Result AttachmentReadPlan
finalize_attachment_read_plan size range chunks =
    if range.start_byte == range.end_byte_exclusive
    then ok (record {
      attachment_size = size;
      start_byte = range.start_byte;
      end_byte_exclusive = range.end_byte_exclusive;
      chunk_plans = [];
      offset_in_first_chunk = 0;
    })
    else elim chunks [
      | [] ↦ throw no_chunks
      | c ∷ cs ↦ ok (record {
        attachment_size = size;
        start_byte = range.start_byte;
        end_byte_exclusive = range.end_byte_exclusive;
        chunk_plans = c ∷ cs;
        offset_in_first_chunk = range.start_byte - c.start_byte;
      })
    ]

-- A string that is empty ends the walk as `null` does.
abbrev pub truthy : Option JsString → Option JsString
truthy none = none
truthy (some []) = none
truthy (some (c ∷ cs)) = some (c ∷ cs)

-- `dependencyIds[0] ?? null`
abbrev pub previous_chunk : StoreEntryMetadata → Option JsString
previous_chunk m = elim m.dependency_ids [ [] ↦ none | d ∷ _ ↦ some d ]

module _ (metadata_of : JsString → Option StoreEntryMetadata) (size : ℕ)
    (range : NormalizedAttachmentReadRange) where
  -- The chunk that ends at `chunk_end`, if it overlaps the range, is pushed.
  unfoldable pub push_overlapping :
      JsString
      → StoreEntryMetadata
      → ℕ
      → List AttachmentReadPlanChunk
      → List AttachmentReadPlanChunk
  push_overlapping id m chunk_end chunks =
      if ltb range.start_byte chunk_end
        && ltb (chunk_end - m.original_size) range.end_byte_exclusive
      then chunks
        ++ (record {
          id = id;
          start_byte = chunk_end - m.original_size;
          end_byte_exclusive = chunk_end;
          original_size = m.original_size;
        }
            ∷ [])
      else chunks

  -- The `while` loop of `planAttachmentReadByWalkingMetadata` and the test behind it, on fuel; the
  -- result is `reverseChunkPlans`.
  unfoldable pub walk :
      ℕ → Option JsString → ℕ → List AttachmentReadPlanChunk → Result (List AttachmentReadPlanChunk)
  walk zero current chunk_end chunks = throw out_of_fuel
  walk (suc fuel) current chunk_end chunks = elim (ltb range.start_byte chunk_end) [
    | false ↦ ok chunks
    | true ↦ elim (truthy current) [
      | none ↦ throw chain_ended
      | some id ↦ do
        m ← validate_attachment_chunk_metadata (metadata_of id) id
        elim (ltb chunk_end m.original_size) [
          | true ↦ throw (chunk_exceeds_size id)
          | false ↦
              walk fuel (previous_chunk m) (chunk_end - m.original_size)
                (push_overlapping id m chunk_end chunks)
        ]
    ]
  ]

-- The plan for a normalised range. Every chunk has a byte at least, so one round for each byte and
-- one more are enough.
unfoldable pub plan_range :
    (JsString → Option StoreEntryMetadata)
    → JsString
    → ℕ
    → NormalizedAttachmentReadRange
    → Result AttachmentReadPlan
plan_range metadata_of last_chunk_id size range =
    if range.start_byte == range.end_byte_exclusive || size == 0
    then finalize_attachment_read_plan size range []
    else do
      chunks ← walk metadata_of size range (suc size) (some last_chunk_id) size []
      finalize_attachment_read_plan size range (reverse chunks)

unfoldable pub plan_attachment_read_by_walking_metadata :
    (JsString → Option StoreEntryMetadata)
    → JsString
    → ℕ
    → AttachmentReadPlanOptions
    → Result AttachmentReadPlan
plan_attachment_read_by_walking_metadata metadata_of last_chunk_id size options =
    normalize_attachment_read_range size options >>= plan_range metadata_of last_chunk_id size
