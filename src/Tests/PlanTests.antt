-- ===== src/Tests/PlanTests.antt =====
-- Attachment plans at a file of two chunks.
use mindoo_db.Base.{◌≢◌, Option, some, none, [], ◌∷◌, JsString, str_dec, ite}
use mindoo_db.Entry.{StoreEntryMetadata, attachment_chunk}
use mindoo_db.AttachmentPlan.{
  pos, AttachmentReadPlanOptions, AttachmentReadPlan, throw, out_of_fuel,
  plan_attachment_read_by_walking_metadata,
}
use mindoo_db.AttachmentPlan.Covers.{plan_terminates}
use mindoo_db.Tests.{text_a, text_b, meta_a, meta_b}

-- Bytes 0 to 2, and behind them bytes 3 and 4.
abbrev chunks : JsString → Option StoreEntryMetadata
chunks id =
    ite (str_dec id text_a)
      (some (record meta_a { entry_type = attachment_chunk; original_size = 3 }))
      (ite (str_dec id text_b)
        (some (record meta_b {
          entry_type = attachment_chunk;
          original_size = 2;
          dependency_ids = text_a ∷ [];
        }))
        none)

abbrev options : AttachmentReadPlanOptions
options = record { start_byte = pos 1; end_byte_exclusive = some (pos 4) }

abbrev expected : AttachmentReadPlan
expected = record {
  attachment_size = 5;
  start_byte = 1;
  end_byte_exclusive = 4;
  chunk_plans =
      record { id = text_a; start_byte = 0; end_byte_exclusive = 3; original_size = 3 }
      ∷ record { id = text_b; start_byte = 3; end_byte_exclusive = 5; original_size = 2 }
      ∷ [];
  offset_in_first_chunk = 1;
}

-- A chunk that names itself as its predecessor does not keep the walk going for ever.
abbrev cyclic : JsString → Option StoreEntryMetadata
cyclic id = some (record meta_a {
  entry_type = attachment_chunk;
  original_size = 1;
  dependency_ids = text_a ∷ [];
})

plan_terminates_example :
    plan_attachment_read_by_walking_metadata cyclic text_a 5 options ≢ throw out_of_fuel
plan_terminates_example = plan_terminates cyclic text_a 5 options
