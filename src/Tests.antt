-- ===== src/Tests.antt =====
-- Sample data for the tests: entries of two documents, and a store that has been through a few calls.
pub mod StoreTests
pub mod AccessTests
pub mod CodecTests
pub mod PlanTests
pub mod PlannerTests
pub mod DirectoryTests
pub mod QuarantineTests
pub mod SchedulerTests
pub mod KeyTests
pub mod BloomTests
use mindoo_db.Base.{ℕ, Bool, true, false, Option, some, none, List, [], ◌∷◌, JsString, str_ltb}
use mindoo_db.Entry.{
  Bytes, StoreEntryType, doc_create, doc_change, attachment_chunk, docs, StoreEntryMetadata,
  StoreEntry, StoreScanFilters,
}
use mindoo_db.Store.{Store, new_store}
use mindoo_db.Store.Run.{Call, put, witness, purge, scan, run}

abbrev pub text_a : JsString
text_a = b'a' ∷ []

abbrev pub text_b : JsString
text_b = b'b' ∷ []

abbrev pub text_c : JsString
text_c = b'c' ∷ []

abbrev pub doc_one : JsString
doc_one = b'd' ∷ b'1' ∷ []

abbrev pub doc_two : JsString
doc_two = b'd' ∷ b'2' ∷ []

-- A change of a document without dependencies.
abbrev pub change : JsString → JsString → JsString → ℕ → StoreEntryMetadata
change id hash doc created = record {
  entry_type = doc_change;
  id = id;
  content_hash = hash;
  doc_id = doc;
  dependency_ids = [];
  snapshot_head_hashes = none;
  snapshot_head_entry_ids = none;
  created_at = created;
  receipt_order = none;
  attachment_id = none;
  attachment_ids = none;
  attachment_refs = none;
  upload_started_at = none;
  created_by_public_key = [];
  decryption_key_id = [];
  signature = 7 ∷ [];
  metadata_signature = some (8 ∷ []);
  provenance = none;
  recipients = none;
  original_size = 3;
  encrypted_size = 4;
  received_at = none;
  received_by_public_key = none;
  received_date_signature = none;
  receipt_scheme = none;
  entry_version = some 1;
}

abbrev pub meta_a : StoreEntryMetadata
meta_a = change text_a text_a doc_one 10

abbrev pub meta_b : StoreEntryMetadata
meta_b = record (change text_b text_b doc_two 20) { entry_type = doc_create }

-- Of the same content as the first entry.
abbrev pub meta_c : StoreEntryMetadata
meta_c = change text_c text_a doc_two 30

abbrev pub entry_a : StoreEntry
entry_a = record { metadata = meta_a; encrypted_data = 1 ∷ 2 ∷ [] }

abbrev pub entry_b : StoreEntry
entry_b = record { metadata = meta_b; encrypted_data = 3 ∷ [] }

abbrev pub entry_c : StoreEntry
entry_c = record { metadata = meta_c; encrypted_data = 1 ∷ 2 ∷ [] }

-- The receipt of a witness for the first entry.
abbrev pub receipt_a : StoreEntryMetadata
receipt_a = record meta_a { received_at = some 99; received_by_public_key = some text_b }

abbrev pub fresh_store : Store
fresh_store = new_store text_a docs true text_b

abbrev pub demo_calls : List Call
demo_calls =
    put (entry_a ∷ entry_b ∷ [])
    ∷ witness (receipt_a ∷ [])
    ∷ scan none 1 none
    ∷ put (entry_c ∷ [])
    ∷ []

-- The calls run with the order of code units as collation.
abbrev pub demo_store : Store
demo_store = run str_ltb fresh_store demo_calls

-- The changes of the second document only.
abbrev pub demo_filters : StoreScanFilters
demo_filters = record {
  doc_id = some doc_two;
  entry_types = some (doc_change ∷ []);
  creation_date_from = some 15;
  creation_date_until = none;
}
