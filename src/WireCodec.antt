-- ===== src/WireCodec.antt =====
-- src/core/appendonlystores/network/entryWireCodec.ts: entry metadata as JSON-safe data, with the
-- binary fields in base64. `btoa` and `atob` belong to the platform, so the two base64 conversions
-- are parameters.
pub mod RoundTrip
use mindoo_db.Base.{ℕ, Option, some, none, List, [], ◌∷◌, JsString}
use mindoo_db.Entry.{Bytes, StoreEntryType, StoreEntryAttachmentRef, StoreEntryMetadata, StoreEntry}

pub record SerializedEntryMetadata : Type 0 where
  pub entry_type : StoreEntryType
  pub id : JsString
  pub content_hash : JsString
  pub doc_id : JsString
  pub dependency_ids : List JsString
  pub created_at : ℕ
  pub receipt_order : Option ℕ
  pub created_by_public_key : JsString
  pub decryption_key_id : JsString
  pub snapshot_head_hashes : Option (List JsString)
  pub snapshot_head_entry_ids : Option (List JsString)
  pub signature : JsString
  pub metadata_signature : Option JsString
  pub original_size : ℕ
  pub encrypted_size : ℕ
  pub received_at : Option ℕ
  pub received_by_public_key : Option JsString
  pub received_date_signature : Option JsString
  pub attachment_refs : Option (List StoreEntryAttachmentRef)
  pub provenance : Option JsString
  pub recipients : Option JsString
  pub entry_version : Option ℕ

pub record SerializedEntry : Type 0 where
  pub metadata : SerializedEntryMetadata
  pub encrypted_data : JsString

-- `bytes ? f(bytes) : undefined` on an optional array, which is truthy also when it is empty.
abbrev pub encoded_if_present : (Bytes → JsString) → Option Bytes → Option JsString
encoded_if_present f none = none
encoded_if_present f (some b) = some (f b)

-- `text ? f(text) : undefined` on an optional string, of which the empty one is falsy.
abbrev pub decoded_if_truthy : (JsString → Bytes) → Option JsString → Option Bytes
decoded_if_truthy f none = none
decoded_if_truthy f (some []) = none
decoded_if_truthy f (some (c ∷ cs)) = some (f (c ∷ cs))

module _ (bytes_to_base64 : Bytes → JsString) where
  unfoldable pub serialize_entry_metadata : StoreEntryMetadata → SerializedEntryMetadata
  serialize_entry_metadata m = record {
    entry_type = m.entry_type;
    id = m.id;
    content_hash = m.content_hash;
    doc_id = m.doc_id;
    dependency_ids = m.dependency_ids;
    created_at = m.created_at;
    receipt_order = m.receipt_order;
    created_by_public_key = m.created_by_public_key;
    decryption_key_id = m.decryption_key_id;
    snapshot_head_hashes = m.snapshot_head_hashes;
    snapshot_head_entry_ids = m.snapshot_head_entry_ids;
    signature = bytes_to_base64 m.signature;
    metadata_signature = encoded_if_present bytes_to_base64 m.metadata_signature;
    original_size = m.original_size;
    encrypted_size = m.encrypted_size;
    received_at = m.received_at;
    received_by_public_key = m.received_by_public_key;
    received_date_signature = encoded_if_present bytes_to_base64 m.received_date_signature;
    attachment_refs = m.attachment_refs;
    provenance = m.provenance;
    recipients = m.recipients;
    entry_version = m.entry_version;
  }

  unfoldable pub serialize_store_entry : StoreEntry → SerializedEntry
  unfolding serialize_entry_metadata
  serialize_store_entry e = record {
    metadata = serialize_entry_metadata e.metadata;
    encrypted_data = bytes_to_base64 e.encrypted_data;
  }

-- The fields of the metadata that the wire format does not have are left undefined.
module _ (base64_to_bytes : JsString → Bytes) where
  unfoldable pub deserialize_entry_metadata : SerializedEntryMetadata → StoreEntryMetadata
  deserialize_entry_metadata m = record {
    entry_type = m.entry_type;
    id = m.id;
    content_hash = m.content_hash;
    doc_id = m.doc_id;
    dependency_ids = m.dependency_ids;
    created_at = m.created_at;
    receipt_order = m.receipt_order;
    created_by_public_key = m.created_by_public_key;
    decryption_key_id = m.decryption_key_id;
    snapshot_head_hashes = m.snapshot_head_hashes;
    snapshot_head_entry_ids = m.snapshot_head_entry_ids;
    signature = base64_to_bytes m.signature;
    metadata_signature = decoded_if_truthy base64_to_bytes m.metadata_signature;
    original_size = m.original_size;
    encrypted_size = m.encrypted_size;
    received_at = m.received_at;
    received_by_public_key = m.received_by_public_key;
    received_date_signature = decoded_if_truthy base64_to_bytes m.received_date_signature;
    attachment_refs = m.attachment_refs;
    provenance = m.provenance;
    recipients = m.recipients;
    entry_version = m.entry_version;
    attachment_id = none;
    attachment_ids = none;
    upload_started_at = none;
    receipt_scheme = none;
  }

  unfoldable pub deserialize_store_entry : SerializedEntry → StoreEntry
  unfolding deserialize_entry_metadata
  deserialize_store_entry e = record {
    metadata = deserialize_entry_metadata e.metadata;
    encrypted_data = base64_to_bytes e.encrypted_data;
  }
