-- ===== src/Entry.antt =====
-- The store's data: src/core/types.ts (StoreEntryMetadata, StoreEntry) and the scan types of
-- src/core/appendonlystores/types.ts. A `number` of the source is a time, a size or a counter and
-- is a natural number here; a `Uint8Array` is the list of its bytes. The plain-JSON blocks
-- `provenance` and `recipients`, which stores and codecs carry unchanged, are their JSON text.
use mindoo_db.Base.{ℕ, Bool, List, Option, JsString, or_else}

abbrev pub Bytes : Type 0
Bytes = List ℕ

pub data StoreEntryType : Type 0 where
  doc_create doc_change doc_snapshot doc_delete doc_undelete : StoreEntryType
  pending_attachment_upload attachment_chunk : StoreEntryType

unfoldable pub StoreEntryType-discrete : Discrete StoreEntryType
StoreEntryType-discrete = hlevel

pub data StoreKind : Type 0 where
  docs attachments : StoreKind

pub record StoreEntryAttachmentRef : Type 0 where
  pub attachment_id : JsString
  pub last_chunk_id : JsString
  pub size : ℕ

pub record StoreEntryMetadata : Type 0 where
  pub entry_type : StoreEntryType
  pub id : JsString
  pub content_hash : JsString
  pub doc_id : JsString
  pub dependency_ids : List JsString
  pub snapshot_head_hashes : Option (List JsString)
  pub snapshot_head_entry_ids : Option (List JsString)
  pub created_at : ℕ
  pub receipt_order : Option ℕ
  pub attachment_id : Option JsString
  pub attachment_ids : Option (List JsString)
  pub attachment_refs : Option (List StoreEntryAttachmentRef)
  pub upload_started_at : Option ℕ
  pub created_by_public_key : JsString
  pub decryption_key_id : JsString
  pub signature : Bytes
  pub metadata_signature : Option Bytes
  pub provenance : Option JsString
  pub recipients : Option JsString
  pub original_size : ℕ
  pub encrypted_size : ℕ
  pub received_at : Option ℕ
  pub received_by_public_key : Option JsString
  pub received_date_signature : Option Bytes
  pub receipt_scheme : Option JsString
  pub entry_version : Option ℕ

-- `meta.receiptOrder ?? 0`
abbrev pub order_of : StoreEntryMetadata → ℕ
order_of m = or_else m.receipt_order 0

-- An entry is its metadata and the encrypted payload.
pub record StoreEntry : Type 0 where
  pub metadata : StoreEntryMetadata
  pub encrypted_data : Bytes

pub record StoreScanCursor : Type 0 where
  pub receipt_order : ℕ
  pub id : JsString

-- The outer option of a date is `undefined`, and `null` counts as `undefined` wherever it is read.
pub record StoreScanFilters : Type 0 where
  pub doc_id : Option JsString
  pub entry_types : Option (List StoreEntryType)
  pub creation_date_from : Option ℕ
  pub creation_date_until : Option ℕ

pub record StoreScanResult : Type 0 where
  pub entries : List StoreEntryMetadata
  pub next_cursor : Option StoreScanCursor
  pub has_more : Bool
