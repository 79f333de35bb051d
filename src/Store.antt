-- ===== src/Store.antt =====
-- src/core/appendonlystores/InMemoryContentAddressedStore.ts: the state of the in-memory store and
-- the operations that change it. Logging is left out, and an `async` method runs to its end.
pub mod Counts
pub mod WellFormed
pub mod Purge
pub mod Queries
pub mod Contents
pub mod Feed
pub mod Run
pub mod ScanAll
pub mod Sync
pub mod Resolve
use mindoo_db.Base.{
  ℕ, ◌+◌, ◌-◌, Bool, true, false, ◌&&◌, Option, some, none, List, [], ◌∷◌, JsString, str_dec, ite,
  is_some, or_else, add, lookup, set, delete, if◌then◌else◌, foldl, option_dec, ℕ_discrete, leb,
  length,
}
use mindoo_db.Entry.{Bytes, StoreKind, StoreEntryMetadata, StoreEntry}

pub record InMemoryContentAddressedStore : Type 0 where
  pub db_id : JsString
  pub store_kind : StoreKind
  pub entries : List (JsString × StoreEntryMetadata)
  pub content_store : List (JsString × Bytes)
  pub doc_index : List (JsString × List JsString)
  pub sorted_entries_cache : Option (List StoreEntryMetadata)
  pub next_receipt_order : ℕ
  pub store_epoch : JsString
  pub content_ref_count : List (JsString × ℕ)
  pub indexing_enabled : Bool

abbrev pub Store : Type 0
Store = InMemoryContentAddressedStore

-- The constructor; the epoch is a fresh uuid from outside.
unfoldable pub new_store : JsString → StoreKind → Bool → JsString → Store
new_store db_id kind indexing epoch = record {
  db_id = db_id;
  store_kind = kind;
  entries = [];
  content_store = [];
  doc_index = [];
  sorted_entries_cache = none;
  next_receipt_order = 1;
  store_epoch = epoch;
  content_ref_count = [];
  indexing_enabled = indexing;
}

-- The ids that the index has for a document, none for a document without a key.
abbrev pub doc_ids : JsString → Store → List JsString
doc_ids d s = or_else (lookup str_dec d s.doc_index) []

-- `contentRefCount.get(hash) || 0`
abbrev pub ref_count : JsString → Store → ℕ
ref_count h s = or_else (lookup str_dec h s.content_ref_count) 0

-- The metadata that is kept of an entry: its own, with the store's receipt order.
abbrev pub stamped : ℕ → StoreEntryMetadata → StoreEntryMetadata
stamped order m = record m { receipt_order = some order }

-- The body of the loop of `putEntries` for an id that is not there yet.
unfoldable pub store_entry : Store → StoreEntry → Store
store_entry s e =
    let m = e.metadata in
    record s {
      entries = set str_dec m.id (stamped s.next_receipt_order m) s.entries;
      next_receipt_order = s.next_receipt_order + 1;
      content_store =
          if is_some (lookup str_dec m.content_hash s.content_store)
          then s.content_store
          else set str_dec m.content_hash e.encrypted_data s.content_store;
      doc_index = set str_dec m.doc_id (add str_dec m.id (doc_ids m.doc_id s)) s.doc_index;
      content_ref_count =
          set str_dec m.content_hash (ref_count m.content_hash s + 1) s.content_ref_count;
    }

unfoldable pub put_entry : Store → StoreEntry → Store
put_entry s e = if is_some (lookup str_dec e.metadata.id s.entries) then s else store_entry s e

unfoldable pub put_entries : Store → List StoreEntry → Store
put_entries s es = record (foldl put_entry s es) { sorted_entries_cache = none }

-- The witness fields of a receipt, copied onto the local metadata with a fresh receipt order.
unfoldable pub witnessed : ℕ → StoreEntryMetadata → StoreEntryMetadata → StoreEntryMetadata
witnessed order existing receipt = record existing {
  received_at = receipt.received_at;
  received_by_public_key = receipt.received_by_public_key;
  received_date_signature = receipt.received_date_signature;
  receipt_scheme = receipt.receipt_scheme;
  receipt_order = some order;
}

-- Already witnessed with the same receipt.
unfoldable pub same_receipt : StoreEntryMetadata → StoreEntryMetadata → Bool
same_receipt existing receipt =
    ite (option_dec ℕ_discrete existing.received_at receipt.received_at)
      (ite (option_dec str_dec existing.received_by_public_key receipt.received_by_public_key) true
        false)
      false

-- The body of the loop of `applyWitnessReceipts`, with its flag `mutated`.
unfoldable pub apply_witness_receipt : Store × Bool → StoreEntryMetadata → Store × Bool
apply_witness_receipt (s, mutated) receipt = elim receipt.received_at [
  | none ↦ (s, mutated)
  | some _ ↦ elim (lookup str_dec receipt.id s.entries) [
    | none ↦ (s, mutated)
    | some existing ↦ if same_receipt existing receipt then (s, mutated) else (
      record s {
        entries =
            set str_dec receipt.id (witnessed s.next_receipt_order existing receipt) s.entries;
        next_receipt_order = s.next_receipt_order + 1;
      },
      true,
    )
  ]
]

unfoldable pub invalidate_if : Store × Bool → Store
invalidate_if (s, mutated) = if mutated then record s { sorted_entries_cache = none } else s

unfoldable pub apply_witness_receipts : Store → List StoreEntryMetadata → Store
unfolding invalidate_if
apply_witness_receipts s receipts = invalidate_if (foldl apply_witness_receipt (s, false) receipts)

-- `(contentRefCount.get(hash) || 1) - 1`: 0 for a missing count and for a count of 0.
abbrev pub decremented : JsString → Store → ℕ
decremented h s = ref_count h s - 1

-- The body of the loop of `purgeDocHistory`.
unfoldable pub purge_entry : Store → JsString → Store
purge_entry s id = elim (lookup str_dec id s.entries) [
  | none ↦ s
  | some m ↦
      let h = m.content_hash in
      let count = decremented h s in
      if leb count 0
      then record s {
        content_store = delete str_dec h s.content_store;
        content_ref_count = delete str_dec h s.content_ref_count;
        entries = delete str_dec id s.entries;
      }
      else record s {
        content_ref_count = set str_dec h count s.content_ref_count;
        entries = delete str_dec id s.entries;
      }
]

-- The store once every entry of the document is purged: its key leaves the index.
unfoldable pub forget_doc : JsString → Store → Store
forget_doc doc_id s = record s {
  doc_index = delete str_dec doc_id s.doc_index;
  sorted_entries_cache = none;
}

unfoldable pub purge_doc_history : Store → JsString → Store
unfolding forget_doc
purge_doc_history s doc_id = elim (doc_ids doc_id s) [
  | [] ↦ s
  | id ∷ ids ↦ forget_doc doc_id (foldl purge_entry s (id ∷ ids))
]

-- `epoch` is the fresh uuid of the new cursor lineage.
unfoldable pub clear_all_local_data : Store → JsString → Store
clear_all_local_data s epoch = record s {
  entries = [];
  content_store = [];
  doc_index = [];
  content_ref_count = [];
  sorted_entries_cache = none;
  next_receipt_order = 1;
  store_epoch = epoch;
}

-- The counts of `getStats`.
unfoldable pub get_stats : Store → ℕ × ℕ × ℕ
get_stats s = (length s.entries, length s.content_store, length s.doc_index)
