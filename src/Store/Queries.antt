-- ===== src/Store/Queries.antt =====
-- The reads of src/core/appendonlystores/InMemoryContentAddressedStore.ts that synchronisation
-- uses. None changes the store.
use mindoo_db.Base.{
  ℕ, ◌-◌, Bool, false, not, ◌&&◌, Option, some, none, List, [], ◌∷◌, JsString, str_dec, ite,
  is_some, lookup, keys, values, has, filterb, ltb, leb, if◌then◌else◌,
}
use mindoo_db.Entry.{StoreEntryType, StoreEntryType-discrete, StoreEntryMetadata, StoreEntry}
use mindoo_db.Store.{Store, doc_ids}

-- `result.push` of a value that may be missing.
abbrev pub push_some {ℓ} : {A : Type ℓ} → Option A → List A → List A
push_some none xs = xs
push_some (some a) xs = a ∷ xs

-- One round of `getEntries`: nothing for an unknown id, and nothing for a missing payload.
unfoldable pub get_entry : Store → JsString → Option StoreEntry
get_entry s id = elim (lookup str_dec id s.entries) [
  | none ↦ none
  | some m ↦ elim (lookup str_dec m.content_hash s.content_store) [
    | none ↦ none
    | some bytes ↦ some (record { metadata = m; encrypted_data = bytes })
  ]
]

unfoldable pub get_entries : Store → List JsString → List StoreEntry
get_entries s [] = []
get_entries s (id ∷ ids) = push_some (get_entry s id) (get_entries s ids)

unfoldable pub get_entry_metadata : Store → JsString → Option StoreEntryMetadata
get_entry_metadata s id = lookup str_dec id s.entries

unfoldable pub has_entries : Store → List JsString → List JsString
has_entries s ids = filterb (λ id. is_some (lookup str_dec id s.entries)) ids

unfoldable pub get_all_ids : Store → List JsString
get_all_ids s = keys s.entries

unfoldable pub find_new_entries : Store → List JsString → List StoreEntryMetadata
find_new_entries s known = values (filterb (λ e. not (has str_dec e.0 known)) s.entries)

-- The loop of `findNewEntriesForDoc` over the ids that the index lists.
unfoldable pub new_among : Store → List JsString → List JsString → List StoreEntryMetadata
new_among s known [] = []
new_among s known (id ∷ ids) =
    if has str_dec id known
    then new_among s known ids
    else push_some (lookup str_dec id s.entries) (new_among s known ids)

unfoldable pub find_new_entries_for_doc : Store → List JsString → JsString → List StoreEntryMetadata
find_new_entries_for_doc s known doc_id = new_among s known (doc_ids doc_id s)

-- `from !== null && createdAt < from`, and the like for the end of the range.
abbrev pub before_range : Option ℕ → ℕ → Bool
before_range none t = false
before_range (some from) t = ltb t from

abbrev pub after_range : Option ℕ → ℕ → Bool
after_range none t = false
after_range (some until) t = leb until t

unfoldable pub find_entries : Store → StoreEntryType → Option ℕ → Option ℕ → List StoreEntryMetadata
find_entries s type from until =
    filterb
      (λ m.
        ite (StoreEntryType-discrete m.entry_type type)
          (not (before_range from m.created_at) && not (after_range until m.created_at)) false)
      (values s.entries)

-- `maxReceiptOrder` of `getStoreHead`.
unfoldable pub max_receipt_order : Store → ℕ
max_receipt_order s = s.next_receipt_order - 1
