-- ===== src/Scan.antt =====
-- src/core/appendonlystores/scanUtils.ts: the order, the cursor and the filters of metadata scans,
-- and the scan of one document's entries.
pub mod Page
use mindoo_db.Base.{
  ℕ, Bool, true, false, not, ◌&&◌, ◌||◌, Option, some, none, List, [], ◌∷◌, ◌++◌, JsString, str_dec,
  str_ltb, ite, ltb, leb, if◌then◌else◌, length, has, any, last?, ℕ_discrete,
}
use mindoo_db.Base.Sort.{sort}
use mindoo_db.Entry.{
  StoreEntryType, StoreEntryType-discrete, StoreEntryMetadata, StoreScanCursor, StoreScanFilters,
  StoreScanResult, order_of,
}

-- `compareByReceiptOrderAndId(a, b) < 0`
unfoldable pub compare_by_receipt_order_and_id : StoreEntryMetadata → StoreEntryMetadata → Bool
compare_by_receipt_order_and_id a b =
    ite (ℕ_discrete (order_of a) (order_of b)) (str_ltb a.id b.id) (ltb (order_of a) (order_of b))

unfoldable pub is_after_scan_cursor : StoreEntryMetadata → StoreScanCursor → Bool
is_after_scan_cursor m cursor =
    ltb cursor.receipt_order (order_of m)
    || ite (ℕ_discrete (order_of m) cursor.receipt_order) (str_ltb cursor.id m.id) false

-- `filters?.docId && meta.docId !== filters.docId`: an empty id is falsy, and filters nothing.
abbrev pub wrong_doc : Option JsString → JsString → Bool
wrong_doc none d = false
wrong_doc (some []) d = false
wrong_doc (some (c ∷ cs)) d = ite (str_dec d (c ∷ cs)) false true

-- An absent or empty list of types filters nothing.
abbrev pub wrong_type : Option (List StoreEntryType) → StoreEntryType → Bool
wrong_type none t = false
wrong_type (some []) t = false
wrong_type (some (u ∷ us)) t = not (has StoreEntryType-discrete t (u ∷ us))

abbrev pub too_early : Option ℕ → ℕ → Bool
too_early none t = false
too_early (some from) t = ltb t from

abbrev pub too_late : Option ℕ → ℕ → Bool
too_late none t = false
too_late (some until) t = leb until t

-- The filters of a scan may be left out.
unfoldable pub metadata_matches_scan_filters : StoreEntryMetadata → Option StoreScanFilters → Bool
metadata_matches_scan_filters m none = true
metadata_matches_scan_filters m (some f) =
    if wrong_doc f.doc_id m.doc_id
    then false
    else if wrong_type f.entry_types m.entry_type
    then false
    else if too_early f.creation_date_from m.created_at
    then false
    else if too_late f.creation_date_until m.created_at
    then false
    else true

-- `cursor === null || isAfterScanCursor(meta, cursor)`
abbrev pub after_cursor : Option StoreScanCursor → StoreEntryMetadata → Bool
after_cursor none m = true
after_cursor (some c) m = is_after_scan_cursor m c

-- `nextCursor`: at the last entry of the page, or where it was if the page is empty.
unfoldable pub next_cursor :
    Option StoreScanCursor → List StoreEntryMetadata → Option StoreScanCursor
next_cursor cursor page = elim (last? page) [
  | none ↦ cursor
  | some m ↦ some (record { receipt_order = order_of m; id = m.id })
]

-- The object that a scan returns.
unfoldable pub scan_result :
    Option StoreScanCursor → List StoreEntryMetadata × Bool → StoreScanResult
unfolding next_cursor
scan_result cursor (page, more) = record {
  entries = page;
  next_cursor = next_cursor cursor page;
  has_more = more;
}

-- The loop of `scanDocScopedEntries`, with its `page`, over the sorted entries; the second result
-- is `hasMore`.
unfoldable pub doc_page :
    Option StoreScanCursor
    → ℕ
    → Option StoreScanFilters
    → List StoreEntryMetadata
    → List StoreEntryMetadata
    → List StoreEntryMetadata × Bool
doc_page cursor limit filters page [] = (page, false)
doc_page cursor limit filters page (m ∷ ms) = elim (after_cursor cursor m) [
  | false ↦ doc_page cursor limit filters page ms
  | true ↦ elim (metadata_matches_scan_filters m filters) [
    | false ↦ doc_page cursor limit filters page ms
    | true ↦ elim (ltb (length page) limit) [
      | true ↦ doc_page cursor limit filters (page ++ (m ∷ [])) ms
      | false ↦ (page, true)
    ]
  ]
]

unfoldable pub scan_doc_scoped_entries :
    List StoreEntryMetadata → Option StoreScanCursor → ℕ → Option StoreScanFilters → StoreScanResult
unfolding scan_result doc_page
scan_doc_scoped_entries entries cursor limit filters =
    scan_result cursor
      (doc_page cursor limit filters [] (sort compare_by_receipt_order_and_id entries))
