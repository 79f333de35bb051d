-- ===== src/Store/ScanAll.antt =====
-- The loop of `scanAllMetadata` and `getNewEntryMetadataForSync` of src/core/BaseMindooDB.ts, over
-- the scan of the in-memory store: page after page, each from the cursor that the last one returned.
pub mod Complete
use mindoo_db.Base.{
  ℕ, zero, suc, Bool, true, false, Option, some, none, List, [], ◌++◌, JsString, length,
}
use mindoo_db.Entry.{StoreEntryMetadata, StoreScanCursor, StoreScanFilters}
use mindoo_db.Store.{Store}
use mindoo_db.Store.Feed.{scan_entries_since}

module _ (locale_before : JsString → JsString → Bool) (limit : ℕ)
    (filters : Option StoreScanFilters) where
  -- The `while (true)` loop, on fuel, with `all` and the cursor; it returns both. `none` also stands
  -- for a scan that does not end.
  unfoldable pub scan_pages :
      ℕ
      → Store
      → Option StoreScanCursor
      → List StoreEntryMetadata
      → Option (List StoreEntryMetadata × Option StoreScanCursor)
  scan_pages zero s cursor all = none
  scan_pages (suc fuel) s cursor all =
      elim (scan_entries_since locale_before s cursor limit filters).1 [
        | none ↦ none
        | some page ↦ elim page.has_more [
          | false ↦ some (all ++ page.entries, page.next_cursor)
          | true ↦
              scan_pages fuel (scan_entries_since locale_before s cursor limit filters).0
                page.next_cursor (all ++ page.entries)
        ]
      ]

abbrev pub page_size : ℕ
page_size = 1000

-- The fuel is one more than the number of entries: each page but the last has an entry at least.
unfoldable pub scan_from :
    (JsString → JsString → Bool)
    → Store
    → Option StoreScanCursor
    → Option StoreScanFilters
    → Option (List StoreEntryMetadata × Option StoreScanCursor)
unfolding scan_pages
scan_from locale_before s cursor filters =
    scan_pages locale_before page_size filters (suc (length s.entries)) s cursor []
