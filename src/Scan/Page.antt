-- ===== src/Scan/Page.antt =====
-- The specification of a scan: the first entries of the feed that pass the filters, and whether
-- there are more. The loops that collect a page meet it.
use mindoo_db.Base.{
  ℕ, zero, suc, ◌+◌, ◌≡◌, sym, Bool, false, ◌&&◌, Option, List, [], ◌∷◌, ◌++◌, ltb, length,
  length-append, take, filterb, append_nil, append_assoc, arith,
}
use mindoo_db.Entry.{StoreEntryMetadata, StoreScanCursor, StoreScanFilters}
use mindoo_db.Scan.{after_cursor, metadata_matches_scan_filters, doc_page}

-- The first `limit` of the entries that pass, and whether more pass.
abbrev pub first_page : ℕ → List StoreEntryMetadata → List StoreEntryMetadata × Bool
first_page limit ms = (take limit ms, ltb limit (length ms))

-- The entries that a scan is to return, of a feed in scan order.
abbrev pub selected :
    Option StoreScanCursor
    → Option StoreScanFilters
    → List StoreEntryMetadata
    → List StoreEntryMetadata
selected cursor filters ms =
    filterb (λ m. after_cursor cursor m && metadata_matches_scan_filters m filters) ms

-- A page with room for `room` more entries.
abbrev pub extended :
    List StoreEntryMetadata → ℕ → List StoreEntryMetadata → List StoreEntryMetadata × Bool
extended page room ms = (page ++ take room ms, ltb room (length ms))

extended_done : (page ms : List StoreEntryMetadata) → extended page 0 ms ≡ (page, ltb 0 (length ms))
extended_done page ms = rw append_nil

extended_more :
    (page : List StoreEntryMetadata) (m : StoreEntryMetadata) (room : ℕ)
    (ms : List StoreEntryMetadata)
    → extended (page ++ (m ∷ [])) room ms ≡ extended page (suc room) (m ∷ ms)
extended_more page m room ms = ground (arith, append_assoc page (m ∷ []) (take room ms))

extended_end : (page : List StoreEntryMetadata) (room : ℕ) → extended page room [] ≡ (page, false)
extended_end page zero = rw append_nil
extended_end page (suc room) = ground (arith, append_nil page)

module _ (cursor : Option StoreScanCursor) (limit : ℕ) (filters : Option StoreScanFilters) where
  doc_page-extended :
      (ms page : List StoreEntryMetadata) (room : ℕ)
      → length page + room ≡ limit
      → doc_page cursor limit filters page ms ≡ extended page room (selected cursor filters ms)
  unfolding doc_page
  doc_page-extended [] page room e = sym (extended_end page room)
  doc_page-extended (m ∷ ms) page zero e =
      ground (arith, append_nil page, doc_page-extended ms page zero e)
  doc_page-extended (m ∷ ms) page (suc room) e = ground (
    arith,
    length-append page (m ∷ []),
    append_assoc page (m ∷ []) (take room (selected cursor filters ms)),
    doc_page-extended ms page (suc room) e,
    doc_page-extended ms (page ++ (m ∷ [])) room,
  )

  -- The loop of the doc-scoped scan collects the first page of what passes the cursor and filters.
  pub doc_page-first_page :
      (ms : List StoreEntryMetadata)
      → doc_page cursor limit filters [] ms ≡ first_page limit (selected cursor filters ms)
  doc_page-first_page ms = doc_page-extended ms [] limit (omega arith)
