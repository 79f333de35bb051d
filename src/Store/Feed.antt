-- ===== src/Store/Feed.antt =====
-- The cursor scan of src/core/appendonlystores/InMemoryContentAddressedStore.ts: the cached sorted
-- entries, the binary search for the cursor, and `scanEntriesSince`. `locale_before a b` stands for
-- `a.localeCompare(b) < 0`, which the JavaScript engine provides.
pub mod Search
pub mod Order
pub mod Paging
use mathlib.Core.Option
use mindoo_db.Base.{
  ℕ, zero, suc, ◌+◌, ◌/◌, ◌%◌, ◌^◌, Bool, true, false, not, ◌&&◌, ◌||◌, Option, some, none, List,
  [], ◌∷◌, ◌++◌, JsString, str_dec, str_ltb, ite, lookup, values, ltb, if◌then◌else◌, length, any,
  drop, get_elem?, ℕ_discrete,
}
use mindoo_db.Base.Sort.{sort}
use mindoo_db.Entry.{
  StoreEntryMetadata, StoreScanCursor, StoreScanFilters, StoreScanResult, order_of,
}
use mindoo_db.Scan.{
  wrong_doc, wrong_type, too_early, too_late, scan_result, scan_doc_scoped_entries,
}
use mindoo_db.Store.{Store, doc_ids}
use mindoo_db.Store.Queries.{push_some}

-- The private `matchesScanFilters`, a copy of `metadataMatchesScanFilters`.
unfoldable pub matches_scan_filters : StoreEntryMetadata → Option StoreScanFilters → Bool
matches_scan_filters m none = true
matches_scan_filters m (some f) =
    if wrong_doc f.doc_id m.doc_id
    then false
    else if wrong_type f.entry_types m.entry_type
    then false
    else if too_early f.creation_date_from m.created_at
    then false
    else if too_late f.creation_date_until m.created_at
    then false
    else true

-- The test of the binary search: the entry does not come after the cursor.
unfoldable pub not_after : StoreEntryMetadata → StoreScanCursor → Bool
not_after m cursor =
    ltb (order_of m) cursor.receipt_order
    || ite (ℕ_discrete (order_of m) cursor.receipt_order) (not (str_ltb cursor.id m.id)) false

-- `(lo + hi) >>> 1`, on 32-bit words.
abbrev pub middle : ℕ → ℕ → ℕ
middle lo hi = (lo + hi) % 2 ^ 32 / 2

-- The loop of `binarySearchAfterCursor`; `none` means that the fuel ran out, or that an index was
-- out of range.
unfoldable pub search_loop : ℕ → List StoreEntryMetadata → StoreScanCursor → ℕ → ℕ → Option ℕ
search_loop zero sorted cursor lo hi = none
search_loop (suc fuel) sorted cursor lo hi = elim (ltb lo hi) [
  | false ↦ some lo
  | true ↦ elim (get_elem? sorted (middle lo hi)) [
    | none ↦ none
    | some m ↦ elim (not_after m cursor) [
      | true ↦ search_loop fuel sorted cursor (middle lo hi + 1) hi
      | false ↦ search_loop fuel sorted cursor lo (middle lo hi)
    ]
  ]
]

-- The fuel is one more than the length: each round shortens the interval.
unfoldable pub binary_search_after_cursor : List StoreEntryMetadata → StoreScanCursor → Option ℕ
unfolding search_loop
binary_search_after_cursor sorted cursor =
    search_loop (suc (length sorted)) sorted cursor 0 (length sorted)

-- The forward pass from the start index: the page, and the entries that are left when it is full.
unfoldable pub fill_page :
    ℕ
    → Option StoreScanFilters
    → List StoreEntryMetadata
    → List StoreEntryMetadata
    → List StoreEntryMetadata × List StoreEntryMetadata
fill_page limit filters page [] = (page, [])
fill_page limit filters page (m ∷ ms) = elim (ltb (length page) limit) [
  | false ↦ (page, m ∷ ms)
  | true ↦ elim (matches_scan_filters m filters) [
    | true ↦ fill_page limit filters (page ++ (m ∷ [])) ms
    | false ↦ fill_page limit filters page ms
  ]
]

-- The page and `hasMore`, which the probe over the rest determines.
unfoldable pub probed :
    Option StoreScanFilters
    → List StoreEntryMetadata × List StoreEntryMetadata
    → List StoreEntryMetadata × Bool
probed filters (page, rest) = (page, any (λ m. matches_scan_filters m filters) rest)

-- The metadata of the ids that the index lists, ids without metadata left out.
unfoldable pub metadata_of : Store → List JsString → List StoreEntryMetadata
metadata_of s [] = []
metadata_of s (id ∷ ids) = push_some (lookup str_dec id s.entries) (metadata_of s ids)

-- The doc-scoped fast path is taken for a document id that is not empty.
abbrev pub scoped_doc : Option StoreScanFilters → Option JsString
scoped_doc none = none
scoped_doc (some f) = elim f.doc_id [ none ↦ none | some [] ↦ none | some (c ∷ cs) ↦ some (c ∷ cs) ]

-- The index of the first entry after the cursor.
unfoldable pub start_index : List StoreEntryMetadata → Option StoreScanCursor → Option ℕ
start_index sorted none = some 0
start_index sorted (some cursor) = binary_search_after_cursor sorted cursor

module _ (locale_before : JsString → JsString → Bool) where
  -- The comparison of `getSortedEntries`.
  unfoldable pub feed_before : StoreEntryMetadata → StoreEntryMetadata → Bool
  feed_before a b =
      ite (ℕ_discrete (order_of a) (order_of b)) (locale_before a.id b.id)
        (ltb (order_of a) (order_of b))

  -- The sorted entries, and the store with them in its cache.
  unfoldable pub get_sorted_entries : Store → Store × List StoreEntryMetadata
  get_sorted_entries s = elim s.sorted_entries_cache [
    | some sorted ↦ (s, sorted)
    | none ↦
        let sorted = sort feed_before (values s.entries) in
        (record s { sorted_entries_cache = some sorted }, sorted)
  ]

  -- `scanEntriesSince`, with the store that it leaves; a result of `none` means that the search
  -- did not end.
  unfoldable pub scan_entries_since :
      Store → Option StoreScanCursor → ℕ → Option StoreScanFilters → Store × Option StoreScanResult
  scan_entries_since s cursor limit filters = elim (scoped_doc filters) [
    | some doc ↦
        (s, some (scan_doc_scoped_entries (metadata_of s (doc_ids doc s)) cursor limit filters))
    | none ↦
        let (s', sorted) = get_sorted_entries s in
        (
          s',
          Option.map
              (λ start.
                scan_result cursor
                  (probed filters (fill_page limit filters [] (drop start sorted))))
              (start_index sorted cursor),
        )
  ]
