-- ===== src/Store/Feed/Order.antt =====
-- `scanEntriesSince` meets the specification of a scan, on both of its paths: the page is the
-- first entries that pass, of the feed in scan order.
use mindoo_db.Base.{
  ℕ, zero, suc, ◌+◌, ◌*◌, ◌^◌, ◌<◌, ◌≡◌, ◌⊎◌, refl, sym, ap, ◌∙◌, Bool, true, false, ◌&&◌, Option,
  some, none, List, [], ◌∷◌, ◌++◌, JsString, str_dec, ite, ltb, length, length-append, take, drop,
  filterb, any, All, values, keys, lookup, lookup_tail, Distinct, has-keys, arith, append_nil,
  append_assoc, Option-cases, inl, inr, if_pos,
}
use mindoo_db.Base.Sort.{
  sort, AllDiffer, Increasing, by_key, Refines, sort-by_key, sort-Increasing, filterb-sort,
  length-sort, AllDiffer-filterb,
}
use mindoo_db.Entry.{StoreEntryMetadata, StoreScanCursor, StoreScanFilters, order_of}
use mindoo_db.Scan.{
  compare_by_receipt_order_and_id, metadata_matches_scan_filters, after_cursor, scan_result,
  scan_doc_scoped_entries,
}
use mindoo_db.Scan.Page.{first_page, selected, doc_page-first_page, extended}
use mindoo_db.Store.{Store, doc_ids}
use mindoo_db.Store.Counts.{Entries, ids_of}
use mindoo_db.Store.WellFormed.{IsWellFormed}
use mindoo_db.Store.Feed.{
  matches_scan_filters, fill_page, probed, metadata_of, scoped_doc, start_index, feed_before,
  get_sorted_entries, scan_entries_since,
}
use mindoo_db.Store.Feed.Search.{binary_search-drop}

-- What holds of every lookup holds of every value.
values-All :
    (P : StoreEntryMetadata → Type 0) (es : Entries)
    → Distinct str_dec (keys es)
    → ((k : JsString) (m : StoreEntryMetadata) → lookup str_dec k es ≡ some m → P m)
    → All P (values es)
unfolding lookup
values-All P [] d h = tt
values-All P (e ∷ es) d h = (
  h e.0 e.1 (if_pos (str_dec e.0 e.0) refl _ _),
  values-All P es d.1 (λ k m g. h k m (lookup_tail str_dec k m e es d g)),
)

values-AllDiffer :
    (es : Entries)
    → Distinct str_dec (keys es)
    → ((k k' : JsString) (m m' : StoreEntryMetadata)
        → lookup str_dec k es ≡ some m
        → lookup str_dec k' es ≡ some m'
        → order_of m ≡ order_of m'
        → k ≡ k')
    → AllDiffer order_of (values es)
unfolding lookup
values-AllDiffer [] d h = tt
values-AllDiffer (e ∷ es) d h = (
  values-All (λ m. ¬ (order_of e.1 ≡ order_of m)) es d.1
      (λ k m g same. clash k m g (
        h e.0 k e.1 m (if_pos (str_dec e.0 e.0) refl _ _) (lookup_tail str_dec k m e es d g) same)),
  values-AllDiffer es d.1 (λ k k' m m' g g'.
      h k k' m m' (lookup_tail str_dec k m e es d g) (lookup_tail str_dec k' m' e es d g')),
)
  where
    clash : (k : JsString) (m : StoreEntryMetadata) → lookup str_dec k es ≡ some m → e.0 ≡ k → ⊥
    clash k m g same = ground (arith, has-keys str_dec k es, has-keys str_dec e.0 es)

-- The feed: all entries in scan order.
abbrev pub feed : Store → List StoreEntryMetadata
feed s = sort compare_by_receipt_order_and_id (values s.entries)

-- The cache, if there is one, holds the sorted entries.
abbrev pub IsFresh : (JsString → JsString → Bool) → Store → Type 0
IsFresh locale_before s =
    (s.sorted_entries_cache ≡ none)
    ⊎ (s.sorted_entries_cache ≡ some (sort (feed_before locale_before) (values s.entries)))

compare-Refines : Refines order_of compare_by_receipt_order_and_id
unfolding compare_by_receipt_order_and_id
compare-Refines a b ne = ground arith

feed_before-Refines :
    (locale_before : JsString → JsString → Bool) → Refines order_of (feed_before locale_before)
unfolding feed_before
feed_before-Refines locale_before a b ne = ground arith

entries-AllDiffer : (s : Store) → IsWellFormed s → AllDiffer order_of (values s.entries)
entries-AllDiffer s inv = values-AllDiffer s.entries inv.ordered.distinct inv.ordered.injective

pub feed-by_key : (s : Store) → IsWellFormed s → feed s ≡ sort (by_key order_of) (values s.entries)
feed-by_key s inv =
    sort-by_key order_of _ (values s.entries) compare-Refines (entries-AllDiffer s inv)

pub feed-Increasing : (s : Store) → IsWellFormed s → Increasing order_of (feed s)
feed-Increasing s inv =
    rw (feed-by_key s inv) (sort-Increasing order_of (values s.entries) (entries-AllDiffer s inv))

-- The collation does not matter: the entries that `getSortedEntries` returns are the feed.
get_sorted_entries-feed :
    (locale_before : JsString → JsString → Bool) (s : Store)
    → IsWellFormed s
    → IsFresh locale_before s
    → (get_sorted_entries locale_before s).1 ≡ feed s
unfolding get_sorted_entries
get_sorted_entries-feed locale_before s inv fresh = ground (
  arith,
  feed-by_key s inv,
  sort-by_key order_of (feed_before locale_before) (values s.entries)
      (feed_before-Refines locale_before) (entries-AllDiffer s inv),
)

-- The two copies of the filter test agree.
matches_scan_filters-eq :
    (m : StoreEntryMetadata) (f : Option StoreScanFilters)
    → matches_scan_filters m f ≡ metadata_matches_scan_filters m f
unfolding matches_scan_filters metadata_matches_scan_filters
matches_scan_filters-eq m none = refl
matches_scan_filters-eq m (some f) = refl

module _ (limit : ℕ) (filters : Option StoreScanFilters) where
  abbrev passing : List StoreEntryMetadata → List StoreEntryMetadata
  passing ms = filterb (λ m. metadata_matches_scan_filters m filters) ms

  any-passing :
      (ms : List StoreEntryMetadata)
      → any (λ m. matches_scan_filters m filters) ms ≡ ltb 0 (length (passing ms))
  any-passing [] = refl
  any-passing (m ∷ ms) = ground (arith, any-passing ms, matches_scan_filters-eq m filters)

  fill_page-extended :
      (ms page : List StoreEntryMetadata) (room : ℕ)
      → length page + room ≡ limit
      → probed filters (fill_page limit filters page ms) ≡ extended page room (passing ms)
  unfolding fill_page probed
  fill_page-extended [] page zero e = ground (arith, append_nil page)
  fill_page-extended [] page (suc room) e = ground (arith, append_nil page)
  fill_page-extended (m ∷ ms) page zero e = ground (arith, append_nil page, any-passing (m ∷ ms))
  fill_page-extended (m ∷ ms) page (suc room) e = ground (
    arith,
    matches_scan_filters-eq m filters,
    length-append page (m ∷ []),
    append_assoc page (m ∷ []) (take room (passing ms)),
    fill_page-extended ms page (suc room) e,
    fill_page-extended ms (page ++ (m ∷ [])) room,
  )

-- The metadata of the ids that the index lists are the document's entries.
metadata_of-ids_of :
    (s : Store) (d : JsString) (es : Entries)
    → All (λ (e : JsString × StoreEntryMetadata). lookup str_dec e.0 s.entries ≡ some e.1) es
    → metadata_of s (ids_of d es) ≡ filterb (λ m. ite (str_dec d m.doc_id) true false) (values es)
unfolding metadata_of ids_of
metadata_of-ids_of s d [] h = refl
metadata_of-ids_of s d (e ∷ es) h = ground (arith, metadata_of-ids_of s d es h.1)

pub keyed-All :
    (s : Store) (es : Entries)
    → Distinct str_dec (keys es)
    → ((k : JsString) (m : StoreEntryMetadata)
        → lookup str_dec k es ≡ some m
        → lookup str_dec k s.entries ≡ some m)
    → All (λ (e : JsString × StoreEntryMetadata). lookup str_dec e.0 s.entries ≡ some e.1) es
unfolding lookup
keyed-All s [] d h = tt
keyed-All s (e ∷ es) d h = (
  h e.0 e.1 (if_pos (str_dec e.0 e.0) refl _ _),
  keyed-All s es d.1 (λ k m g. h k m (lookup_tail str_dec k m e es d g)),
)

abbrev pub of_doc : JsString → StoreEntryMetadata → Bool
of_doc d m = ite (str_dec d m.doc_id) true false

-- The index leads to exactly the entries of the document, in the order of the store.
pub metadata_of-doc_ids :
    (s : Store) (d : JsString)
    → IsWellFormed s
    → metadata_of s (doc_ids d s) ≡ filterb (of_doc d) (values s.entries)
metadata_of-doc_ids s d inv =
    ap (metadata_of s) (inv.indexed d)
    ∙ metadata_of-ids_of s d s.entries (keyed-All s s.entries inv.ordered.distinct (λ k m h. h))

-- A document's entries, sorted, are its part of the feed.
doc_feed :
    (s : Store) (d : JsString)
    → IsWellFormed s
    → sort compare_by_receipt_order_and_id (metadata_of s (doc_ids d s))
      ≡ filterb (of_doc d) (feed s)
doc_feed s d inv =
    let differ = entries-AllDiffer s inv in
    rw
      (
        metadata_of-doc_ids s d inv,
        feed-by_key s inv,
        filterb-sort order_of (of_doc d) (values s.entries) differ,
      )
      (sort-by_key order_of _ (filterb (of_doc d) (values s.entries)) compare-Refines
        (AllDiffer-filterb order_of (of_doc d) (values s.entries) differ))

-- The filters of a scan of one document let no other document pass.
scoped-matches :
    (f : Option StoreScanFilters) (d : JsString) (m : StoreEntryMetadata)
    → scoped_doc f ≡ some d
    → (of_doc d m && metadata_matches_scan_filters m f) ≡ metadata_matches_scan_filters m f
unfolding metadata_matches_scan_filters
scoped-matches none d m h = cc
scoped-matches (some f) d m h = ground arith

selected-of_doc :
    (cursor : Option StoreScanCursor) (f : Option StoreScanFilters) (d : JsString)
    (ms : List StoreEntryMetadata)
    → scoped_doc f ≡ some d
    → selected cursor f (filterb (of_doc d) ms) ≡ selected cursor f ms
selected-of_doc cursor f d [] h = refl
selected-of_doc cursor f d (m ∷ ms) h =
    ground (arith, selected-of_doc cursor f d ms h, scoped-matches f d m h)

filterb-after_none : (ms : List StoreEntryMetadata) → filterb (after_cursor none) ms ≡ ms
filterb-after_none [] = refl
filterb-after_none (m ∷ ms) = ap (◌∷◌ m) (filterb-after_none ms)

start_index-drop :
    (sorted : List StoreEntryMetadata) (cursor : Option StoreScanCursor)
    → Increasing order_of sorted
    → 2 * length sorted < 2 ^ 32
    → (n : ℕ) × (start_index sorted cursor ≡ some n)
      × (drop n sorted ≡ filterb (after_cursor cursor) sorted)
unfolding start_index
start_index-drop sorted none inc small = (0, refl, sym (filterb-after_none sorted))
start_index-drop sorted (some c) inc small = binary_search-drop sorted c inc small

-- Filtering twice is filtering by both tests.
passing-selected :
    (limit : ℕ) (cursor : Option StoreScanCursor) (filters : Option StoreScanFilters)
    (ms : List StoreEntryMetadata)
    → passing limit filters (filterb (after_cursor cursor) ms) ≡ selected cursor filters ms
passing-selected limit cursor filters [] = refl
passing-selected limit cursor filters (m ∷ ms) =
    ground (arith, passing-selected limit cursor filters ms)

length-values : (es : Entries) → length (values es) ≡ length es
length-values [] = refl
length-values (e ∷ es) = ap suc (length-values es)

pub length-feed : (s : Store) → length (feed s) ≡ length s.entries
length-feed s = length-sort _ (values s.entries) ∙ length-values s.entries

module _ (locale_before : JsString → JsString → Bool) (s : Store) (cursor : Option StoreScanCursor)
    (limit : ℕ) (filters : Option StoreScanFilters) where
  -- On a well-formed store of fewer than 2^31 entries whose cache is current, `scanEntriesSince`
  -- ends, and returns the first `limit` entries of the feed in scan order that come after the
  -- cursor and pass the filters, with the cursor of the last of them and whether there are more.
  -- This is so on the doc-scoped path and on the path over all entries, whatever the collation.
  pub scan_entries_since-selected :
      IsWellFormed s
      → IsFresh locale_before s
      → 2 * length s.entries < 2 ^ 32
      → (scan_entries_since locale_before s cursor limit filters).1
        ≡ some (scan_result cursor (first_page limit (selected cursor filters (feed s))))
  unfolding scan_entries_since scan_doc_scoped_entries
  scan_entries_since-selected inv fresh small = elim (Option-cases (scoped_doc filters)) [
    | inr (d, scoped) ↦
        rw (scoped, scan_entries_since, doc_feed s d inv)
          (ap (λ p. some (scan_result cursor p))
            (doc_page-first_page cursor limit filters (filterb (of_doc d) (feed s))
              ∙ ap (first_page limit) (selected-of_doc cursor filters d (feed s) scoped)))
    | inl all ↦
        let (n, found, rest) =
          start_index-drop (feed s) cursor (feed-Increasing s inv) (omega (arith, length-feed s)) in
        rw (all, scan_entries_since, get_sorted_entries-feed locale_before s inv fresh, found, rest)
          (ap (λ p. some (scan_result cursor p))
            (fill_page-extended limit filters (filterb (after_cursor cursor) (feed s)) [] limit
                (omega arith)
              ∙ ap (first_page limit) (passing-selected limit cursor filters (feed s))))
  ]
