-- ===== src/Tests/StoreTests.antt =====
-- The store's theorems at the sample data.
use mindoo_db.Base.{
  ℕ, ◌*◌, ◌^◌, ◌<◌, ◌≡◌, ◌||◌, refl, ap, true, some, none, List, [], ◌∷◌, str_dec, str_ltb, is_some,
  has, JsString, ◌↔◌, lookup, filterb, take, drop, length, arith, set, option_dec,
}
use mindoo_db.Entry.{docs, StoreEntryMetadata, StoreScanCursor}
use mindoo_db.Scan.{is_after_scan_cursor, next_cursor, scan_result}
use mindoo_db.Scan.Page.{first_page, selected}
use mindoo_db.Store.{
  Store, new_store, stamped, store_entry, put_entry, put_entries, witnessed, same_receipt,
  apply_witness_receipt, invalidate_if, apply_witness_receipts, purge_doc_history,
}
use mindoo_db.Store.Purge.{Purged, purge_doc_history-Purged}
use mindoo_db.Store.Queries.{get_entry, find_new_entries, find_new_entries_for_doc}
use mindoo_db.Store.Contents.{kept_bytes, get_entry-put_entries}
use mindoo_db.Store.Feed.{
  binary_search_after_cursor, get_sorted_entries, scan_entries_since, start_index, probed,
  fill_page, feed_before, matches_scan_filters, not_after,
}
use mindoo_db.Base.Sort.{sort, insert}
use mindoo_db.Store.Feed.Search.{binary_search-drop}
use mindoo_db.Store.Feed.Order.{feed, of_doc, scan_entries_since-selected, feed-Increasing}
use mindoo_db.Store.Feed.Paging.{selected-next_cursor}
use mindoo_db.Store.Run.{run_call, run, IsSound, run-IsSound}
use mindoo_db.Store.Sync.{pulled, pulled-has, find_new_entries_for_doc-find_new_entries}
use mindoo_db.Store.ScanAll.{scan_pages, scan_from}
use mindoo_db.Store.ScanAll.Complete.{scan_from-selected}
use mindoo_db.Store.Resolve.{queued, resolve_loop, resolve_dependencies}
use mindoo_db.Store.Resolve.Exact.{everything, resolve_dependencies-Reaches}
use mindoo_db.Planner.{total_dependencies}
use mindoo_db.Planner.Walk.{Reaches}
use mindoo_db.Tests.{
  text_a, text_b, text_c, doc_two, meta_a, meta_b, meta_c, entry_a, entry_b, receipt_a, fresh_store,
  demo_calls, demo_store, demo_filters,
}

run-IsSound_example : IsSound str_ltb (run str_ltb (new_store text_a docs true text_b) demo_calls)
run-IsSound_example = run-IsSound str_ltb text_a docs true text_b demo_calls

demo : IsSound str_ltb demo_store
demo = run-IsSound str_ltb text_a docs true text_b demo_calls

-- The store runs as it should: three entries, the first with a new receipt order.
demo_entries :
    demo_store.entries
    ≡ (text_a, witnessed 3 meta_a receipt_a)
      ∷ (text_b, stamped 2 meta_b)
      ∷ (text_c, stamped 4 meta_c)
      ∷ []
unfolding new_store run run_call put_entries put_entry store_entry apply_witness_receipts
    apply_witness_receipt invalidate_if witnessed same_receipt scan_entries_since get_sorted_entries
    lookup set str_dec option_dec
demo_entries = refl

demo-small : 2 * length demo_store.entries < 2 ^ 32
demo-small = omega (arith, ap length demo_entries)

scan_entries_since-selected_example :
    (scan_entries_since str_ltb demo_store none 1 (some demo_filters)).1
    ≡ some (scan_result none (first_page 1 (selected none (some demo_filters) (feed demo_store))))
scan_entries_since-selected_example =
    scan_entries_since-selected str_ltb demo_store none 1 (some demo_filters) demo.valid demo.fresh
      demo-small

purge_doc_history-Purged_example : Purged doc_two demo_store (purge_doc_history demo_store doc_two)
purge_doc_history-Purged_example = purge_doc_history-Purged demo_store doc_two demo.valid

pulled-has_example : is_some (lookup str_dec text_c (pulled fresh_store demo_store).entries) ≡ (
    is_some (lookup str_dec text_c fresh_store.entries)
    || is_some (lookup str_dec text_c demo_store.entries))
pulled-has_example = pulled-has fresh_store demo_store text_c demo.valid

selected-next_cursor_example :
    selected
      (next_cursor none (take 1 (selected none none (feed demo_store))))
      none
      (feed demo_store)
    ≡ drop 1 (selected none none (feed demo_store))
selected-next_cursor_example =
    selected-next_cursor none none 1 (feed demo_store) (feed-Increasing demo_store demo.valid)
      (omega arith)

get_entry-put_entries_example :
    get_entry (put_entries fresh_store (entry_a ∷ entry_b ∷ [])) text_a
    ≡ some (record {
      metadata = stamped fresh_store.next_receipt_order meta_a;
      encrypted_data = kept_bytes fresh_store entry_a;
    })
unfolding new_store lookup
get_entry-put_entries_example = get_entry-put_entries fresh_store entry_a refl (entry_b ∷ [])

find_new_entries_for_doc-find_new_entries_example :
    find_new_entries_for_doc demo_store (text_b ∷ []) doc_two
    ≡ filterb (of_doc doc_two) (find_new_entries demo_store (text_b ∷ []))
find_new_entries_for_doc-find_new_entries_example =
    find_new_entries_for_doc-find_new_entries demo_store (text_b ∷ []) doc_two demo.valid

-- Two entries of receipt orders one and two, searched for what comes after the first.
abbrev two_sorted : List StoreEntryMetadata
two_sorted = stamped 1 meta_a ∷ stamped 2 meta_b ∷ []

abbrev after_first : StoreScanCursor
after_first = record { receipt_order = 1; id = text_a }

binary_search-drop_example :
    (n : ℕ) × (binary_search_after_cursor two_sorted after_first ≡ some n)
    × (drop n two_sorted ≡ filterb (λ m. is_after_scan_cursor m after_first) two_sorted)
binary_search-drop_example = binary_search-drop two_sorted after_first (ground arith) (omega arith)

-- The third entry depends on the second and the first, and the first depends on the second.
abbrev diamond : Store
diamond = put_entries fresh_store (
    record { metadata = record meta_a { dependency_ids = text_b ∷ [] }; encrypted_data = [] }
    ∷ entry_b
    ∷ record {
      metadata = record meta_c { dependency_ids = text_b ∷ text_a ∷ [] };
      encrypted_data = [];
    }
    ∷ [])

-- The first entry stands before the second, which it depends on.
diamond_order :
    resolve_dependencies diamond text_c everything ≡ some (text_a ∷ text_b ∷ text_c ∷ [])
unfolding new_store put_entries put_entry store_entry lookup set queued resolve_loop
    resolve_dependencies total_dependencies str_dec
diamond_order = refl

-- A depth of zero hops and the first entry as the start.
diamond_bounded :
    resolve_dependencies diamond text_a (record everything { max_depth = some 0 })
    ≡ some (text_a ∷ [])
unfolding new_store put_entries put_entry store_entry lookup set queued resolve_loop
    resolve_dependencies total_dependencies str_dec
diamond_bounded = refl

resolve_dependencies-Reaches_example :
    (ids : List JsString) × (resolve_dependencies diamond text_c everything ≡ some ids)
    × ((x : JsString) → (has str_dec x ids ≡ true) ↔ Reaches diamond.entries (text_c ∷ []) x)
resolve_dependencies-Reaches_example = resolve_dependencies-Reaches diamond text_c

-- Three pages of one entry, in the order of receipt.
demo_pages :
    scan_pages str_ltb 1 none 4 demo_store none []
    ≡ some (
      stamped 2 meta_b ∷ witnessed 3 meta_a receipt_a ∷ stamped 4 meta_c ∷ [],
      some (record { receipt_order = 4; id = text_c }),
    )
unfolding new_store run run_call put_entries put_entry store_entry apply_witness_receipts
    apply_witness_receipt invalidate_if witnessed same_receipt scan_entries_since get_sorted_entries
    lookup set str_dec option_dec scan_pages start_index scan_result probed fill_page sort insert
    feed_before matches_scan_filters binary_search_after_cursor not_after str_ltb
demo_pages = refl

scan_from-selected_example :
    scan_from str_ltb demo_store none (some demo_filters)
    ≡ some (
      selected none (some demo_filters) (feed demo_store),
      next_cursor none (selected none (some demo_filters) (feed demo_store)),
    )
scan_from-selected_example =
    scan_from-selected str_ltb demo_store none (some demo_filters) demo demo-small
