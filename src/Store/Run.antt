-- ===== src/Store/Run.antt =====
-- Every state that calls can bring the in-memory store into is sound: well-formed, with a cache
-- that is never stale.
use mindoo_db.Base.{
  ℕ, ◌≡◌, ◌⊎◌, refl, ap, ◌∙◌, inl, inr, Bool, true, false, Option, some, List, [], ◌∷◌, foldl,
  JsString, str_dec, values, lookup, arith, Bool-cases, Option-cases,
}
use mindoo_db.Base.Sort.{sort}
use mindoo_db.Entry.{StoreKind, StoreEntryMetadata, StoreEntry, StoreScanCursor, StoreScanFilters}
use mindoo_db.Store.{
  Store, new_store, put_entries, same_receipt, apply_witness_receipt, apply_witness_receipts,
  invalidate_if, forget_doc, purge_doc_history, clear_all_local_data,
}
use mindoo_db.Store.Counts.{ids_of, refs}
use mindoo_db.Store.WellFormed.{
  IsWellFormed, recached-IsWellFormed, put_entries-IsWellFormed,
  apply_witness_receipts-IsWellFormed,
}
use mindoo_db.Store.Purge.{purge_doc_history-Purged}
use mindoo_db.Store.Feed.{scoped_doc, feed_before, get_sorted_entries, scan_entries_since}
use mindoo_db.Store.Feed.Order.{IsFresh}

-- The calls that change the store; a scan changes its cache.
pub data Call : Type 0 where
  put : List StoreEntry → Call
  witness : List StoreEntryMetadata → Call
  purge : JsString → Call
  scan : Option StoreScanCursor → ℕ → Option StoreScanFilters → Call
  clear : JsString → Call

-- A store as the constructor or `clearAllLocalData` leaves it.
empty-IsWellFormed :
    (s : Store)
    → s.entries ≡ []
    → s.content_store ≡ []
    → s.doc_index ≡ []
    → s.content_ref_count ≡ []
    → IsWellFormed s
unfolding lookup ids_of refs
empty-IsWellFormed s a b c d = record {
  ordered = rw a (record {
    distinct = tt;
    keyed = λ k m h. cc;
    ordered = λ k m h. absurd (cc);
    injective = λ k k' m m' h h' e. cc;
  });
  counted = record { counts = λ h. rw (a, d); content = λ h. rw (a, b) };
  indexed = λ q. rw (a, c);
}

-- A round of the witness loop leaves everything as it is, or sets the flag `mutated`.
apply_witness_receipt-flag :
    (p : Store × Bool) (r : StoreEntryMetadata)
    → (apply_witness_receipt p r ≡ p) ⊎ ((apply_witness_receipt p r).1 ≡ true)
unfolding apply_witness_receipt
apply_witness_receipt-flag (s, b) r = elim (Option-cases r.received_at) [
  | inl e ↦ inl (rw (e, apply_witness_receipt))
  | inr (t, e) ↦ elim (Option-cases (lookup str_dec r.id s.entries)) [
    | inl missing ↦ inl (rw (e, missing, apply_witness_receipt))
    | inr (existing, found) ↦ elim (Bool-cases (same_receipt existing r)) [
      | inl same ↦ inl (rw (e, found, same, apply_witness_receipt))
      | inr new ↦ inr (rw (e, found, new, apply_witness_receipt))
    ]
  ]
]

witness_loop-flag :
    (rs : List StoreEntryMetadata) (p : Store × Bool)
    → p.1 ≡ true
    → (foldl apply_witness_receipt p rs).1 ≡ true
witness_loop-flag [] p h = h
witness_loop-flag (r ∷ rs) p h =
    witness_loop-flag rs (apply_witness_receipt p r)
      (elim (apply_witness_receipt-flag p r) [ inl e ↦ rw e h | inr e ↦ e ])

-- As long as `mutated` is not set the loop has not changed the store.
witness_loop-unchanged :
    (rs : List StoreEntryMetadata) (p : Store × Bool)
    → (foldl apply_witness_receipt p rs).1 ≡ false
    → (foldl apply_witness_receipt p rs).0 ≡ p.0
witness_loop-unchanged [] p h = refl
witness_loop-unchanged (r ∷ rs) p h = elim (apply_witness_receipt-flag p r) [
  | inl e ↦
      witness_loop-unchanged rs (apply_witness_receipt p r) h ∙ ap (λ (q : Store × Bool). q.0) e
  | inr e ↦ absurd (cc (witness_loop-flag rs (apply_witness_receipt p r) e))
]

module _ (locale_before : JsString → JsString → Bool) where
  unfoldable pub run_call : Store → Call → Store
  run_call s (put es) = put_entries s es
  run_call s (witness rs) = apply_witness_receipts s rs
  run_call s (purge d) = purge_doc_history s d
  run_call s (scan cursor limit filters) =
      (scan_entries_since locale_before s cursor limit filters).0
  run_call s (clear epoch) = clear_all_local_data s epoch

  unfoldable pub run : Store → List Call → Store
  run = foldl run_call

  pub record IsSound (s : Store) : Type 0 where
    pub valid : IsWellFormed s
    pub fresh : IsFresh locale_before s

  put_entries-IsFresh :
      (s : Store) (es : List StoreEntry) → IsFresh locale_before (put_entries s es)
  unfolding put_entries
  put_entries-IsFresh s es = inl refl

  apply_witness_receipts-IsFresh :
      (s : Store) (rs : List StoreEntryMetadata)
      → IsFresh locale_before s
      → IsFresh locale_before (apply_witness_receipts s rs)
  unfolding apply_witness_receipts invalidate_if
  apply_witness_receipts-IsFresh s rs f =
      elim (Bool-cases (foldl apply_witness_receipt (s, false) rs).1) [
        | inl changed ↦ inl (ground arith)
        | inr same ↦ ground (arith, witness_loop-unchanged rs (s, false) same)
      ]

  purge_doc_history-IsFresh :
      (s : Store) (d : JsString)
      → IsFresh locale_before s
      → IsFresh locale_before (purge_doc_history s d)
  unfolding purge_doc_history forget_doc
  purge_doc_history-IsFresh s d f = ground arith

  pub scan_entries_since-IsSound :
      (s : Store) (cursor : Option StoreScanCursor) (limit : ℕ) (filters : Option StoreScanFilters)
      → IsSound s
      → IsSound (scan_entries_since locale_before s cursor limit filters).0
  unfolding scan_entries_since get_sorted_entries
  scan_entries_since-IsSound s cursor limit filters inv = elim (Option-cases (scoped_doc filters)) [
    | inr (d, scoped) ↦ rw (scoped, scan_entries_since) inv
    | inl all ↦ elim (Option-cases s.sorted_entries_cache) [
      | inr (sorted, e) ↦ rw (all, scan_entries_since, e, get_sorted_entries) inv
      | inl e ↦
          rw (all, scan_entries_since, e, get_sorted_entries)
            (record {
              valid =
                  recached-IsWellFormed s
                    (some (sort (feed_before locale_before) (values s.entries))) inv.valid;
              fresh = inr refl;
            })
    ]
  ]

  run_call-IsSound : (s : Store) (c : Call) → IsSound s → IsSound (run_call s c)
  unfolding run_call
  run_call-IsSound s (put es) inv = record {
    valid = put_entries-IsWellFormed s es inv.valid;
    fresh = put_entries-IsFresh s es;
  }
  run_call-IsSound s (witness rs) inv = record {
    valid = apply_witness_receipts-IsWellFormed s rs inv.valid;
    fresh = apply_witness_receipts-IsFresh s rs inv.fresh;
  }
  run_call-IsSound s (purge d) inv = record {
    valid = (purge_doc_history-Purged s d inv.valid).valid;
    fresh = purge_doc_history-IsFresh s d inv.fresh;
  }
  run_call-IsSound s (scan cursor limit filters) inv =
      scan_entries_since-IsSound s cursor limit filters inv
  run_call-IsSound s (clear epoch) inv =
      unfold clear_all_local_data in
      record {
        valid = empty-IsWellFormed (clear_all_local_data s epoch) refl refl refl refl;
        fresh = inl refl;
      }

  run-IsSound_from : (cs : List Call) (s : Store) → IsSound s → IsSound (run s cs)
  unfolding run
  run-IsSound_from [] s inv = inv
  run-IsSound_from (c ∷ cs) s inv = run-IsSound_from cs (run_call s c) (run_call-IsSound s c inv)

  -- Whatever sequence of puts, witness receipts, purges, scans and clears a new store has been
  -- through, it is well-formed and its cache is empty or holds the sorted entries.
  pub run-IsSound :
      (db_id : JsString) (kind : StoreKind) (indexing : Bool) (epoch : JsString) (cs : List Call)
      → IsSound (run (new_store db_id kind indexing epoch) cs)
  unfolding new_store
  run-IsSound db_id kind indexing epoch cs =
      run-IsSound_from cs (new_store db_id kind indexing epoch) (record {
        valid = empty-IsWellFormed (new_store db_id kind indexing epoch) refl refl refl refl;
        fresh = inl refl;
      })
