-- ===== src/Store/ScanAll/Complete.antt =====
-- What the paging loop collects, and where its cursor ends.
use mindoo_db.Base.{
  ℕ, zero, suc, ◌+◌, ◌*◌, ◌^◌, ◌≤◌, ◌<◌, ◌≡◌, refl, sym, ap, ◌∙◌, Bool, true, false, Option, some,
  List, [], ◌∷◌, ◌++◌, values, JsString, length, ltb, take, drop, last?, filterb, append_assoc,
  arith, Bool-cases, Option-cases, inl, inr,
}
use mindoo_db.Entry.{StoreEntryMetadata, StoreScanCursor, StoreScanFilters}
use mindoo_db.Base.Sort.{sort}
use mindoo_db.Scan.{compare_by_receipt_order_and_id, next_cursor, scan_result}
use mindoo_db.Scan.Page.{selected}
use mindoo_db.Store.{Store}
use mindoo_db.Store.Feed.{scoped_doc, get_sorted_entries, scan_entries_since}
use mindoo_db.Store.Feed.Order.{feed, feed-Increasing, length-feed, scan_entries_since-selected}
use mindoo_db.Store.Feed.Paging.{selected-next_cursor}
use mindoo_db.Store.Run.{IsSound, scan_entries_since-IsSound}
use mindoo_db.Store.ScanAll.{scan_pages, page_size, scan_from}

module _ {ℓ} {A : Type ℓ} where
  take-drop : (n : ℕ) (xs : List A) → take n xs ++ drop n xs ≡ xs
  take-drop zero xs = refl
  take-drop (suc n) [] = refl
  take-drop (suc n) (x ∷ xs) = ap (◌∷◌ x) (take-drop n xs)

  take_all : (n : ℕ) (xs : List A) → ltb n (length xs) ≡ false → take n xs ≡ xs
  take_all zero [] h = refl
  take_all zero (x ∷ xs) h = absurd (ground arith)
  take_all (suc n) [] h = refl
  take_all (suc n) (x ∷ xs) h = ap (◌∷◌ x) (take_all n xs (ground arith))

  length-drop :
      (n : ℕ) (xs : List A) → ltb n (length xs) ≡ true → n + length (drop n xs) ≡ length xs
  length-drop zero xs h = omega arith
  length-drop (suc n) [] h = absurd (ground arith)
  length-drop (suc n) (x ∷ xs) h = ground (arith, length-drop n xs)

  last-behind : (x : A) (xs : List A) → ltb 0 (length xs) ≡ true → last? (x ∷ xs) ≡ last? xs
  last-behind x [] h = absurd (ground arith)
  last-behind x (y ∷ xs) h = refl

  last-drop : (n : ℕ) (xs : List A) → ltb n (length xs) ≡ true → last? (drop n xs) ≡ last? xs
  last-drop zero xs h = refl
  last-drop (suc n) [] h = absurd (ground arith)
  last-drop (suc n) (x ∷ xs) h =
      last-drop n xs (ground arith) ∙ sym (last-behind x xs (ground arith))

  last-there : (xs : List A) → ltb 0 (length xs) ≡ true → (x : A) × (last? xs ≡ some x)
  last-there [] h = absurd (ground arith)
  last-there (x ∷ []) h = (x, refl)
  last-there (x ∷ y ∷ xs) h = last-there (y ∷ xs) (ground arith)

length-filterb :
    (p : StoreEntryMetadata → Bool) (ms : List StoreEntryMetadata)
    → length (filterb p ms) ≤ length ms
length-filterb p [] = omega arith
length-filterb p (m ∷ ms) = ground (arith, length-filterb p ms)

-- The cursor behind the rest of a selection is the cursor behind all of it.
next_cursor-drop :
    (cursor cursor' : Option StoreScanCursor) (n : ℕ) (ms : List StoreEntryMetadata)
    → ltb n (length ms) ≡ true
    → next_cursor cursor' (drop n ms) ≡ next_cursor cursor ms
unfolding next_cursor
next_cursor-drop cursor cursor' n ms h =
    let (m, found) = last-there ms (ground arith) in ground (arith, last-drop n ms h, found)

module _ (locale_before : JsString → JsString → Bool) (limit : ℕ)
    (filters : Option StoreScanFilters) where
  -- A scan changes nothing but the cache.
  scan_entries_since-entries :
      (s : Store) (cursor : Option StoreScanCursor)
      → (scan_entries_since locale_before s cursor limit filters).0.entries ≡ s.entries
  unfolding scan_entries_since get_sorted_entries
  scan_entries_since-entries s cursor = elim (Option-cases (scoped_doc filters)) [
    | inr (d, scoped) ↦ rw (scoped, scan_entries_since)
    | inl all ↦ elim (Option-cases s.sorted_entries_cache) [
      | inr (sorted, e) ↦ rw (all, scan_entries_since, e, get_sorted_entries)
      | inl e ↦ rw (all, scan_entries_since, e, get_sorted_entries)
    ]
  ]

  scan_pages-selected :
      (fuel : ℕ) (s : Store) (cursor : Option StoreScanCursor) (all : List StoreEntryMetadata)
      → IsSound locale_before s
      → 2 * length s.entries < 2 ^ 32
      → 1 ≤ limit
      → length (selected cursor filters (feed s)) < fuel
      → scan_pages locale_before limit filters fuel s cursor all
        ≡ some (
          all ++ selected cursor filters (feed s),
          next_cursor cursor (selected cursor filters (feed s)),
        )
  unfolding scan_pages scan_result
  scan_pages-selected zero s cursor all sound small positive enough = absurd (omega arith)
  scan_pages-selected (suc fuel) s cursor all sound small positive enough =
      let chosen = selected cursor filters (feed s) in
      let page =
        scan_entries_since-selected locale_before s cursor limit filters sound.valid sound.fresh
          small in
      elim (Bool-cases (ltb limit (length chosen))) [
        | inl more ↦
            let s' = (scan_entries_since locale_before s cursor limit filters).0 in
            let cursor' = next_cursor cursor (take limit chosen) in
            let same : s'.entries ≡ s.entries = scan_entries_since-entries s cursor in
            let same_feed : feed s' ≡ feed s =
              ap (λ es. sort compare_by_receipt_order_and_id (values es)) same in
            let rest : selected cursor' filters (feed s') ≡ drop limit chosen =
              ap (selected cursor' filters) same_feed
              ∙ selected-next_cursor cursor filters limit (feed s) (feed-Increasing s sound.valid)
                  positive in
            rw (page, scan_pages, more)
              (scan_pages-selected fuel s' cursor' (all ++ take limit chosen)
                  (scan_entries_since-IsSound locale_before s cursor limit filters sound)
                  (rw (same) small) positive
                  (omega (arith, ap length rest, length-drop limit chosen more))
                ∙ rw (
                  rest,
                  next_cursor-drop cursor cursor' limit chosen more,
                  append_assoc all (take limit chosen) (drop limit chosen),
                  take-drop limit chosen,
                ))
        | inr last ↦ rw (page, scan_pages, last, take_all limit chosen last)
      ]

-- On a well-formed store of fewer than 2^31 entries whose cache is current, the loop over pages of a
-- thousand ends. From any cursor it collects exactly the entries of the feed that come after the
-- cursor and pass the filters, as they stand in the feed, and it ends with the cursor of the last of
-- them, or with its own where there are none.
pub scan_from-selected :
    (locale_before : JsString → JsString → Bool) (s : Store) (cursor : Option StoreScanCursor)
    (filters : Option StoreScanFilters)
    → IsSound locale_before s
    → 2 * length s.entries < 2 ^ 32
    → scan_from locale_before s cursor filters
      ≡ some
          (selected cursor filters (feed s), next_cursor cursor (selected cursor filters (feed s)))
unfolding scan_from
scan_from-selected locale_before s cursor filters sound small =
    scan_pages-selected locale_before page_size filters (suc (length s.entries)) s cursor [] sound
      small (omega arith) (omega (arith, length-filterb _ (feed s), length-feed s))
