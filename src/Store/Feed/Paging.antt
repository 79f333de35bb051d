-- ===== src/Store/Feed/Paging.antt =====
-- A scan that is resumed at the cursor it returned goes on where it stopped.
use mindoo_db.Base.{
  ℕ, zero, suc, ◌≤◌, ◌<◌, ◌≡◌, refl, ◌∙◌, subst, Bool, true, false, ◌&&◌, Option, some, none, List,
  [], ◌∷◌, str_ltb_irrefl, str_ltb_trans, take, drop, filterb, last?, All, take-nil, drop-nil,
  Option-cases, arith, Bool-cases, inl, inr,
}
use mindoo_db.Base.Sort.{Increasing, All-filterb}
use mindoo_db.Entry.{StoreEntryMetadata, StoreScanCursor, StoreScanFilters, order_of}
use mindoo_db.Scan.{is_after_scan_cursor, after_cursor, next_cursor, metadata_matches_scan_filters}
use mindoo_db.Scan.Page.{selected}

abbrev cursor_at : StoreEntryMetadata → StoreScanCursor
cursor_at m = record { receipt_order = order_of m; id = m.id }

Increasing-filterb :
    (p : StoreEntryMetadata → Bool) (ms : List StoreEntryMetadata)
    → Increasing order_of ms
    → Increasing order_of (filterb p ms)
Increasing-filterb p [] h = tt
Increasing-filterb p (m ∷ ms) h = elim (Bool-cases (p m)) [
  | inl e ↦ rw e (All-filterb order_of _ p ms h.0, Increasing-filterb p ms h.1)
  | inr e ↦ rw e (Increasing-filterb p ms h.1)
]

not_after_self : (m : StoreEntryMetadata) → is_after_scan_cursor m (cursor_at m) ≡ false
unfolding is_after_scan_cursor
not_after_self m = ground (arith, str_ltb_irrefl m.id)

-- Entries of a larger receipt order come after, those of a smaller one do not.
filterb-later :
    (m : StoreEntryMetadata) (ms : List StoreEntryMetadata)
    → All (λ x. order_of m < order_of x) ms
    → filterb (after_cursor (some (cursor_at m))) ms ≡ ms
unfolding is_after_scan_cursor
filterb-later m [] h = refl
filterb-later m (x ∷ ms) h = ground (arith, filterb-later m ms h.1)

not_after_smaller :
    (x m : StoreEntryMetadata)
    → order_of x < order_of m
    → is_after_scan_cursor x (cursor_at m) ≡ false
unfolding is_after_scan_cursor
not_after_smaller x m h = ground arith

last-cons : (y : StoreEntryMetadata) (ys : List StoreEntryMetadata) → ¬ (last? (y ∷ ys) ≡ none)
last-cons y [] = λ e. cc
last-cons y (z ∷ zs) = last-cons z zs

-- A page of a positive limit is empty only if there is nothing.
drop_of_last_none :
    (i : ℕ) (ms : List StoreEntryMetadata) → 1 ≤ i → last? (take i ms) ≡ none → ms ≡ drop i ms
drop_of_last_none zero ms h e = absurd (omega arith)
drop_of_last_none (suc i) [] h e = refl
drop_of_last_none (suc zero) (x ∷ ms) h e = cc
drop_of_last_none (suc (suc i)) (x ∷ []) h e = cc
drop_of_last_none (suc (suc i)) (x ∷ y ∷ ys) h e = absurd (last-cons y (take i ys) e)

All-last_take :
    (n : ℕ) (i : ℕ) (ms : List StoreEntryMetadata) (m : StoreEntryMetadata)
    → All (λ x. n < order_of x) ms
    → last? (take i ms) ≡ some m
    → n < order_of m
All-last_take n zero ms m h e = cc
All-last_take n (suc i) [] m h e = cc
All-last_take n (suc i) (x ∷ []) m h e = ground (arith, take-nil {A = StoreEntryMetadata} i)
All-last_take n (suc zero) (x ∷ y ∷ ys) m h e = ground arith
All-last_take n (suc (suc i)) (x ∷ y ∷ ys) m h e = All-last_take n (suc i) (y ∷ ys) m h.1 e

-- On increasing entries, what comes after the last of the first `i` is the rest.
filterb-rest :
    (i : ℕ) (ms : List StoreEntryMetadata) (m : StoreEntryMetadata)
    → Increasing order_of ms
    → last? (take i ms) ≡ some m
    → filterb (after_cursor (some (cursor_at m))) ms ≡ drop i ms
filterb-rest zero ms m inc e = cc
filterb-rest (suc i) [] m inc e = cc
filterb-rest (suc i) (x ∷ []) m inc e =
    let same : x ≡ m = ground (arith, take-nil {A = StoreEntryMetadata} i) in
    subst (λ k. filterb (after_cursor (some (cursor_at k))) (x ∷ []) ≡ drop i []) same
      (rw (not_after_self x, drop-nil))
filterb-rest (suc zero) (x ∷ y ∷ ys) m inc e =
    let same : x ≡ m = ground arith in
    subst (λ k. filterb (after_cursor (some (cursor_at k))) (x ∷ y ∷ ys) ≡ y ∷ ys) same
      (rw (not_after_self x) (filterb-later x (y ∷ ys) inc.0))
filterb-rest (suc (suc i)) (x ∷ y ∷ ys) m inc e =
    rw (not_after_smaller x m (All-last_take (order_of x) (suc i) (y ∷ ys) m inc.0 e))
      (filterb-rest (suc i) (y ∷ ys) m inc.1 e)

selected-twice :
    (cursor : Option StoreScanCursor) (c : StoreScanCursor) (filters : Option StoreScanFilters)
    (ms : List StoreEntryMetadata)
    → ((x : StoreEntryMetadata) → is_after_scan_cursor x c ≡ true → after_cursor cursor x ≡ true)
    → selected (some c) filters ms ≡ filterb (after_cursor (some c)) (selected cursor filters ms)
selected-twice cursor c filters [] h = refl
selected-twice cursor c filters (m ∷ ms) h =
    ground (arith, selected-twice cursor c filters ms h, h m)

-- Whatever comes after an entry that comes after the cursor comes after the cursor.
after_cursor_trans :
    (cursor : Option StoreScanCursor) (m x : StoreEntryMetadata)
    → after_cursor cursor m ≡ true
    → is_after_scan_cursor x (cursor_at m) ≡ true
    → after_cursor cursor x ≡ true
unfolding is_after_scan_cursor
after_cursor_trans none m x h k = refl
after_cursor_trans (some c) m x h k = ground (arith, str_ltb_trans c.id m.id x.id)

-- The last entry of a page passes the test that selected it.
last_take-passes :
    (p : StoreEntryMetadata → Bool) (i : ℕ) (ms : List StoreEntryMetadata) (m : StoreEntryMetadata)
    → All (λ x. p x ≡ true) ms
    → last? (take i ms) ≡ some m
    → p m ≡ true
last_take-passes p zero ms m h e = cc
last_take-passes p (suc i) [] m h e = cc
last_take-passes p (suc i) (x ∷ []) m h e = ground (arith, take-nil {A = StoreEntryMetadata} i)
last_take-passes p (suc zero) (x ∷ y ∷ ys) m h e = ground arith
last_take-passes p (suc (suc i)) (x ∷ y ∷ ys) m h e = last_take-passes p (suc i) (y ∷ ys) m h.1 e

selected-after :
    (cursor : Option StoreScanCursor) (filters : Option StoreScanFilters)
    (ms : List StoreEntryMetadata)
    → All (λ x. after_cursor cursor x ≡ true) (selected cursor filters ms)
selected-after cursor filters [] = tt
selected-after cursor filters (m ∷ ms) =
    elim (Bool-cases (after_cursor cursor m && metadata_matches_scan_filters m filters)) [
      | inl e ↦ rw e (ground arith, selected-after cursor filters ms)
      | inr e ↦ rw e (selected-after cursor filters ms)
    ]

-- On entries of increasing receipt order: a scan with a limit of at least one, resumed at the
-- cursor that it returned, selects exactly what its page left out.
pub selected-next_cursor :
    (cursor : Option StoreScanCursor) (filters : Option StoreScanFilters) (limit : ℕ)
    (ms : List StoreEntryMetadata)
    → Increasing order_of ms
    → 1 ≤ limit
    → selected (next_cursor cursor (take limit (selected cursor filters ms))) filters ms
      ≡ drop limit (selected cursor filters ms)
unfolding next_cursor
selected-next_cursor cursor filters limit ms inc h =
    elim (Option-cases (last? (take limit (selected cursor filters ms)))) [
      | inl nothing ↦
          rw (nothing, next_cursor) (drop_of_last_none limit (selected cursor filters ms) h nothing)
      | inr (m, found) ↦
          rw (found, next_cursor)
            (let passes =
                last_take-passes (after_cursor cursor) limit (selected cursor filters ms) m
                  (selected-after cursor filters ms) found in
              selected-twice cursor (cursor_at m) filters ms
                (λ x k. after_cursor_trans cursor m x passes k)
              ∙ filterb-rest limit (selected cursor filters ms) m (Increasing-filterb _ ms inc)
                  found)
    ]
